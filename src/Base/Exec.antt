-- ===== src/Base/Exec.antt =====
-- Code that may throw, and methods that also write an object's fields. What was written before a
-- throw stays written, so the state comes back beside the error.
pub mod Try
pub mod Run
pub mod Keeps
use auditable_mcp_sdk_ts.Base.Strings.{Text}

-- What the modelled code can throw. `foreign` is an exception of injected code.
pub data Error : Type 0 where
  -- `CanonicalizationError`
  not_canonical : Error
  -- `String(value)` on an object that has no primitive form
  type_error : Error
  -- `AmcpUsageError`
  usage : Error
  -- `new Error(…)`: a refused configuration or argument
  invalid_argument : Error
  foreign : Error
  -- `AmcpAbortedError`: the action type, the target's ref and the reason
  aborted : Text → Text → Text → Error

pub data Result {ℓ} (A : Type ℓ) : Type ℓ where
  ok : A → Result A
  err : Error → Result A

abbrev pub Exec {ℓ} : Type ℓ → Type ℓ → Type ℓ
Exec S A = S → Result A × S
