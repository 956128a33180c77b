-- ===== src/Session.antt =====
-- src/session.ts: the tool's side of one audit session, and the state that its
-- methods write.
pub mod Construction
pub mod Emission
pub mod Acting
pub mod Lifecycle
pub mod Cleared
pub mod Returned
pub mod Precedence
pub mod Disposal
pub mod Numbers
pub mod InProcess
mod Tests
use auditable_mcp_sdk_ts.Base.{
  ℕ, suc, ◌≡◌, Bool, true, false, ◌&&◌, ◌||◌, not, Option, none, some, List, Text, leb, is_some,
}
use auditable_mcp_sdk_ts.Base.Regex.{matches}
use auditable_mcp_sdk_ts.Base.Exec.{Result, ok, err, Exec, usage, invalid_argument}
use auditable_mcp_sdk_ts.Base.Exec.Run.{pure, gets, modify, ◌>>=◌, ◌>>◌}
use auditable_mcp_sdk_ts.Base.Exec.Try
use auditable_mcp_sdk_ts.Json.{
  Value, Number, Members, integer, pos, fraction, infinite, nan, negsuc,
}
use auditable_mcp_sdk_ts.Canonical.{max_safe_integer}
use auditable_mcp_sdk_ts.Models.Patterns.{session_id_regex}
use auditable_mcp_sdk_ts.Transport.{Response, Acceptance}

-- What `CountersignatureVerifier.verify` resolves to.
pub data Verification : Type 0 where
  valid invalid unchecked : Verification

-- The injected code that every session has: the transport, the id and time source, and the random
-- source. `T` is the state of all that is outside of the session.
pub record Outside (T : Type 0) : Type 0 where
  pub send_attempt : Value → Exec T Response
  pub send_outcome : Value → Exec T Unit
  pub new_id : Exec T Text
  pub now : Exec T Text
  pub random_bytes : Exec T (List ℕ)

-- `EventSigner.sign`
abbrev pub Sign : Type 0 → Type 0
Sign T = Value → ℕ → Exec T Value

-- `CountersignatureVerifier.verify`
abbrev pub Check : Type 0 → Type 0
Check T = Text → Text → List ℕ → Exec T Verification

-- `AmcpSession`; its numbering is in the state.
pub record Session (T : Type 0) : Type 0 where
  pub outside : Outside T
  pub session_id : Text
  pub signer : Option (Sign T)
  pub polluted_stop : Bool
  pub countersignature_verifier : Option (Check T)
  pub require_countersign : Bool

-- What the methods of a session write: the next `signer_seq` of its `SessionNumbering`, and whatever
-- the injected code writes.
pub record Call (T : Type 0) : Type 0 where
  pub next : ℕ
  pub world : T

-- A call of injected code.
abbrev pub calls : {T A : Type 0} → Exec T A → Exec (Call T) A
calls m c = let (r, w) = m c.world in (r, record c { world = w })

-- `SessionNumbering.run`: the number advances only if the body emitted.
unfoldable pub run_numbered : {T A : Type 0} → (ℕ → Exec (Call T) A) → Exec (Call T) A
run_numbered body = do
  signer_seq ← gets (λ c. c.next)
  result ← body signer_seq
  modify (λ c. record c { next = suc signer_seq })
  pure result

abbrev pub numbering_with :
    {T A : Type 0} → Option (Sign T) → (Option ℕ → Exec (Call T) A) → Exec (Call T) A
numbering_with none body = body none
numbering_with (some sign) body = run_numbered (λ signer_seq. body (some signer_seq))

-- `numbering`: Level 1 numbers nothing.
unfoldable pub numbering :
    {T A : Type 0} → Session T → (Option ℕ → Exec (Call T) A) → Exec (Call T) A
numbering s body = numbering_with s.signer body
