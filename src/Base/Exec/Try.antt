-- ===== src/Base/Exec/Try.antt =====
-- `do` blocks of code that may throw and writes nothing.
use mathlib.Core.Path.{◌≡◌, refl}
use mathlib.Core.Bool.{Bool, true, false}
use auditable_mcp_sdk_ts.Base.Exec.{Result, ok, err, Error}

-- `if (b) throw e`
abbrev pub throw_if : Bool → Error → Result (Unit {0})
throw_if true thrown = err thrown
throw_if false _ = ok tt

-- The statements after a call that may throw run on what it returned.
infixl 5 ◌>>=◌
abbrev pub ◌>>=◌ {ℓ κ} : {A : Type ℓ} {B : Type κ} → Result A → (A → Result B) → Result B
ok value >>= rest = rest value
err thrown >>= rest = err thrown

infixl 5 ◌>>◌
abbrev pub ◌>>◌ {ℓ} : {A : Type ℓ} → Result (Unit {0}) → Result A → Result A
check >> rest = check >>= λ _. rest

module _ {ℓ κ} {A : Type ℓ} {B : Type κ} where
  -- A bind that returned: so did its first part, and the rest on what that returned.
  pub >>=-eq-ok :
      (first : Result A) (rest : A → Result B) {b : B}
      → (first >>= rest) ≡ ok b
      → (a : A) × (first ≡ ok a) × (rest a ≡ ok b)
  >>=-eq-ok (err thrown) rest returned = cc
  >>=-eq-ok (ok value) rest returned = (value, refl, returned)
