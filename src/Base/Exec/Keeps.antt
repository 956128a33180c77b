-- ===== src/Base/Exec/Keeps.antt =====
-- Statements that a method keeps true of its object, whether it returns or throws, with a rule for
-- each way in which a method is built.
use mathlib.Core.Bool.{Bool, true, false}
use auditable_mcp_sdk_ts.Base.Tests.{if◌then◌else◌}
use auditable_mcp_sdk_ts.Base.Exec.{Result, ok, err, Error, Exec}
use auditable_mcp_sdk_ts.Base.Exec.Run.{pure, raise, lift, gets, modify, ◌>>=◌, ◌>>◌}

pub record Keeps {ℓ} {S A : Type 0} (P : S → Type ℓ) (m : Exec S A) : Type ℓ where
  pub at : (s : S) → P s → P (m s).1

module _ {ℓ} {S A : Type 0} {P : S → Type ℓ} where
  pub Keeps-if : (b : Bool) (m n : Exec S A) → Keeps P m → Keeps P n → Keeps P (if b then m else n)
  Keeps-if true m n km kn = km
  Keeps-if false m n km kn = kn

  pub Keeps-gets : (read : S → A) → Keeps P (gets read)
  Keeps-gets read = record { at = λ _ kept. kept }

  pub Keeps-lift : (result : Result A) → Keeps P (lift {S = S} result)
  Keeps-lift result = record { at = λ _ kept. kept }

  pub Keeps-raise : (thrown : Error) → Keeps P (raise {S = S} {A = A} thrown)
  Keeps-raise thrown = record { at = λ _ kept. kept }

  pub Keeps-pure : (value : A) → Keeps P (pure {S = S} value)
  Keeps-pure value = record { at = λ _ kept. kept }

module _ {ℓ} {S A B : Type 0} {P : S → Type ℓ} where
  after :
      (f : A → Exec S B) (kf : (a : A) → Keeps P (f a)) (r : Result A) (s : S)
      → P s
      → P ((lift r >>= f) s).1
  after f kf (ok a) s h = (kf a).at s h
  after f kf (err e) s h = h

  pub Keeps-bind :
      (m : Exec S A) (f : A → Exec S B) → Keeps P m → ((a : A) → Keeps P (f a)) → Keeps P (m >>= f)
  Keeps-bind m f km kf = record { at = λ s h. let (r, s') = m s in after f kf r s' (km.at s h) }

module _ {ℓ} {S B : Type 0} {P : S → Type ℓ} where
  pub Keeps-then : (m : Exec S (Unit {0})) (n : Exec S B) → Keeps P m → Keeps P n → Keeps P (m >> n)
  Keeps-then m n km kn = Keeps-bind m (λ _. n) km (λ _. kn)

module _ {ℓ} {S : Type 0} {P : S → Type ℓ} where
  pub Keeps-modify : (f : S → S) → ((s : S) → P s → P (f s)) → Keeps P (modify f)
  Keeps-modify f k = record { at = k }

pub ruleset keeps_rules =
    (Keeps-pure, Keeps-raise, Keeps-lift, Keeps-gets, Keeps-if, Keeps-bind, Keeps-then)
