-- ===== src/Base/Exec/Run.antt =====
-- `do` blocks of methods.
use mathlib.Core.Path.{◌≡◌, refl, ap}
use auditable_mcp_sdk_ts.Base.Exec.{Result, ok, err, Error, Exec}

abbrev pub pure {ℓ} : {S A : Type ℓ} → A → Exec S A
pure a s = (ok a, s)

abbrev pub raise {ℓ} : {S A : Type ℓ} → Error → Exec S A
raise e s = (err e, s)

-- A computation that writes nothing, such as a call of a pure function that may throw.
abbrev pub lift {ℓ} : {S A : Type ℓ} → Result A → Exec S A
lift r s = (r, s)

abbrev pub gets {ℓ} : {S A : Type ℓ} → (S → A) → Exec S A
gets f s = (ok (f s), s)

abbrev pub modify : {S : Type 0} → (S → S) → Exec S (Unit {0})
modify f s = (ok tt, f s)

infixl 5 ◌>>=◌ ◌>>◌
abbrev pub ◌>>=◌ {ℓ} : {S A B : Type ℓ} → Exec S A → (A → Exec S B) → Exec S B
◌>>=◌ m f s = let (r, s') = m s in elim r [ ok a ↦ f a s' | err e ↦ (err e, s') ]

abbrev pub ◌>>◌ {ℓ} : {S A B : Type ℓ} → Exec S A → Exec S B → Exec S B
m >> k = m >>= λ _. k

module _ {S A B : Type 0} where
  inverted :
      (r : Result A) (s : S) (f : A → Exec S B) {b : B} {t : S}
      → (lift r >>= f) s ≡ (ok b, t)
      → (a : A) × (r ≡ ok a) × (f a s ≡ (ok b, t))
  inverted (ok a) s f q = (a, refl, q)
  inverted (err e) s f q = cc

  -- Inversion of a bind that returned.
  pub >>=-eq-ok :
      (m : Exec S A) (f : A → Exec S B) (s : S) {b : B} {t : S}
      → (m >>= f) s ≡ (ok b, t)
      → (a : A) × (s' : S) × (m s ≡ (ok a, s')) × (f a s' ≡ (ok b, t))
  >>=-eq-ok m f s q =
      let (r, s') = m s in let (a, e, k) = inverted r s' f q in (a, s', (λ i. (e i, s')), k)

module _ {S A B : Type 0} where
  pub >>=-ok :
      (m : Exec S A) (f : A → Exec S B) (s : S) {a : A} {t : S}
      → m s ≡ (ok a, t)
      → (m >>= f) s ≡ f a t
  >>=-ok m f s q = ap (λ x. elim x.0 [ ok a ↦ f a x.1 | err e ↦ (err e, x.1) ]) q

  pub >>=-err :
      (m : Exec S A) (f : A → Exec S B) (s : S) {e : Error} {t : S}
      → m s ≡ (err e, t)
      → (m >>= f) s ≡ (err e, t)
  >>=-err m f s q = ap (λ x. elim x.0 [ ok a ↦ f a x.1 | err e ↦ (err e, x.1) ]) q
