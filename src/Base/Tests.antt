-- ===== src/Base/Tests.antt =====
-- Boolean tests on the native numbers, the conditional, and equality as an interface.
use Prim.Native.Nat.{ℕ, compare, Ordering}
use mathlib.Core.Path.{◌≡◌, refl}
use mathlib.Core.Logic.{◌↔◌, ◌⊎◌, inl, inr}
use mathlib.Core.Bool.{Bool, true, false, ◌&&◌}
use mathlib.Core.Option.{Option, none, some}
use mathlib.Core.List.{List, [], ◌∷◌}
use native.Mathlib.Omega.{arith}

abbrev pub ltb : ℕ → ℕ → Bool
ltb a b = elim (compare a b) [ Ordering.lt ↦ true | _ ↦ false ]

abbrev pub leb : ℕ → ℕ → Bool
leb a b = elim (compare a b) [ Ordering.gt ↦ false | _ ↦ true ]

infix 50 ◌==◌
abbrev pub ◌==◌ : ℕ → ℕ → Bool
a == b = elim (compare a b) [ Ordering.eq ↦ true | _ ↦ false ]

infix 1 if◌then◌else◌
abbrev pub if◌then◌else◌ {ℓ} : {A : Type ℓ} → Bool → A → A → A
if true then x else y = x
if false then x else y = y

abbrev pub is_some {ℓ} : {A : Type ℓ} → Option A → Bool
is_some none = false
is_some (some a) = true

pub ==_iff : (a b : ℕ) → ((a == b) ≡ true) ↔ (a ≡ b)
==_iff a b = ground arith

pub Bool-cases : (b : Bool) → (b ≡ true) ⊎ (b ≡ false)
Bool-cases true = inl refl
Bool-cases false = inr refl

pub Option-cases {ℓ} : {A : Type ℓ} (o : Option A) → (o ≡ none) ⊎ ((a : A) × (o ≡ some a))
Option-cases none = inl refl
Option-cases (some a) = inr (a, refl)

-- A key type of the program's maps and sets: JavaScript compares its keys by value.
pub record Eq {ℓ} (A : Type ℓ) : Type ℓ where
  pub beq : A → A → Bool
  pub beq_iff : (a b : A) → (beq a b ≡ true) ↔ (a ≡ b)

unfoldable pub list_beq {ℓ} : {A : Type ℓ} → (A → A → Bool) → List A → List A → Bool
list_beq f [] [] = true
list_beq f [] (y ∷ ys) = false
list_beq f (x ∷ xs) [] = false
list_beq f (x ∷ xs) (y ∷ ys) = f x y && list_beq f xs ys

pub list_beq_iff {ℓ} :
    {A : Type ℓ} (e : Eq A) (xs ys : List A) → (list_beq e.beq xs ys ≡ true) ↔ (xs ≡ ys)
unfolding list_beq
list_beq_iff e [] [] = ((λ _. refl), (λ _. refl))
list_beq_iff e [] (y ∷ ys) = ((λ h. cc), (λ h. cc))
list_beq_iff e (x ∷ xs) [] = ((λ h. cc), (λ h. cc))
list_beq_iff e (x ∷ xs) (y ∷ ys) = (
  (λ h. ground (arith, e.beq_iff x y, list_beq_iff e xs ys)),
  (λ h. ground (arith, e.beq_iff x y, list_beq_iff e xs ys)),
)
