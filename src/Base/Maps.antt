-- ===== src/Base/Maps.antt =====
-- JavaScript's `Map` and `Set`, in insertion order, and lists measured by native numbers.
use Prim.Native.Nat.{ℕ, suc, ◌+◌}
use mathlib.Core.Path.{◌≡◌, refl}
use mathlib.Core.Bool.{Bool, true, false, ◌||◌}
use mathlib.Core.Logic.{◌≢◌, inl, inr}
use mathlib.Core.Option.{Option, none, some}
use mathlib.Core.List.{List, [], ◌∷◌, ◌++◌}
use native.Mathlib.Omega.{arith}
use auditable_mcp_sdk_ts.Base.Tests.{Eq, if◌then◌else◌, Bool-cases}

module _ {ℓ} {A : Type ℓ} where
  abbrev pub length : List A → ℕ
  length [] = 0
  length (x ∷ xs) = suc (length xs)

  -- `xs[xs.length - 1]`
  abbrev pub last? : List A → Option A
  last? [] = none
  last? (x ∷ []) = some x
  last? (x ∷ y ∷ ys) = last? (y ∷ ys)

  abbrev pub filter : (A → Bool) → List A → List A
  filter p [] = []
  filter p (x ∷ xs) = if p x then x ∷ filter p xs else filter p xs

  pub length-append : (xs ys : List A) → length (xs ++ ys) ≡ length xs + length ys
  length-append [] ys = omega arith
  length-append (x ∷ xs) ys = omega (arith, length-append xs ys)

  pub last?-append : (xs : List A) (x : A) → last? (xs ++ x ∷ []) ≡ some x
  last?-append [] x = refl
  last?-append (y ∷ []) x = refl
  last?-append (y ∷ z ∷ zs) x = last?-append (z ∷ zs) x

module _ {ℓ} {K : Type ℓ} ⦃e : Eq K⦄ where
  -- `set.has(k)`
  unfoldable pub has : K → List K → Bool
  has k [] = false
  has k (j ∷ s) = e.beq j k || has k s

  -- `set.add(k)`
  unfoldable pub add : K → List K → List K
  unfolding has
  add k s = if has k s then s else s ++ k ∷ []

  pub has-append_self : (k : K) (s : List K) → has k (s ++ k ∷ []) ≡ true
  unfolding has
  has-append_self k [] = ground (arith, e.beq_iff k k)
  has-append_self k (j ∷ s) = ground (arith, has-append_self k s)

  pub has-append_ne : (k j : K) (s : List K) → j ≢ k → has k (s ++ j ∷ []) ≡ has k s
  unfolding has
  has-append_ne k j [] h = ground (arith, e.beq_iff j k)
  has-append_ne k j (i ∷ s) h = ground (arith, has-append_ne k j s h)

  pub has-add_self : (k : K) (s : List K) → has k (add k s) ≡ true
  unfolding add
  has-add_self k s = ground (arith, has-append_self k s)

  pub has-add_ne : (k j : K) (s : List K) → j ≢ k → has k (add j s) ≡ has k s
  unfolding add
  has-add_ne k j s h = ground (arith, has-append_ne k j s h)

  -- What is in a set stays in it.
  pub has-add_mono : (k j : K) (s : List K) → has k s ≡ true → has k (add j s) ≡ true
  has-add_mono k j s h = elim (Bool-cases (e.beq j k)) [
    | inl same ↦ ground (arith, e.beq_iff j k, has-add_self k s)
    | inr other ↦ ground (arith, e.beq_iff j k, has-add_ne k j s)
  ]

module _ {ℓ κ} {K : Type ℓ} {V : Type κ} ⦃e : Eq K⦄ where
  -- `map.get(k)`
  unfoldable pub lookup : K → List (K × V) → Option V
  lookup k [] = none
  lookup k ((j, v) ∷ m) = if e.beq j k then some v else lookup k m

  -- `map.set(k, v)`
  unfoldable pub insert : K → V → List (K × V) → List (K × V)
  insert k v [] = (k, v) ∷ []
  insert k v ((j, w) ∷ m) = if e.beq j k then (j, v) ∷ m else (j, w) ∷ insert k v m

  -- `map.delete(k)`
  unfoldable pub erase : K → List (K × V) → List (K × V)
  erase k [] = []
  erase k ((j, w) ∷ m) = let rest = erase k m in if e.beq j k then rest else (j, w) ∷ rest

  pub lookup-insert :
      (k j : K) (v : V) (m : List (K × V))
      → lookup j (insert k v m) ≡ (if e.beq k j then some v else lookup j m)
  unfolding lookup insert
  lookup-insert k j v [] = ground (arith, e.beq_iff k j)
  lookup-insert k j v ((i, w) ∷ m) =
      ground (arith, e.beq_iff k j, e.beq_iff i k, e.beq_iff i j, lookup-insert k j v m)

  pub lookup-insert_self : (k : K) (v : V) (m : List (K × V)) → lookup k (insert k v m) ≡ some v
  lookup-insert_self k v m = ground (arith, lookup-insert k k v m, e.beq_iff k k)

  pub lookup-erase :
      (k j : K) (m : List (K × V)) → lookup j (erase k m) ≡ (if e.beq k j then none else lookup j m)
  unfolding lookup erase
  lookup-erase k j [] = ground arith
  lookup-erase k j ((i, w) ∷ m) =
      ground (arith, e.beq_iff k j, e.beq_iff i k, e.beq_iff i j, lookup-erase k j m)

  pub lookup-erase_self : (k : K) (m : List (K × V)) → lookup k (erase k m) ≡ none
  lookup-erase_self k m = ground (arith, lookup-erase k k m, e.beq_iff k k)
