-- ===== src/Mutex.antt =====
-- src/mutex.ts: the FIFO lock, as steps of its callers.
mod Tests
use auditable_mcp_sdk_ts.Base.{
  ℕ, zero, suc, ◌+◌, ◌≤◌, ◌<◌, ◌≡◌, ◌∙◌, arith, Bool, true, false, ◌||◌, List, [], ◌∷◌, ◌++◌,
  nat_eq, has, ltb, ◌==◌, ap, ◌⊎◌, inl, inr, refl, sym, length, length-append, Bool-cases,
}

-- Callers are numbered in the order of their calls: caller `k` waits for the promise that caller `k - 1`
-- resolves. `called` is how many there are, so that `#tail` is the promise of the last; `entered` and
-- `left` are the callers whose sections began and ended, in that order.
pub record Mutex : Type 0 where
  pub called : ℕ
  pub entered : List ℕ
  pub left : List ℕ

abbrev pub new_mutex : Mutex
new_mutex = record { called = 0; entered = []; left = [] }

-- The promise that caller `k` waits for is resolved; that of the first caller always is.
unfoldable pub is_resolved : ℕ → List ℕ → Bool
is_resolved zero left = true
is_resolved (suc k) left = has k left

-- The steps of `run`: a call replaces the tail, the section begins once `earlier` is resolved, and its
-- end, a return or a throw, releases the next caller.
pub data Step : Mutex → Mutex → Type 0 where
  arrives : {m : Mutex} → Step m (record m { called = suc m.called })
  enters :
      {m : Mutex} (k : ℕ)
      → k < m.called
      → is_resolved k m.left ≡ true
      → has k m.entered ≡ false
      → Step m (record m { entered = m.entered ++ k ∷ [] })
  leaves :
      {m : Mutex} (k : ℕ)
      → has k m.entered ≡ true
      → has k m.left ≡ false
      → Step m (record m { left = m.left ++ k ∷ [] })

pub data Reachable : Mutex → Type 0 where
  at_first : Reachable new_mutex
  after_step : {m n : Mutex} → Reachable m → Step m n → Reachable n

-- `0, …, n - 1`
abbrev pub up_to : ℕ → List ℕ
up_to zero = []
up_to (suc n) = up_to n ++ n ∷ []

has-snoc : (k j : ℕ) (xs : List ℕ) → has k (xs ++ j ∷ []) ≡ (has k xs || (j == k))
unfolding has
has-snoc k j [] = ground arith
has-snoc k j (x ∷ xs) = ground (arith, has-snoc k j xs)

has-up_to : (k n : ℕ) → has k (up_to n) ≡ ltb k n
unfolding has
has-up_to k zero = ground arith
has-up_to k (suc n) = has-snoc k n (up_to n) ∙ ground (arith, has-up_to k n)

-- The callers that entered are the first `e` ones, in order; those that left the first `l`; at most
-- one has entered and not left.
pub record IsFifo (m : Mutex) (e l : ℕ) : Type 0 where
  pub entered_is : m.entered ≡ up_to e
  pub left_is : m.left ≡ up_to l
  pub one_inside : e ≤ l + 1
  pub none_early : l ≤ e
  pub all_called : e ≤ m.called

below : (k n : ℕ) → has k (up_to n) ≡ true → k < n
below k n q = ground (arith, has-up_to k n)

not_below : (k n : ℕ) → has k (up_to n) ≡ false → n ≤ k
not_below k n q = ground (arith, has-up_to k n)

-- Who may enter next: the first caller who has not.
next_entry : (k e l : ℕ) → is_resolved k (up_to l) ≡ true → e ≤ k → l ≤ e → (k ≡ e) × (e ≤ l)
unfolding is_resolved
next_entry zero e l q after early = (omega arith, omega arith)
next_entry (suc k) e l q after early = let h = below k l q in (omega (arith, h), omega (arith, h))

Step-IsFifo :
    (m n : Mutex) (e l : ℕ) → IsFifo m e l → Step m n → (e' : ℕ) × (l' : ℕ) × IsFifo n e' l'
Step-IsFifo m n e l f arrives = (
  e,
  l,
  record {
    entered_is = f.entered_is;
    left_is = f.left_is;
    one_inside = f.one_inside;
    none_early = f.none_early;
    all_called = omega (arith, f.all_called);
  },
)
Step-IsFifo m n e l f (enters k called resolved new) =
    let fresh = not_below k e (ap (has k) (sym f.entered_is) ∙ new) in
    let (is, free) =
      next_entry k e l (ap (is_resolved k) (sym f.left_is) ∙ resolved) fresh f.none_early in
    (
      suc e,
      l,
      record {
        entered_is = λ i. f.entered_is i ++ is i ∷ [];
        left_is = f.left_is;
        one_inside = omega (arith, free);
        none_early = omega (arith, free);
        all_called = omega (arith, is, called);
      },
    )
Step-IsFifo m n e l f (leaves k inside new) =
    let began = below k e (ap (has k) (sym f.entered_is) ∙ inside) in
    let fresh = not_below k l (ap (has k) (sym f.left_is) ∙ new) in
    let is : k ≡ l = omega (arith, began, fresh, f.one_inside) in
    (
      e,
      suc l,
      record {
        entered_is = f.entered_is;
        left_is = λ i. f.left_is i ++ is i ∷ [];
        one_inside = omega (arith, f.one_inside);
        none_early = omega (arith, began, is);
        all_called = f.all_called;
      },
    )

-- However the callers' steps interleave, sections begin in the order of the calls and end in that
-- order, and at most one has begun and not ended.
pub Reachable-IsFifo : (m : Mutex) → Reachable m → (e : ℕ) × (l : ℕ) × IsFifo m e l
Reachable-IsFifo m at_first = (
  0,
  0,
  record {
    entered_is = refl;
    left_is = refl;
    one_inside = omega arith;
    none_early = omega arith;
    all_called = omega arith;
  },
)
Reachable-IsFifo m (after_step {m = m'} before step) =
    let (e, l, f) = Reachable-IsFifo m' before in Step-IsFifo m' m e l f step

length-up_to : (n : ℕ) → length (up_to n) ≡ n
length-up_to zero = refl
length-up_to (suc n) = omega (arith, length-append (up_to n) (n ∷ []), length-up_to n)

-- A caller who can take a step of its section.
pub data CanStep (m : Mutex) : ℕ → Type 0 where
  can_enter :
      {k : ℕ} → k < m.called → is_resolved k m.left ≡ true → has k m.entered ≡ false → CanStep m k
  can_leave : {k : ℕ} → has k m.entered ≡ true → has k m.left ≡ false → CanStep m k

resolved_at : (l : ℕ) → is_resolved l (up_to l) ≡ true
unfolding is_resolved
resolved_at zero = refl
resolved_at (suc l) = has-up_to l (suc l) ∙ ground arith

steps_on :
    (m : Mutex) (e l : ℕ)
    → IsFifo m e l
    → l < m.called
    → (ltb l e ≡ true) ⊎ (ltb l e ≡ false)
    → CanStep m l
steps_on m e l f waiting (inl inside) =
    can_leave (ap (has l) f.entered_is ∙ has-up_to l e ∙ inside)
      (ap (has l) f.left_is ∙ has-up_to l l ∙ ground arith)
steps_on m e l f waiting (inr outside) =
    can_enter waiting (ap (is_resolved l) f.left_is ∙ resolved_at l)
      (ap (has l) f.entered_is ∙ has-up_to l e ∙ outside)

-- The lock is never stuck: while a section has not ended, the first caller whose section has not can
-- take its next step, to enter or to leave.
pub Reachable-CanStep :
    (m : Mutex) → Reachable m → length m.left < m.called → CanStep m (length m.left)
Reachable-CanStep m run waiting =
    let (e, l, f) = Reachable-IsFifo m run in
    let size : length m.left ≡ l = ap length f.left_is ∙ length-up_to l in
    rw size (steps_on m e l f (rw size at waiting) (Bool-cases (ltb l e)))
