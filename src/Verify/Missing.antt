-- ===== src/Verify/Missing.antt =====
-- What `missingRuns` finds: the values below the greatest present one that are not present.
use auditable_mcp_sdk_ts.Base.{
  ℕ, ◌+◌, Bool, true, false, ◌&&◌, ◌||◌, not, List, [], ◌∷◌, ltb, leb, ◌==◌, ◌≡◌, refl, arith, has,
  nat_eq,
}
use auditable_mcp_sdk_ts.Verify.Runs.{place, sorted_set, runs_from, missing_runs}

-- A value that lies in one of the runs.
abbrev pub in_runs : ℕ → List (ℕ × ℕ) → Bool
in_runs v [] = false
in_runs v ((first, last) ∷ runs) = (leb first v && leb v last) || in_runs v runs

-- A value below one that is present.
abbrev pub is_exceeded : ℕ → List ℕ → Bool
is_exceeded v [] = false
is_exceeded v (w ∷ ws) = ltb v w || is_exceeded v ws

-- Each value is at least `n`, and greater than those before it.
abbrev ascends : ℕ → List ℕ → Bool
ascends n [] = true
ascends n (w ∷ ws) = leb n w && ascends (w + 1) ws

has-place : (x v : ℕ) (ws : List ℕ) → has x (place v ws) ≡ ((v == x) || has x ws)
unfolding has place
has-place x v [] = refl
has-place x v (w ∷ ws) = ground (arith, has-place x v ws)

exceeded-place :
    (x v : ℕ) (ws : List ℕ) → is_exceeded x (place v ws) ≡ (ltb x v || is_exceeded x ws)
unfolding place
exceeded-place x v [] = refl
exceeded-place x v (w ∷ ws) = ground (arith, exceeded-place x v ws)

ascends-place :
    (n v : ℕ) (ws : List ℕ) → leb n v ≡ true → ascends n ws ≡ true → ascends n (place v ws) ≡ true
unfolding place
ascends-place n v [] l a = ground arith
ascends-place n v (w ∷ ws) l a = ground (arith, ascends-place (w + 1) v ws)

has-sorted_set : (x : ℕ) (vs : List ℕ) → has x (sorted_set vs) ≡ has x vs
unfolding has sorted_set
has-sorted_set x [] = refl
has-sorted_set x (v ∷ vs) = ground (arith, has-place x v (sorted_set vs), has-sorted_set x vs)

exceeded-sorted_set : (x : ℕ) (vs : List ℕ) → is_exceeded x (sorted_set vs) ≡ is_exceeded x vs
unfolding sorted_set
exceeded-sorted_set x [] = refl
exceeded-sorted_set x (v ∷ vs) =
    ground (arith, exceeded-place x v (sorted_set vs), exceeded-sorted_set x vs)

sorted_set-ascends : (vs : List ℕ) → ascends 0 (sorted_set vs) ≡ true
unfolding sorted_set
sorted_set-ascends [] = refl
sorted_set-ascends (v ∷ vs) =
    ascends-place 0 v (sorted_set vs) (ground arith) (sorted_set-ascends vs)

absent_below : (v n : ℕ) (ws : List ℕ) → ascends n ws ≡ true → ltb v n ≡ true → has v ws ≡ false
unfolding has
absent_below v n [] a l = refl
absent_below v n (w ∷ ws) a l = ground (arith, absent_below v (w + 1) ws)

in_runs_from :
    (v n : ℕ) (ws : List ℕ)
    → ascends n ws ≡ true
    → in_runs v (runs_from n ws) ≡ (leb n v && (not (has v ws) && is_exceeded v ws))
unfolding has runs_from
in_runs_from v n [] a = ground arith
in_runs_from v n (w ∷ ws) a = ground (arith, in_runs_from v (w + 1) ws, absent_below v (w + 1) ws)

-- A value lies in a run that `missingRuns` returns exactly when it is not among the values and one of
-- them is greater.
pub in_runs-missing_runs :
    (v : ℕ) (present : List ℕ)
    → in_runs v (missing_runs present) ≡ (not (has v present) && is_exceeded v present)
unfolding missing_runs
in_runs-missing_runs v present = ground (
  arith,
  in_runs_from v 0 (sorted_set present) (sorted_set-ascends present),
  has-sorted_set v present,
  exceeded-sorted_set v present,
)
