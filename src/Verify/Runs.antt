-- ===== src/Verify/Runs.antt =====
-- `missingRuns` of src/verify.ts, and how a refusal uses up a missing value.
use auditable_mcp_sdk_ts.Base.{ℕ, ◌+◌, ◌-◌, List, [], ◌∷◌, ltb, leb, if◌then◌else◌}

-- `new Set(values)` and `.sort((a, b) => a - b)`: ascending, each value once.
unfoldable pub place : ℕ → List ℕ → List ℕ
place v [] = v ∷ []
place v (w ∷ ws) = if ltb v w then v ∷ w ∷ ws else if ltb w v then w ∷ place v ws else w ∷ ws

unfoldable pub sorted_set : List ℕ → List ℕ
unfolding place
sorted_set [] = []
sorted_set (v ∷ vs) = place v (sorted_set vs)

-- The loop of `missingRuns` over the sorted values, from the value `next` that is expected.
unfoldable pub runs_from : ℕ → List ℕ → List (ℕ × ℕ)
runs_from next [] = []
runs_from next (v ∷ vs) =
    let rest = runs_from (v + 1) vs in if ltb next v then (next, v - 1) ∷ rest else rest

unfoldable pub missing_runs : List ℕ → List (ℕ × ℕ)
unfolding sorted_set runs_from
missing_runs present = runs_from 0 (sorted_set present)

-- `refusals.sort((a, b) => a - b)`
unfoldable pub insert_sorted : ℕ → List ℕ → List ℕ
insert_sorted v [] = v ∷ []
insert_sorted v (w ∷ ws) = if leb v w then v ∷ w ∷ ws else w ∷ insert_sorted v ws

unfoldable pub sort : List ℕ → List ℕ
unfolding insert_sorted
sort [] = []
sort (v ∷ vs) = insert_sorted v (sort vs)

-- One refusal accounts for the smallest value that is still missing below it.
unfoldable pub account_one : ℕ → List (ℕ × ℕ) → List (ℕ × ℕ)
account_one refusal [] = []
account_one refusal ((first, last) ∷ runs) =
    if leb refusal first
    then (first, last) ∷ runs
    else if ltb last (first + 1)
    then runs
    else (first + 1, last) ∷ runs

unfoldable pub account : List ℕ → List (ℕ × ℕ) → List (ℕ × ℕ)
unfolding account_one
account [] runs = runs
account (refusal ∷ refusals) runs = account refusals (account_one refusal runs)
