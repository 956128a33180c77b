-- ===== src/Level2/Reconcile.antt =====
-- src/l2/reconcile.ts: egress that a boundary observed, against what the tool reported.
use auditable_mcp_sdk_ts.Base.{
  zero, ◌≡◌, refl, ap, ◌∙◌, arith, Bool, true, false, ◌&&◌, ◌||◌, not, Option, none, some, List, [],
  ◌∷◌, ◌++◌, map, filter, Text, same_text, same_text_iff, text_eq, has, add, has-add_self,
  has-add_ne, Bool-cases, inl, inr, if◌then◌else◌,
}
use auditable_mcp_sdk_ts.Json.{Value, null, bool, num, bigint, str, integer, pos, nan, get, is_text}
use auditable_mcp_sdk_ts.Fields
use auditable_mcp_sdk_ts.Ledger.{SealedRecord}
use auditable_mcp_sdk_ts.Host.Sessions.{sort_texts}
use auditable_mcp_sdk_ts.Host.Closing.{has-sort_texts, has-filter}

-- `EgressObservation`
pub record Observation : Type 0 where
  pub session_id : Text
  pub destination : Text

-- `ReconcileAnomaly`; its kind is one constant, and its detail one sentence.
pub record Unreported : Type 0 where
  pub session_id : Text
  pub destination : Text

-- `observeEgress` and `forCall`
unfoldable pub observe_egress : Text → Text → List Observation → List Observation
observe_egress session destination seen =
    seen ++ record { session_id = session; destination = destination } ∷ []

unfoldable pub for_call : Text → List Observation → List Observation
for_call session [] = []
for_call session (o ∷ os) =
    let rest = for_call session os in if same_text o.session_id session then o ∷ rest else rest

-- What an `if` takes for true.
unfoldable pub truthy : Option Value → Bool
truthy none = false
truthy (some null) = false
truthy (some (bool b)) = b
truthy (some (num (integer (pos zero)))) = false
truthy (some (num nan)) = false
truthy (some (bigint (pos zero))) = false
truthy (some (str [])) = false
truthy (some v) = true

abbrev member_of : Text → Option Value → Option Value
member_of name none = none
member_of name (some v) = get name v

-- `targetRef`
unfoldable pub target_ref : SealedRecord → Option Value
target_ref r = member_of Fields.ref (get Fields.target_resource r.event)

-- The record reports an egress of the call.
unfoldable pub reports_egress : Text → SealedRecord → Bool
reports_egress session r =
    is_text session (get Fields.session_id r.event) && truthy (get Fields.egress r.event)

-- `reported`
unfoldable pub reported : Text → List SealedRecord → List (Option Value)
reported session [] = []
reported session (r ∷ rs) =
    let rest = reported session rs in if reports_egress session r then target_ref r ∷ rest else rest

-- `reported.has(destination)`
unfoldable pub is_reported : Text → List (Option Value) → Bool
is_reported destination [] = false
is_reported destination (v ∷ vs) = is_text destination v || is_reported destination vs

-- `observed`, a set in the order of the observations
unfoldable pub observed_from : Text → List Text → List Observation → List Text
observed_from session seen [] = seen
observed_from session seen (o ∷ os) =
    observed_from session (if same_text o.session_id session then add o.destination seen else seen)
      os

-- `reconcile`
unfoldable pub reconcile : List SealedRecord → List Observation → Text → List Unreported
reconcile records observations session =
    let known = reported session records in
    map (λ destination. record { session_id = session; destination = destination })
      (sort_texts (
        filter (λ destination. not (is_reported destination known))
          (observed_from session [] observations)))

-- The boundary saw the call reach the destination.
abbrev pub was_observed : Text → Text → List Observation → Bool
was_observed session destination [] = false
was_observed session destination (o ∷ os) =
    (same_text o.session_id session && same_text o.destination destination)
    || was_observed session destination os

-- A record of the call reports an egress to the destination.
abbrev pub was_reported : Text → Text → List SealedRecord → Bool
was_reported session destination [] = false
was_reported session destination (r ∷ rs) =
    (reports_egress session r && is_text destination (target_ref r))
    || was_reported session destination rs

abbrev pub destinations : List Unreported → List Text
destinations [] = []
destinations (u ∷ us) = u.destination ∷ destinations us

destinations-map :
    (session : Text) (ds : List Text)
    → destinations (map (λ d. record { session_id = session; destination = d }) ds) ≡ ds
destinations-map session [] = refl
destinations-map session (d ∷ ds) = ap (λ r. d ∷ r) (destinations-map session ds)

has-add : (x d : Text) (seen : List Text) → has x (add d seen) ≡ (has x seen || same_text d x)
has-add x d seen = elim (Bool-cases (same_text d x)) [
  | inl same ↦ ground (arith, has-add_self d seen, same_text_iff d x)
  | inr other ↦ ground (arith, has-add_ne x d seen, same_text_iff d x)
]

has-observed_from :
    (session x : Text) (seen : List Text) (os : List Observation)
    → has x (observed_from session seen os) ≡ (has x seen || was_observed session x os)
unfolding observed_from
has-observed_from session x seen [] = ground arith
has-observed_from session x seen (o ∷ os) = ground (
  arith,
  has-observed_from session x
      (if same_text o.session_id session then add o.destination seen else seen) os,
  has-add x o.destination seen,
)

is_reported-reported :
    (session x : Text) (rs : List SealedRecord)
    → is_reported x (reported session rs) ≡ was_reported session x rs
unfolding is_reported reported
is_reported-reported session x [] = refl
is_reported-reported session x (r ∷ rs) = ground (arith, is_reported-reported session x rs)

-- `reconcile` names a destination exactly when the boundary saw the call reach it and no record of the
-- call reports an egress to it.
pub reconcile_iff :
    (records : List SealedRecord) (observations : List Observation) (session x : Text)
    → has x (destinations (reconcile records observations session))
      ≡ (was_observed session x observations && not (was_reported session x records))
unfolding reconcile has
reconcile_iff records observations session x =
    let known = reported session records in
    let seen = observed_from session [] observations in
    let missing = filter (λ d. not (is_reported d known)) seen in
    ap (has x) (destinations-map session (sort_texts missing))
    ∙ has-sort_texts x missing
    ∙ has-filter (λ d. not (is_reported d known)) x seen
    ∙ (λ i.
        has-observed_from session x [] observations i
        && not (is_reported-reported session x records i))
