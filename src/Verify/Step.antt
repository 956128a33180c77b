-- ===== src/Verify/Step.antt =====
-- The body of the loop of `verifyChain` in src/verify.ts, one check at a time.
use auditable_mcp_sdk_ts.Base.{
  ℕ, Bool, true, false, ◌||◌, not, Option, none, some, List, [], ◌∷◌, ◌++◌, Text, lit, same_text,
  ◌==◌, is_some, if◌then◌else◌, has, add, lookup, insert, texts_eq, text_eq,
}
use auditable_mcp_sdk_ts.Base.Exec.{Result, ok, err, not_canonical}
use auditable_mcp_sdk_ts.Base.Exec.Try.{◌>>=◌}
use auditable_mcp_sdk_ts.Json.{
  Value, get, is_text, is_object, is_present, as_text, as_number, string_of, strict_equal,
}
use auditable_mcp_sdk_ts.Fields
use auditable_mcp_sdk_ts.Reasons.{
  Code, schema_invalid, seq_gap, record_hash_mismatch, orphaned_outcome, replay_detected,
  principal_mismatch, signature_invalid, host_signature_invalid,
}
use auditable_mcp_sdk_ts.Canonical.{Packages}
use auditable_mcp_sdk_ts.Hashing.{compute_record_hash, countersignature_payload}
use auditable_mcp_sdk_ts.Models.{aborted}
use auditable_mcp_sdk_ts.Ledger.{SealedRecord}
use auditable_mcp_sdk_ts.Verify.Inputs.{
  Issue, Inputs, ExpectedIdentity, apply_optional, operation_key, is_session_scoped,
}

-- The variables of the loop. The flags are `countersignatureUnchecked` and `l2Unchecked`.
pub record Progress : Type 0 where
  pub issues : List Issue
  pub attempted : List (List Text)
  pub numbered : List (List Text × ℕ)
  pub prev : Text
  pub countersignature_unchecked : Bool
  pub l2_unchecked : Bool

abbrev pub issue : SealedRecord → Code → List Issue
issue r kind = record { seq = some r.seq; kind = kind } ∷ []

abbrev pub issue_if : Bool → SealedRecord → Code → List Issue
issue_if b r kind = if b then issue r kind else []

-- `issues.push(…)`
abbrev pub report : List Issue → Progress → Progress
report found s = record s { issues = s.issues ++ found }

-- The inner event, where it is an object.
abbrev pub inner_object : Option Value → Option Value
inner_object v = if is_object v then v else none

unfoldable pub check_principal : Inputs → SealedRecord → Result (List Issue)
unfolding strict_equal
check_principal inputs r = elim inputs.expected_principal [
  | none ↦ ok []
  | some expected ↦ do
    principal ← apply_optional inputs.adapter.principal_of r.event
    ok (issue_if (not (strict_equal principal (some expected))) r principal_mismatch)
]

-- How many members of the countersignature a record carries.
pub data Triple : Type 0 where
  absent : Triple
  partial : Triple
  full : Text → Text → Text → Triple

unfoldable pub triple_of : Option Text → Option Text → Option Text → Triple
triple_of none none none = absent
triple_of (some s) (some k) (some l) = full s k l
triple_of _ _ _ = partial

-- `checkCountersignature`, the signature; the Boolean is `countersignatureUnchecked = true`.
unfoldable pub check_signature :
    Packages → Inputs → SealedRecord → Bool → Triple → Result (List Issue × Bool)
unfolding countersignature_payload
check_signature p inputs r hashable absent =
    ok (issue_if inputs.countersignature_required r host_signature_invalid, false)
check_signature p inputs r hashable partial = ok (issue r host_signature_invalid, false)
check_signature p inputs r false (full signature key_id log_id) = ok ([], false)
check_signature p inputs r true (full signature key_id log_id) =
    elim inputs.countersignature_checker [
      | none ↦ ok ([], true)
      | some checker ↦ do
        payload ← countersignature_payload p r.seq r.host_ts log_id r.previous_hash r.record_hash
        passes ← checker key_id signature payload
        ok (issue_if (not passes) r host_signature_invalid, false)
    ]

-- `checkCountersignature`, the identity.
unfoldable pub check_identity : Option ExpectedIdentity → SealedRecord → Triple → List Issue
unfolding has
check_identity none r t = []
check_identity (some expected) r absent = issue r principal_mismatch
check_identity (some expected) r partial = issue r principal_mismatch
check_identity (some expected) r (full signature key_id log_id) =
    issue_if (not (same_text log_id expected.log_id) || not (has key_id expected.host_key_ids)) r
      principal_mismatch

unfoldable pub check_countersignature :
    Packages → Inputs → SealedRecord → Bool → Progress → Result Progress
unfolding triple_of check_signature check_identity
check_countersignature p inputs r hashable s = do
  let triple = triple_of r.host_signature r.host_key_id r.log_id
  found ← check_signature p inputs r hashable triple
  ok (record s {
    issues = s.issues ++ (found.0 ++ check_identity inputs.expected_identity r triple);
    countersignature_unchecked = s.countersignature_unchecked || found.1;
  })

-- The correlation key of a record: by `call_id` for an event sealed before v0.3.
unfoldable pub correlation_key :
    Packages → Inputs → Value → Option Value → Option Value → Result (List Text)
unfolding is_session_scoped operation_key get string_of
correlation_key p inputs event none id = do
  session ← apply_optional inputs.adapter.session_of event
  operation_key p.to_text session id
correlation_key p inputs event (some inner) id = elim (is_session_scoped inner) [
  | true ↦ do
    session ← apply_optional inputs.adapter.session_of event
    operation_key p.to_text session id
  | false ↦ do
    call ← string_of p.to_text (get Fields.call_id inner)
    name ← string_of p.to_text id
    ok (lit "call_id" ∷ call ∷ name ∷ [])
]

abbrev is_aborted : Option Value → Bool
is_aborted none = false
is_aborted (some inner) = is_text aborted (get Fields.outcome inner)

abbrev pub correlate_as : SealedRecord → Option Value → List Text → Bool → Progress → Progress
correlate_as r inner operation true s = record s { attempted = add operation s.attempted }
correlate_as r inner operation false s =
    report (issue_if (not (has operation s.attempted || is_aborted inner)) r orphaned_outcome) s

-- A record that names no call is not correlated.
abbrev pub correlate_named :
    Packages
    → Inputs
    → SealedRecord
    → Option Value
    → Option Value
    → Bool
    → Progress
    → Result Progress
correlate_named p inputs r inner id false s = ok s
correlate_named p inputs r inner id true s = do
  operation ← correlation_key p inputs r.event inner id
  attempt ← inputs.adapter.is_attempt r.event
  ok (correlate_as r inner operation attempt s)

-- Attempt and outcome correlation; an aborted outcome with no attempt is a refusal.
unfoldable pub correlate :
    Packages → Inputs → SealedRecord → Option Value → Progress → Result Progress
unfolding correlation_key has add aborted get
correlate p inputs r inner s = do
  id ← inputs.adapter.id_of r.event
  correlate_named p inputs r inner id (is_present id) s

-- The members that number an event: its key, its session and its `signer_seq`.
unfoldable pub number_key : Packages → Option Value → Option (List Text)
unfolding is_session_scoped get
number_key p none = none
number_key p (some inner) = elim (is_session_scoped inner) [
  | false ↦ none
  | true ↦ elim (as_text (get Fields.key_id inner)) [
    | none ↦ none
    | some key ↦ elim (as_text (get Fields.session_id inner)) [
      | none ↦ none
      | some session ↦ elim (as_number (get Fields.signer_seq inner)) [
        | none ↦ none
        | some n ↦ some (key ∷ session ∷ p.to_text.json_number n ∷ [])
      ]
    ]
  ]
]

abbrev number_at : Option (List Text) → SealedRecord → Progress → Progress
number_at none r s = s
number_at (some key) r s = elim (lookup key s.numbered) [
  | none ↦ record s { numbered = insert key r.seq s.numbered }
  | some first ↦ report (issue r replay_detected) s
]

-- Two sealed records with one `signer_seq` for one key and session.
unfoldable pub check_number : Packages → SealedRecord → Option Value → Progress → Progress
unfolding number_key lookup insert
check_number p r inner s = number_at (number_key p inner) r s

-- The Level-2 signature of the inner event.
unfoldable pub check_level2 : Inputs → SealedRecord → Option Value → Progress → Result Progress
unfolding get
check_level2 inputs r none s = ok s
check_level2 inputs r (some inner) s =
    if is_some (get Fields.signature inner)
    then elim inputs.signature_checker [
      | none ↦ ok (record s { l2_unchecked = true })
      | some checker ↦ do
        passes ← checker inner
        ok (report (issue_if (not passes) r signature_invalid) s)
    ]
    else ok s

-- A record that has no canonical form: a finding, and the next record links to its stored hash.
unfoldable pub step_malformed : Packages → Inputs → SealedRecord → Progress → Result Progress
unfolding check_principal check_countersignature
step_malformed p inputs r s = do
  found ← check_principal inputs r
  s' ← check_countersignature p inputs r false (report (issue r schema_invalid ++ found) s)
  ok (record s' { prev = r.record_hash })

abbrev pub link_issues : SealedRecord → Text → Text → List Issue
link_issues r prev recomputed =
    issue_if (not (same_text r.previous_hash prev)) r record_hash_mismatch
    ++ issue_if (not (same_text r.record_hash recomputed)) r record_hash_mismatch

unfoldable pub step_hashed : Packages → Inputs → SealedRecord → Text → Progress → Result Progress
unfolding correlate check_number check_principal check_level2 check_countersignature
step_hashed p inputs r recomputed s = do
  event ← inputs.adapter.event_of r.event
  s1 ← correlate p inputs r (inner_object event) (report (link_issues r s.prev recomputed) s)
  found ← check_principal inputs r
  s2 ←
      check_level2 inputs r (inner_object event)
        (report found (check_number p r (inner_object event) s1))
  s3 ← check_countersignature p inputs r true s2
  ok (record s3 { prev = recomputed })

-- The `try` and its `catch`: only a `CanonicalizationError` is caught.
unfoldable pub after_hash :
    Packages → Inputs → SealedRecord → Progress → Result Text → Result Progress
unfolding step_malformed step_hashed
after_hash p inputs r s (ok recomputed) = step_hashed p inputs r recomputed s
after_hash p inputs r s (err not_canonical) = step_malformed p inputs r s
after_hash p inputs r s (err other) = err other

-- One round of the loop, for the record at `index`.
unfoldable pub step : Packages → Inputs → ℕ → SealedRecord → Progress → Result Progress
unfolding after_hash compute_record_hash
step p inputs index r s =
    after_hash p inputs r (report (issue_if (not (r.seq == index)) r seq_gap) s)
      (compute_record_hash p r.event r.seq r.host_ts s.prev)
