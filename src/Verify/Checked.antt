-- ===== src/Verify/Checked.antt =====
-- Each check that `verifyChain` makes of a record returns.
use auditable_mcp_sdk_ts.Base.{
  is_some, Option-cases, Bool-cases, ℕ, Bool, true, false, Option, none, some, List, [], ◌∷◌, Text,
  ◌≡◌, refl, inl, inr, not,
}
use auditable_mcp_sdk_ts.Base.Exec.{Result, ok}
use auditable_mcp_sdk_ts.Base.Exec.Try.{◌>>=◌}
use auditable_mcp_sdk_ts.Json.{
  Value, string_of, null, bool, num, bigint, str, arr, obj, is_text, get, is_present,
}
use auditable_mcp_sdk_ts.Fields
use auditable_mcp_sdk_ts.Models.{aborted}
use auditable_mcp_sdk_ts.Canonical.{Packages}
use auditable_mcp_sdk_ts.Hashing.{countersignature_payload}
use auditable_mcp_sdk_ts.Ledger.{SealedRecord}
use auditable_mcp_sdk_ts.Verify.Inputs.{
  Inputs, Issue, operation_key, is_session_scoped, apply_optional,
}
use auditable_mcp_sdk_ts.Verify.Accounting.{
  Groups, is_refusal_reason, is_refusal, group_events, unaccounted_signer_seq, listed,
}
use auditable_mcp_sdk_ts.Verify.Step.{
  Progress, triple_of, check_signature, check_countersignature, correlation_key, correlate,
  correlate_named, check_level2, check_principal, issue_if,
}
use auditable_mcp_sdk_ts.Reasons.{host_signature_invalid}
use auditable_mcp_sdk_ts.Verify.Readable.{
  Returns, Returns-bind, HasText, IsPayable, IsReadable, CheckersReturn,
}

if_aborted :
    {m : Result Bool} (b : Bool) → Returns m → Returns (elim b [ true ↦ m | false ↦ ok false ])
if_aborted true r = r
if_aborted false r = (false, refl)

if_scoped :
    {m n : Result (List Text)} (b : Bool)
    → Returns m
    → Returns n
    → Returns (elim b [ true ↦ m | false ↦ n ])
if_scoped true r r' = r
if_scoped false r r' = r'

module _ (p : Packages) (texts : HasText p.to_text) where
  string_of-Returns : (v : Option Value) → Returns (string_of p.to_text v)
  unfolding string_of
  string_of-Returns none = (_, refl)
  string_of-Returns (some null) = (_, refl)
  string_of-Returns (some (bool b)) = (_, refl)
  string_of-Returns (some (num n)) = (_, refl)
  string_of-Returns (some (bigint n)) = (_, refl)
  string_of-Returns (some (str s)) = (_, refl)
  string_of-Returns (some (arr xs)) = let (s, e) = texts (arr xs) in rw (e, string_of) (s, refl)
  string_of-Returns (some (obj ms)) = let (s, e) = texts (obj ms) in rw (e, string_of) (s, refl)

  operation_key-Returns : (session id : Option Value) → Returns (operation_key p.to_text session id)
  unfolding operation_key
  operation_key-Returns session id =
      Returns-bind (string_of p.to_text session) _ (string_of-Returns session)
        (λ s. Returns-bind (string_of p.to_text id) _ (string_of-Returns id) (λ e. (_, refl)))

  is_refusal-Returns : (event : Value) → Returns (is_refusal p.to_text event)
  unfolding is_refusal
  is_refusal-Returns event = if_aborted (is_text aborted (get Fields.outcome event)) (
      Returns-bind (string_of p.to_text (get Fields.reason event))
        (λ reason. ok (is_refusal_reason reason)) (string_of-Returns (get Fields.reason event))
        (λ reason. (is_refusal_reason reason, refl)))

  group_events-Returns :
      (events : List Value) (sealed : List (List Text)) (groups : Groups)
      → Returns (group_events p.to_text sealed groups events)
  unfolding group_events
  group_events-Returns [] sealed groups = (_, refl)
  group_events-Returns (event ∷ events) sealed groups =
      Returns-bind (operation_key p.to_text (get Fields.session_id event) (get Fields.id event)) _
        (operation_key-Returns (get Fields.session_id event) (get Fields.id event))
        (λ operation.
          Returns-bind (is_refusal p.to_text event) _ (is_refusal-Returns event)
            (λ refused. group_events-Returns events _ _))

  pub unaccounted-Returns :
      (events : List (Option Value)) → Returns (unaccounted_signer_seq p.to_text events)
  unfolding unaccounted_signer_seq
  unaccounted-Returns events =
      Returns-bind (group_events p.to_text [] [] (listed events)) _
        (group_events-Returns (listed events) [] []) (λ groups. (_, refl))

  session_key-Returns :
      (inputs : Inputs) (event : Value) (id : Option Value)
      → IsReadable inputs.adapter event
      → Returns (
          apply_optional inputs.adapter.session_of event >>= λ session.
          operation_key p.to_text session id)
  session_key-Returns inputs event id reads =
      Returns-bind (apply_optional inputs.adapter.session_of event) _ reads.session_returns
        (λ session. operation_key-Returns session id)

  correlation_key-Returns :
      (inputs : Inputs) (event : Value) (inner id : Option Value)
      → IsReadable inputs.adapter event
      → Returns (correlation_key p inputs event inner id)
  unfolding correlation_key
  correlation_key-Returns inputs event none id reads = session_key-Returns inputs event id reads
  correlation_key-Returns inputs event (some inner) id reads =
      if_scoped (is_session_scoped inner) (session_key-Returns inputs event id reads) (
        Returns-bind (string_of p.to_text (get Fields.call_id inner)) _
          (string_of-Returns (get Fields.call_id inner))
          (λ call.
            Returns-bind (string_of p.to_text id) _ (string_of-Returns id) (λ name. (_, refl))))

  correlate_named-Returns :
      (inputs : Inputs) (r : SealedRecord) (inner id : Option Value) (named : Bool) (s : Progress)
      → IsReadable inputs.adapter r.event
      → Returns (correlate_named p inputs r inner id named s)
  correlate_named-Returns inputs r inner id false s reads = (s, refl)
  correlate_named-Returns inputs r inner id true s reads =
      Returns-bind (correlation_key p inputs r.event inner id) _
        (correlation_key-Returns inputs r.event inner id reads)
        (λ operation.
          Returns-bind (inputs.adapter.is_attempt r.event) _ reads.attempt_returns
            (λ attempt. (_, refl)))

  pub correlate-Returns :
      (inputs : Inputs) (r : SealedRecord) (inner : Option Value) (s : Progress)
      → IsReadable inputs.adapter r.event
      → Returns (correlate p inputs r inner s)
  unfolding correlate
  correlate-Returns inputs r inner s reads =
      Returns-bind (inputs.adapter.id_of r.event) _ reads.id_returns
        (λ id. correlate_named-Returns inputs r inner id (is_present id) s reads)

pub check_principal-Returns :
    (inputs : Inputs) (r : SealedRecord)
    → IsReadable inputs.adapter r.event
    → Returns (check_principal inputs r)
unfolding check_principal
check_principal-Returns inputs r reads = elim (Option-cases inputs.expected_principal) [
  | inl e ↦ rw e ([], refl)
  | inr (expected, e) ↦ rw e (
      Returns-bind (apply_optional inputs.adapter.principal_of r.event) _ reads.principal_returns
        (λ principal. (_, refl)))
]

pub check_level2-Returns :
    (inputs : Inputs) (r : SealedRecord) (inner : Option Value) (s : Progress)
    → CheckersReturn inputs
    → Returns (check_level2 inputs r inner s)
unfolding check_level2
check_level2-Returns inputs r none s checkers = (s, refl)
check_level2-Returns inputs r (some e) s checkers =
    elim (Bool-cases (is_some (get Fields.signature e))) [
      | inl signed ↦ elim (Option-cases inputs.signature_checker) [
        | inl no_checker ↦ rw (signed, no_checker) (_, refl)
        | inr (c, given) ↦
            rw (signed, given)
              (Returns-bind (c e) _ (checkers.signature_returns c e given) (λ passes. (_, refl)))
      ]
      | inr unsigned ↦ rw unsigned (s, refl)
    ]

payload_if :
    (p : Packages) (r : SealedRecord) (key signature log_id : Text)
    (o : Option (Text → Text → List ℕ → Result Bool))
    → ((check : Text → Text → List ℕ → Result Bool) (payload : List ℕ)
        → o ≡ some check
        → Returns (check key signature payload))
    → Returns (countersignature_payload p r.seq r.host_ts log_id r.previous_hash r.record_hash)
    → Returns {A = List Issue × Bool} (elim o [
      | none ↦ ok ([], true)
      | some checker ↦
          countersignature_payload p r.seq r.host_ts log_id r.previous_hash r.record_hash
          >>= λ payload. checker key signature payload >>= λ passes.
              ok (issue_if (not passes) r host_signature_invalid, false)
    ])
payload_if p r key signature log_id none checks pays = (_, refl)
payload_if p r key signature log_id (some checker) checks pays =
    Returns-bind (countersignature_payload p r.seq r.host_ts log_id r.previous_hash r.record_hash) _
      pays
      (λ payload.
        Returns-bind (checker key signature payload) _ (checks checker payload refl)
          (λ passes. (_, refl)))

check_signature-Returns :
    (p : Packages) (inputs : Inputs) (r : SealedRecord) (hashable : Bool) (hs hk lg : Option Text)
    → CheckersReturn inputs
    → ((l : Text)
        → lg ≡ some l
        → Returns (countersignature_payload p r.seq r.host_ts l r.previous_hash r.record_hash))
    → Returns (check_signature p inputs r hashable (triple_of hs hk lg))
unfolding check_signature triple_of
check_signature-Returns p inputs r hashable none none none checks pays = (_, refl)
check_signature-Returns p inputs r hashable none none (some l) checks pays = (_, refl)
check_signature-Returns p inputs r hashable none (some k) none checks pays = (_, refl)
check_signature-Returns p inputs r hashable none (some k) (some l) checks pays = (_, refl)
check_signature-Returns p inputs r hashable (some s) none none checks pays = (_, refl)
check_signature-Returns p inputs r hashable (some s) none (some l) checks pays = (_, refl)
check_signature-Returns p inputs r hashable (some s) (some k) none checks pays = (_, refl)
check_signature-Returns p inputs r false (some s) (some k) (some l) checks pays = (_, refl)
check_signature-Returns p inputs r true (some s) (some k) (some l) checks pays =
    payload_if p r k s l inputs.countersignature_checker
      (λ c payload given. checks.countersignature_returns c k s payload given) (pays l refl)

pub check_countersignature-Returns :
    (p : Packages) (inputs : Inputs) (r : SealedRecord) (hashable : Bool) (s : Progress)
    → CheckersReturn inputs
    → IsPayable p r
    → Returns (check_countersignature p inputs r hashable s)
unfolding check_countersignature
check_countersignature-Returns p inputs r hashable s checks pays =
    Returns-bind
      (check_signature p inputs r hashable (triple_of r.host_signature r.host_key_id r.log_id)) _
      (check_signature-Returns p inputs r hashable r.host_signature r.host_key_id r.log_id checks
        pays)
      (λ found. (_, refl))
