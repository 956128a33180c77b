-- ===== src/Verify/Inputs.antt =====
-- The inputs and the report of src/verify.ts. The two calling forms of the source, positional and by
-- options, resolve to one `Inputs`; the wording of an issue's detail is not modelled.
use auditable_mcp_sdk_ts.Base.{ℕ, Bool, Option, none, some, List, [], ◌∷◌, Text, not}
use auditable_mcp_sdk_ts.Base.Exec.{Result, ok, err, type_error}
use auditable_mcp_sdk_ts.Base.Exec.Try.{◌>>=◌}
use auditable_mcp_sdk_ts.Json.{Value, null, ToText, get, is_text, string_of, type_of}
use auditable_mcp_sdk_ts.Fields
use auditable_mcp_sdk_ts.Reasons.{Code}
use auditable_mcp_sdk_ts.Models.{attempted}
use auditable_mcp_sdk_ts.Models.Earlier.{is_earlier_version}

-- `VerifyIssue`
pub record Issue : Type 0 where
  pub seq : Option ℕ
  pub kind : Code

-- `unchecked`: the names of the checks that did not run.
pub data Check : Type 0 where
  countersignature level_2_signature : Check

pub record Report : Type 0 where
  pub is_ok : Bool
  pub count : ℕ
  pub computed_digest : Text
  pub issues : List Issue
  pub unchecked : List Check
  pub complete : Bool

pub record ExpectedIdentity : Type 0 where
  pub log_id : Text
  pub host_key_ids : List Text

-- `RecordAdapter`; an accessor may throw.
pub record Adapter : Type 0 where
  pub id_of : Value → Result (Option Value)
  pub is_attempt : Value → Result Bool
  pub session_of : Option (Value → Result (Option Value))
  pub event_of : Value → Result (Option Value)
  pub principal_of : Option (Value → Result (Option Value))

-- `event[k]`, which throws where the event is null
abbrev pub member_of : Text → Value → Result (Option Value)
member_of k null = err type_error
member_of k event = ok (get k event)

abbrev pub reads_attempt : Result (Option Value) → Result Bool
reads_attempt (ok outcome) = ok (is_text attempted outcome)
reads_attempt (err e) = err e

-- `DEFAULT_ADAPTER`
unfoldable pub default_adapter : Adapter
unfolding get attempted
default_adapter = record {
  id_of = member_of Fields.id;
  is_attempt = λ event. reads_attempt (member_of Fields.outcome event);
  session_of = some (member_of Fields.session_id);
  event_of = λ event. ok (some event);
  principal_of = some (λ event. ok none);
}

-- `adapter.f?.(event)`
abbrev pub apply_optional : Option (Value → Result (Option Value)) → Value → Result (Option Value)
apply_optional none event = ok none
apply_optional (some f) event = f event

pub record Inputs : Type 0 where
  pub anchored_digest : Option Text
  pub adapter : Adapter
  pub expected_principal : Option Value
  pub countersignature_checker : Option (Text → Text → List ℕ → Result Bool)
  pub signature_checker : Option (Value → Result Bool)
  pub countersignature_required : Bool
  pub expected_identity : Option ExpectedIdentity

-- `operationKey`: the list that the source turns into a JSON text.
unfoldable pub operation_key : ToText → Option Value → Option Value → Result (List Text)
unfolding string_of type_of
operation_key t session_id id = do
  session ← string_of t session_id
  event ← string_of t id
  ok (type_of session_id ∷ session ∷ type_of id ∷ event ∷ [])

unfoldable pub is_session_scoped : Value → Bool
unfolding get is_earlier_version
is_session_scoped event = not (is_earlier_version (get Fields.spec_version event))
