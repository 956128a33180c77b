-- ===== src/Models.antt =====
-- src/models.ts: the wire contracts, as the tests that the program's schemas make.
pub mod Patterns
pub mod Schema
pub mod Earlier
pub mod Responses
use auditable_mcp_sdk_ts.Base.{
  Bool, true, false, ◌&&◌, ◌||◌, not, Option, none, some, List, [], ◌∷◌, ◌++◌, Text, lit, same_text,
  is_some, if◌then◌else◌,
}
use auditable_mcp_sdk_ts.Json.{Value, str, get, is_text, as_text}
use auditable_mcp_sdk_ts.Fields
use auditable_mcp_sdk_ts.Canonical.{has_lone_surrogate}
use Patterns.{
  session_id_regex, uuid_regex, earlier_uuid_regex, datetime_regex, earlier_datetime_regex,
  context_hash_regex, signature_regex, earlier_signature_regex, salted_hash_regex,
}
use Schema.{
  Field, required, optional, any_text, non_empty_text, text_matching, text_among, any_bool,
  safe_natural, any_object, strict_object,
}

-- `SPEC_VERSION`
unfoldable pub current_version : Text
current_version = lit "auditable-mcp/0.4"

-- `Outcome`
unfoldable pub attempted : Text
attempted = lit "attempted"

unfoldable pub success : Text
success = lit "success"

unfoldable pub failed : Text
failed = lit "failed"

unfoldable pub aborted : Text
aborted = lit "aborted"

pub data Level : Type 0 where
  l1 l2 : Level

pub data Countersign : Type 0 where
  uncountersigned host : Countersign

abbrev pub needed : Text → (Value → Bool) → Field
needed k test = record { name = k; presence = required; test = test }

abbrev pub allowed : Text → (Value → Bool) → Field
allowed k test = record { name = k; presence = optional; test = test }

-- `targetResourceSchema`
unfoldable pub target_resource_schema : Value → Bool
unfolding strict_object any_text non_empty_text
target_resource_schema = strict_object (
    needed Fields.kind non_empty_text
    ∷ needed Fields.ref non_empty_text
    ∷ allowed Fields.scope_hint any_text
    ∷ [])

unfoldable pub outcome_schema : Value → Bool
unfolding text_among attempted success failed aborted
outcome_schema = text_among (attempted ∷ success ∷ failed ∷ aborted ∷ [])

-- `abortReasonSchema`
unfoldable pub abort_reason_schema : Value → Bool
unfolding text_among
abort_reason_schema = text_among (
    lit "hash-mismatch"
    ∷ lit "host-rejected"
    ∷ lit "host-unavailable"
    ∷ lit "host-uncountersigned"
    ∷ lit "host-signature-invalid"
    ∷ [])

-- `auditEventFields`
unfoldable pub audit_event_fields : List Field
unfolding uuid_regex context_hash_regex signature_regex any_text non_empty_text text_matching
    any_bool safe_natural any_object target_resource_schema outcome_schema abort_reason_schema
audit_event_fields =
    needed Fields.id (text_matching uuid_regex)
    ∷ allowed Fields.traceparent any_text
    ∷ needed Fields.action_type non_empty_text
    ∷ needed Fields.mutates any_bool
    ∷ needed Fields.egress any_bool
    ∷ needed Fields.target_resource target_resource_schema
    ∷ needed Fields.outcome outcome_schema
    ∷ allowed Fields.reason abort_reason_schema
    ∷ allowed Fields.action_context any_object
    ∷ allowed Fields.action_context_hash (text_matching context_hash_regex)
    ∷ allowed Fields.signer_seq safe_natural
    ∷ allowed Fields.key_id non_empty_text
    ∷ allowed Fields.signature (text_matching signature_regex)
    ∷ []

-- `level2Together`
unfoldable pub level2_together : Value → Bool
unfolding get
level2_together event =
    let seq = is_some (get Fields.signer_seq event) in
    let key = is_some (get Fields.key_id event) in
    let sig = is_some (get Fields.signature event) in
    (seq && (key && sig)) || not (seq || (key || sig))

-- `event.outcome !== Outcome.ABORTED || event.reason !== undefined`
unfoldable pub aborted_has_reason : Value → Bool
unfolding get aborted
aborted_has_reason event =
    not (is_text aborted (get Fields.outcome event)) || is_some (get Fields.reason event)

unfoldable pub version_schema : Text → Value → Bool
unfolding text_among
version_schema v = text_among (v ∷ [])

-- The strict object of `auditEventSchema`.
unfoldable pub audit_event_object : Value → Bool
unfolding strict_object version_schema current_version session_id_regex datetime_regex text_matching
    audit_event_fields salted_hash_regex
audit_event_object = strict_object (
    needed Fields.spec_version (version_schema current_version)
    ∷ needed Fields.session_id (text_matching session_id_regex)
    ∷ needed Fields.ts (text_matching datetime_regex)
    ∷ (audit_event_fields
        ++ allowed Fields.action_context_salted_hash (text_matching salted_hash_regex) ∷ []))

-- `auditEventSchema`
unfoldable pub audit_event_schema : Value → Bool
unfolding audit_event_object level2_together aborted_has_reason
audit_event_schema event =
    audit_event_object event && (aborted_has_reason event && level2_together event)

-- Which of the structural tests failed first; the message's wording is not modelled.
pub data Complaint : Type 0 where
  shape surrogate : Complaint

-- `firstError(schema, event)`
unfoldable pub first_error : (Value → Bool) → Value → Option Complaint
first_error schema event = if schema event then none else some shape

-- `a ?? b`
abbrev pub or_else : Option Complaint → Option Complaint → Option Complaint
or_else none b = b
or_else (some a) b = some a

unfoldable pub surrogate_error : Value → Option Complaint
surrogate_error event = if has_lone_surrogate event then some surrogate else none

unfoldable pub first_validation_error : Value → Option Complaint
unfolding first_error surrogate_error
first_validation_error event =
    or_else (first_error audit_event_schema event) (surrogate_error event)
