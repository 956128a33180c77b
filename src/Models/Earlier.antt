-- ===== src/Models/Earlier.antt =====
-- The published versions before the current one, and the shape in which each sealed its events
-- (src/models.ts).
use auditable_mcp_sdk_ts.Base.{
  Bool, false, ◌&&◌, ◌||◌, Option, none, some, List, [], ◌∷◌, ◌++◌, Text, lit, same_text,
  if◌then◌else◌,
}
use auditable_mcp_sdk_ts.Json.{Value, get, as_text}
use auditable_mcp_sdk_ts.Fields
use auditable_mcp_sdk_ts.Models.{
  needed, allowed, target_resource_schema, outcome_schema, audit_event_fields, version_schema,
  aborted_has_reason, level2_together, Complaint, first_error, or_else, surrogate_error,
  first_validation_error, current_version,
}
use auditable_mcp_sdk_ts.Models.Patterns.{
  session_id_regex, earlier_uuid_regex, earlier_datetime_regex, context_hash_regex,
  earlier_signature_regex,
}
use auditable_mcp_sdk_ts.Models.Schema.{
  Field, any_text, non_empty_text, text_matching, text_among, any_bool, safe_natural, any_object,
  strict_object,
}

abbrev version_0_1 : Text
version_0_1 = lit "auditable-mcp/0.1"

abbrev version_0_1_1 : Text
version_0_1_1 = lit "auditable-mcp/0.1.1"

abbrev version_0_2 : Text
version_0_2 = lit "auditable-mcp/0.2"

abbrev version_0_3 : Text
version_0_3 = lit "auditable-mcp/0.3"

-- `EARLIER_SPEC_VERSIONS`: all known versions but the last.
unfoldable pub earlier_versions : List Text
earlier_versions = version_0_1 ∷ version_0_1_1 ∷ version_0_2 ∷ version_0_3 ∷ []

-- `KNOWN_SPEC_VERSIONS`
unfoldable pub known_versions : List Text
unfolding earlier_versions current_version
known_versions = earlier_versions ++ current_version ∷ []

unfoldable pub includes : List Text → Text → Bool
includes [] s = false
includes (t ∷ ts) s = same_text t s || includes ts s

-- `isEarlierSpecVersion`
unfoldable pub is_earlier_version : Option Value → Bool
unfolding includes earlier_versions
is_earlier_version version = elim (as_text version) [
  | none ↦ false
  | some v ↦ includes earlier_versions v
]

unfoldable pub earlier_shared_fields : List Field
unfolding earlier_uuid_regex earlier_datetime_regex context_hash_regex any_text non_empty_text
    text_matching any_bool any_object target_resource_schema outcome_schema
earlier_shared_fields =
    needed Fields.id (text_matching earlier_uuid_regex)
    ∷ needed Fields.ts (text_matching earlier_datetime_regex)
    ∷ needed Fields.call_id non_empty_text
    ∷ allowed Fields.traceparent any_text
    ∷ needed Fields.action_type non_empty_text
    ∷ needed Fields.mutates any_bool
    ∷ needed Fields.egress any_bool
    ∷ needed Fields.target_resource target_resource_schema
    ∷ needed Fields.outcome outcome_schema
    ∷ allowed Fields.action_context any_object
    ∷ allowed Fields.action_context_hash (text_matching context_hash_regex)
    ∷ []

unfoldable pub version01_event_schema : Value → Bool
unfolding strict_object earlier_shared_fields version_schema any_text safe_natural
version01_event_schema = strict_object (
    earlier_shared_fields
    ++ needed Fields.spec_version (version_schema version_0_1)
      ∷ allowed Fields.reason any_text
      ∷ allowed Fields.sequence safe_natural
      ∷ allowed Fields.key_id any_text
      ∷ allowed Fields.signature any_text
      ∷ [])

unfoldable pub version011_or_02_event_schema : Text → Value → Bool
unfolding strict_object earlier_shared_fields version_schema text_among safe_natural non_empty_text
    text_matching earlier_signature_regex aborted_has_reason
version011_or_02_event_schema version event =
    strict_object
      (earlier_shared_fields
        ++ needed Fields.spec_version (version_schema version)
          ∷ allowed Fields.reason
              (text_among (lit "hash-mismatch" ∷ lit "host-rejected" ∷ lit "host-unavailable" ∷ []))
          ∷ allowed Fields.signer_seq safe_natural
          ∷ allowed Fields.key_id non_empty_text
          ∷ allowed Fields.signature (text_matching earlier_signature_regex)
          ∷ [])
      event
    && aborted_has_reason event

unfoldable pub version03_event_schema : Value → Bool
unfolding strict_object version_schema session_id_regex earlier_datetime_regex text_matching
    audit_event_fields aborted_has_reason level2_together
version03_event_schema event =
    strict_object
      (needed Fields.spec_version (version_schema version_0_3)
        ∷ needed Fields.session_id (text_matching session_id_regex)
        ∷ needed Fields.ts (text_matching earlier_datetime_regex)
        ∷ audit_event_fields)
      event
    && (aborted_has_reason event && level2_together event)

-- `EARLIER_EVENT_SCHEMAS[version]`
unfoldable pub earlier_event_schema : Text → Option (Value → Bool)
unfolding version01_event_schema version011_or_02_event_schema version03_event_schema
earlier_event_schema version =
    if same_text version version_0_1
    then some version01_event_schema
    else if same_text version version_0_1_1
    then some (version011_or_02_event_schema version_0_1_1)
    else if same_text version version_0_2
    then some (version011_or_02_event_schema version_0_2)
    else if same_text version version_0_3
    then some version03_event_schema
    else none

abbrev schema_of : Option Text → Option (Value → Bool)
schema_of none = none
schema_of (some version) = earlier_event_schema version

-- `firstSealedValidationError`; `event` is what an adapter extracted, `undefined` included.
unfoldable pub first_sealed_validation_error : Option Value → Option Complaint
unfolding get earlier_event_schema first_error surrogate_error first_validation_error
first_sealed_validation_error none = some Complaint.shape
first_sealed_validation_error (some event) =
    elim (schema_of (as_text (get Fields.spec_version event))) [
      | none ↦ first_validation_error event
      | some schema ↦ or_else (first_error schema event) (surrogate_error event)
    ]
