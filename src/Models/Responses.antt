-- ===== src/Models/Responses.antt =====
-- src/models.ts: the schemas of the host's answers, and of the audit members of a request and a result.
use auditable_mcp_sdk_ts.Base.{
  Bool, true, false, ◌&&◌, ◌||◌, Option, none, some, [], ◌∷◌, Text, lit,
}
use auditable_mcp_sdk_ts.Base.Regex.{matches}
use auditable_mcp_sdk_ts.Json.{Value, arr, obj, Items, nil, cons, Members, end, member, get}
use auditable_mcp_sdk_ts.Fields
use auditable_mcp_sdk_ts.Models.{needed, allowed}
use auditable_mcp_sdk_ts.Models.Patterns.{
  session_id_regex, uuid_regex, datetime_regex, chain_hash_regex, signature_regex,
}
use auditable_mcp_sdk_ts.Models.Schema.{
  non_empty_text, text_matching, text_among, safe_natural, any_object, strict_object,
}

-- `Status`
abbrev pub accept_status : Text
accept_status = lit "accept"

abbrev pub reject_status : Text
reject_status = lit "reject"

abbrev pub unavailable_status : Text
unavailable_status = lit "unavailable"

-- `rejectReasonSchema`
unfoldable pub reject_reason_schema : Value → Bool
reject_reason_schema = text_among (
    lit "schema-invalid"
    ∷ lit "replay-detected"
    ∷ lit "signature-invalid"
    ∷ lit "l2-unsigned"
    ∷ lit "unknown-key"
    ∷ [])

-- The strict object of `acceptResponseSchema`.
unfoldable pub accept_response_object : Value → Bool
accept_response_object = strict_object (
    needed Fields.status (text_among (accept_status ∷ []))
    ∷ needed Fields.seq safe_natural
    ∷ needed Fields.record_hash (text_matching chain_hash_regex)
    ∷ needed Fields.host_ts (text_matching datetime_regex)
    ∷ needed Fields.previous_hash (text_matching chain_hash_regex)
    ∷ allowed Fields.host_signature (text_matching signature_regex)
    ∷ allowed Fields.host_key_id non_empty_text
    ∷ allowed Fields.log_id non_empty_text
    ∷ [])

abbrev same_presence : Option Value → Option Value → Bool
same_presence none none = true
same_presence (some v) (some w) = true
same_presence _ _ = false

-- `acceptResponseSchema`
unfoldable pub accept_response_schema : Value → Bool
unfolding accept_response_object
accept_response_schema response =
    accept_response_object response
    && (same_presence (get Fields.host_signature response) (get Fields.host_key_id response)
        && same_presence (get Fields.host_signature response) (get Fields.log_id response))

-- `rejectResponseSchema`
unfoldable pub reject_response_schema : Value → Bool
unfolding reject_reason_schema
reject_response_schema = strict_object (
    needed Fields.status (text_among (reject_status ∷ []))
    ∷ needed Fields.reason reject_reason_schema
    ∷ [])

-- `unavailableResponseSchema`
unfoldable pub unavailable_response_schema : Value → Bool
unavailable_response_schema = strict_object (
    needed Fields.status (text_among (unavailable_status ∷ []))
    ∷ needed Fields.reason (text_among (lit "internal-error" ∷ []))
    ∷ [])

-- `attemptResponseSchema`: each of the three asks for a status of its own.
unfoldable pub attempt_response_schema : Value → Bool
unfolding accept_response_schema reject_response_schema unavailable_response_schema
attempt_response_schema v =
    accept_response_schema v || (reject_response_schema v || unavailable_response_schema v)

-- The members of `z.record(z.string().regex(uuidRegex), attemptResponseSchema)`.
unfoldable pub responses_hold : Members → Bool
unfolding attempt_response_schema
responses_hold end = true
responses_hold (member id v ms) =
    (matches uuid_regex id && attempt_response_schema v) && responses_hold ms

unfoldable pub responses_schema : Value → Bool
unfolding responses_hold
responses_schema (obj ms) = responses_hold ms
responses_schema _ = false

abbrev pub responses_name : Text
responses_name = lit "responses"

-- `auditRequestMetaSchema`
unfoldable pub audit_request_meta_schema : Value → Bool
unfolding responses_schema
audit_request_meta_schema = strict_object (
    needed Fields.session_id (text_matching session_id_regex)
    ∷ allowed responses_name responses_schema
    ∷ [])

abbrev all_objects : Items → Bool
all_objects nil = true
all_objects (cons v vs) = any_object v && all_objects vs

-- `z.array(z.record(z.string(), z.unknown())).min(1)`
abbrev some_objects : Value → Bool
some_objects (arr (cons v vs)) = all_objects (cons v vs)
some_objects _ = false

-- `auditResultMetaSchema`
unfoldable pub audit_result_meta_schema : Value → Bool
audit_result_meta_schema = strict_object (
    needed Fields.session_id (text_matching session_id_regex)
    ∷ needed (lit "events") some_objects
    ∷ [])
