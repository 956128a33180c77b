-- ===== src/Mcp/Responses.antt =====
-- src/mcp/seam.ts and src/transport.ts: a host's answers on the wire, and how a tool reads those that
-- a retry brings.
pub mod Sent
pub mod Answered
use auditable_mcp_sdk_ts.Base.{
  ℕ, Bool, true, false, ◌&&◌, Option, none, some, List, [], ◌∷◌, Text, lit, same_text,
  if◌then◌else◌, add, text_eq,
}
use auditable_mcp_sdk_ts.Json.Objects.{assign}
use auditable_mcp_sdk_ts.Json.{
  Value, num, str, obj, Members, end, member, integer, pos, get, as_text, find_member,
}
use auditable_mcp_sdk_ts.Fields
use auditable_mcp_sdk_ts.Reasons.{
  Code, schema_invalid, replay_detected, signature_invalid, l2_unsigned, unknown_key, text_of,
}
use auditable_mcp_sdk_ts.Transport.{
  Countersignature, Acceptance, Response, accepted, rejected, unavailable, whole_triple,
}
use auditable_mcp_sdk_ts.Models.Responses.{
  accept_status, reject_status, unavailable_status, accept_response_schema, reject_response_schema,
  attempt_response_schema, audit_request_meta_schema, responses_name,
}

abbrev triple_members : Option Countersignature → Members
triple_members none = end
triple_members (some c) =
    member Fields.host_signature (str c.host_signature)
      (member Fields.host_key_id (str c.host_key_id) (member Fields.log_id (str c.log_id) end))

-- The objects that `accept`, `reject` and `unavailable` return.
unfoldable pub response_value : Response → Value
unfolding text_of
response_value (accepted a) = obj (
    member Fields.status (str accept_status) (
      member Fields.seq (num (integer (pos a.seq))) (
        member Fields.record_hash (str a.record_hash) (
          member Fields.host_ts (str a.host_ts) (
            member Fields.previous_hash (str a.previous_hash)
              (triple_members a.countersignature))))))
response_value (rejected c) =
    obj (member Fields.status (str reject_status) (member Fields.reason (str (text_of c)) end))
response_value unavailable = obj (
    member Fields.status (str unavailable_status)
      (member Fields.reason (str (lit "internal-error")) end))

abbrev text_in : Text → Value → Text
text_in k v = text_or_empty (as_text (get k v))
  where
    text_or_empty : Option Text → Text
    text_or_empty none = []
    text_or_empty (some t) = t

abbrev seq_of : Option Value → ℕ
seq_of (some (num (integer (pos n)))) = n
seq_of _ = 0

-- The reject reason that a text of the schema is.
abbrev reject_reason_of : Text → Code
reject_reason_of t =
    if same_text t (lit "schema-invalid")
    then schema_invalid
    else if same_text t (lit "replay-detected")
    then replay_detected
    else if same_text t (lit "signature-invalid")
    then signature_invalid
    else if same_text t (lit "l2-unsigned")
    then l2_unsigned
    else unknown_key

abbrev acceptance_of : Value → Acceptance
acceptance_of v = record {
  seq = seq_of (get Fields.seq v);
  record_hash = text_in Fields.record_hash v;
  host_ts = text_in Fields.host_ts v;
  previous_hash = text_in Fields.previous_hash v;
  countersignature =
      whole_triple (as_text (get Fields.host_signature v)) (as_text (get Fields.host_key_id v))
        (as_text (get Fields.log_id v));
}

-- `parsed.data`, for a value that `attemptResponseSchema` admits.
abbrev response_of : Value → Response
response_of v =
    if accept_response_schema v
    then accepted (acceptance_of v)
    else if reject_response_schema v
    then rejected (reject_reason_of (text_in Fields.reason v))
    else unavailable

-- `readResponse`
unfoldable pub read_response : Value → Response
unfolding whole_triple
read_response v = if attempt_response_schema v then response_of v else unavailable

-- `responses[id] = …`, for one attempt of the round after the other
unfoldable pub assign_responses : List (Text × Response) → Members → Members
unfolding response_value assign
assign_responses [] responses = responses
assign_responses ((id, r) ∷ rs) responses =
    assign_responses rs (assign id (response_value r) responses)

-- `{ session_id, responses }`
unfoldable pub request_meta : Text → List (Text × Response) → Value
unfolding assign_responses
request_meta session rs = obj (
    member Fields.session_id (str session)
      (member responses_name (obj (assign_responses rs end)) end))

abbrev members_or_none : Option Value → Members
members_or_none (some (obj ms)) = ms
members_or_none _ = end

-- `parsed.data.session_id === call.session?.sessionId`
abbrev names_session : Option Text → Option Text → Bool
names_session (some session) (some s) = same_text s session
names_session _ _ = false

-- The responses of a retry that `#acceptRetry` uses: none where its member does not fit the schema, or
-- names another session than that of the call.
unfoldable pub retry_responses : Option Text → Option Value → Members
unfolding audit_request_meta_schema get
retry_responses session none = end
retry_responses session (some meta) =
    if audit_request_meta_schema meta
      && names_session session (as_text (get Fields.session_id meta))
    then members_or_none (get responses_name meta)
    else end

-- What an attempt of the round is then settled with.
abbrev response_or_unavailable : Option Value → Response
response_or_unavailable none = unavailable
response_or_unavailable (some v) = read_response v

-- `Once.settle`: what is settled, and whether it was settled by this; `none` is not settled yet.
abbrev pub settle_pending : Response → Option Response → Option Response × Bool
settle_pending r none = (some r, true)
settle_pending r (some earlier) = (some earlier, false)

abbrev pub is_accepted : Response → Bool
is_accepted (accepted a) = true
is_accepted _ = false

-- The loop over `round.awaiting`, with `call.accepted`.
unfoldable pub settle_awaiting :
    Members → List (Text × Option Response) → List Text → List (Text × Option Response) × List Text
unfolding read_response find_member add
settle_awaiting responses [] accepted_ids = ([], accepted_ids)
settle_awaiting responses ((id, pending) ∷ rest) accepted_ids =
    let response = response_or_unavailable (find_member id responses) in
    let (settled, is_first) = settle_pending response pending in
    let (others, ids) =
      settle_awaiting responses rest
        (if is_first && is_accepted response then add id accepted_ids else accepted_ids) in
    ((id, settled) ∷ others, ids)

-- What `#acceptRetry` does with the attempts of the round that a retry closes.
unfoldable pub accept_retry :
    Option Text
    → Option Value
    → List (Text × Option Response)
    → List Text
    → List (Text × Option Response) × List Text
unfolding retry_responses settle_awaiting
accept_retry session meta awaiting accepted_ids =
    settle_awaiting (retry_responses session meta) awaiting accepted_ids
