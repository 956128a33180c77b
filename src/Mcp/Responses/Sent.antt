-- ===== src/Mcp/Responses/Sent.antt =====
-- The answers that a host may send: the schemas of src/models.ts admit them, and a tool reads each as
-- itself.
use auditable_mcp_sdk_ts.Base.{
  text_eq, ℕ, true, ◌≡◌, refl, leb, Option, none, some, List, [], ◌∷◌, Text, same_text, list_beq,
}
use auditable_mcp_sdk_ts.Base.Regex.{matches}
use auditable_mcp_sdk_ts.Json.{str, get, find_member}
use auditable_mcp_sdk_ts.Canonical.{max_safe_integer}
use auditable_mcp_sdk_ts.Reasons.{
  Code, schema_invalid, replay_detected, signature_invalid, l2_unsigned, unknown_key, text_of,
}
use auditable_mcp_sdk_ts.Transport.{
  Countersignature, Acceptance, Response, accepted, rejected, unavailable, whole_triple,
}
use auditable_mcp_sdk_ts.Models.Patterns.{
  uuid_regex, datetime_regex, chain_hash_regex, signature_regex,
}
use auditable_mcp_sdk_ts.Models.Schema.{
  strict_object, all_known, known_name, fields_hold, non_empty_text, text_among, text_matching,
  safe_natural,
}
use auditable_mcp_sdk_ts.Models.Responses.{
  accept_response_object, accept_response_schema, reject_reason_schema, reject_response_schema,
  unavailable_response_schema, attempt_response_schema,
}
use auditable_mcp_sdk_ts.Mcp.Responses.{response_value, read_response}

-- `RejectReason`
pub data IsRejectReason : Code → Type 0 where
  schema_invalid_ok : IsRejectReason schema_invalid
  replay_detected_ok : IsRejectReason replay_detected
  signature_invalid_ok : IsRejectReason signature_invalid
  l2_unsigned_ok : IsRejectReason l2_unsigned
  unknown_key_ok : IsRejectReason unknown_key

pub data IsTriple : Option Countersignature → Type 0 where
  no_triple : IsTriple none
  is_triple :
      {c : Countersignature}
      → matches signature_regex c.host_signature ≡ true
      → non_empty_text (str c.host_key_id) ≡ true
      → non_empty_text (str c.log_id) ≡ true
      → IsTriple (some c)

-- What an accept holds that the wire contract allows.
pub record IsAcceptance (a : Acceptance) : Type 0 where
  pub safe : leb a.seq max_safe_integer ≡ true
  pub hashed : matches chain_hash_regex a.record_hash ≡ true
  pub timed : matches datetime_regex a.host_ts ≡ true
  pub linked : matches chain_hash_regex a.previous_hash ≡ true
  pub signed : IsTriple a.countersignature

pub data IsSent : Response → Type 0 where
  sent_accept : {a : Acceptance} → IsAcceptance a → IsSent (accepted a)
  sent_reject : {c : Code} → IsRejectReason c → IsSent (rejected c)
  sent_unavailable : IsSent unavailable

-- The schema admits an answer, and it is read as itself.
abbrev pub ReadsBack : Response → Type 0
ReadsBack r =
    (attempt_response_schema (response_value r) ≡ true) × (read_response (response_value r) ≡ r)

module _ (n : ℕ) (h t p : Text) where
  abbrev with_triple : Option Countersignature → Acceptance
  with_triple c = record {
    seq = n;
    record_hash = h;
    host_ts = t;
    previous_hash = p;
    countersignature = c;
  }

  reads_accept :
      (c : Option Countersignature)
      → IsAcceptance (with_triple c)
      → ReadsBack (accepted (with_triple c))
  unfolding accept_response_schema accept_response_object strict_object all_known known_name
      fields_hold text_among text_matching safe_natural find_member get same_text list_beq
      response_value attempt_response_schema read_response whole_triple
  reads_accept none i = rw (i.safe, i.hashed, i.timed, i.linked) (refl, refl)
  reads_accept (some c) i = reads_triple i.signed
    where
      reads_triple : IsTriple (some c) → ReadsBack (accepted (with_triple (some c)))
      reads_triple (is_triple s k l) =
          rw (i.safe, i.hashed, i.timed, i.linked, s, k, l) (refl, refl)

reads_reject : (c : Code) → IsRejectReason c → ReadsBack (rejected c)
unfolding accept_response_schema accept_response_object reject_response_schema reject_reason_schema
    strict_object all_known known_name fields_hold text_among text_matching safe_natural find_member
    get same_text list_beq response_value attempt_response_schema read_response text_of
reads_reject c schema_invalid_ok = (refl, refl)
reads_reject c replay_detected_ok = (refl, refl)
reads_reject c signature_invalid_ok = (refl, refl)
reads_reject c l2_unsigned_ok = (refl, refl)
reads_reject c unknown_key_ok = (refl, refl)

reads_unavailable : ReadsBack unavailable
unfolding accept_response_schema accept_response_object reject_response_schema
    unavailable_response_schema strict_object all_known known_name fields_hold text_among
    text_matching safe_natural find_member get same_text list_beq response_value
    attempt_response_schema read_response
reads_unavailable = (refl, refl)

pub reads_back : (r : Response) → IsSent r → ReadsBack r
reads_back (accepted a) (sent_accept i) =
    reads_accept a.seq a.record_hash a.host_ts a.previous_hash a.countersignature i
reads_back (rejected c) (sent_reject i) = reads_reject c i
reads_back unavailable sent_unavailable = reads_unavailable

pub data AllSent : List (Text × Response) → Type 0 where
  none_sent : AllSent []
  also_sent :
      {id : Text} {r : Response} {rs : List (Text × Response)}
      → matches uuid_regex id ≡ true
      → IsSent r
      → AllSent rs
      → AllSent ((id, r) ∷ rs)
