-- ===== src/Fields.antt =====
-- src/fields.ts: the wire names of the members that the modelled code reads.
use auditable_mcp_sdk_ts.Base.{Text, lit}

abbrev pub id : Text
id = lit "id"

abbrev pub spec_version : Text
spec_version = lit "spec_version"

abbrev pub ts : Text
ts = lit "ts"

abbrev pub session_id : Text
session_id = lit "session_id"

abbrev pub traceparent : Text
traceparent = lit "traceparent"

abbrev pub action_type : Text
action_type = lit "action_type"

abbrev pub mutates : Text
mutates = lit "mutates"

abbrev pub egress : Text
egress = lit "egress"

abbrev pub target_resource : Text
target_resource = lit "target_resource"

abbrev pub outcome : Text
outcome = lit "outcome"

abbrev pub reason : Text
reason = lit "reason"

abbrev pub action_context : Text
action_context = lit "action_context"

abbrev pub action_context_hash : Text
action_context_hash = lit "action_context_hash"

abbrev pub action_context_salted_hash : Text
action_context_salted_hash = lit "action_context_salted_hash"

abbrev pub signer_seq : Text
signer_seq = lit "signer_seq"

abbrev pub key_id : Text
key_id = lit "key_id"

abbrev pub signature : Text
signature = lit "signature"

abbrev pub sequence : Text
sequence = lit "sequence"

abbrev pub call_id : Text
call_id = lit "call_id"

abbrev pub kind : Text
kind = lit "kind"

abbrev pub ref : Text
ref = lit "ref"

abbrev pub scope_hint : Text
scope_hint = lit "scope_hint"

abbrev pub status : Text
status = lit "status"

abbrev pub seq : Text
seq = lit "seq"

abbrev pub record_hash : Text
record_hash = lit "record_hash"

abbrev pub host_ts : Text
host_ts = lit "host_ts"

abbrev pub previous_hash : Text
previous_hash = lit "previous_hash"

abbrev pub host_signature : Text
host_signature = lit "host_signature"

abbrev pub host_key_id : Text
host_key_id = lit "host_key_id"

abbrev pub log_id : Text
log_id = lit "log_id"

abbrev pub level : Text
level = lit "level"

abbrev pub attempt : Text
attempt = lit "attempt"

abbrev pub countersign : Text
countersign = lit "countersign"

-- The member of the record-hash preimage that holds the event (src/hashing.ts).
abbrev pub event : Text
event = lit "event"
