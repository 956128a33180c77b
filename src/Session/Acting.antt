-- ===== src/Session/Acting.antt =====
-- `AmcpSession.action` of src/session.ts: the attempt, the host's answer, and what is checked before
-- the caller may act.
use auditable_mcp_sdk_ts.Base.{
  ℕ, Bool, true, false, ◌&&◌, not, Option, none, some, Text, same_text, is_some, [],
}
use auditable_mcp_sdk_ts.Base.Exec.{Result, ok, err, Error, Exec, usage, aborted}
use auditable_mcp_sdk_ts.Base.Exec.Run.{pure, raise, lift, ◌>>=◌, ◌>>◌}
use auditable_mcp_sdk_ts.Json.{Value, get, as_text}
use auditable_mcp_sdk_ts.Fields
use auditable_mcp_sdk_ts.Reasons.{
  Code, text_of, host_unavailable, host_rejected, host_uncountersigned, host_signature_invalid,
  hash_mismatch,
}
use auditable_mcp_sdk_ts.Canonical.{Packages}
use auditable_mcp_sdk_ts.Hashing.{compute_record_hash, countersignature_payload}
use auditable_mcp_sdk_ts.Models.{attempted, target_resource_schema}
use auditable_mcp_sdk_ts.Transport.{
  Response, accepted, rejected, unavailable, Acceptance, Countersignature,
}
use auditable_mcp_sdk_ts.Crypto.SaltedHash.{JsonText}
use auditable_mcp_sdk_ts.Session.{
  Session, Call, Check, Verification, valid, invalid, unchecked, calls, numbering,
}
use auditable_mcp_sdk_ts.Session.Emission.{
  ActionOptions, Action, new_action, parse, build, emit_aborted,
}

-- What came of sending the attempt: the host's answer, or a fault of the transport.
pub data Answer : Type 0 where
  answered : Response → Answer
  faulted : Error → Answer

-- A use of the package against its contract is no fault of the transport.
abbrev pub answer_of : Result Response → Result Answer
answer_of (ok r) = ok (answered r)
answer_of (err usage) = err usage
answer_of (err e) = ok (faulted e)

abbrev pub caught : {S : Type 0} → Exec S Response → Exec S Answer
caught m c = let (r, c') = m c in (answer_of r, c')

-- The body of the section that numbers and emits the attempt.
unfoldable pub send_attempt :
    {T : Type 0} → Session T → Action → Option ℕ → Exec (Call T) (Value × Answer)
send_attempt s a signer_seq = do
  numbered ← build s a attempted signer_seq none
  answer ← caught (calls (s.outside.send_attempt numbered))
  pure (numbered, answer)

-- `target.ref`, which the schema requires
abbrev ref_of : Option Text → Text
ref_of none = []
ref_of (some ref) = ref

abbrev pub abort_error : Action → Code → Error
abort_error a reason =
    aborted a.action_type (ref_of (as_text (get Fields.ref a.target))) (text_of reason)

-- An abort: the `aborted` outcome, then the error. The `cause` that a fault leaves on the error is not
-- modelled.
unfoldable pub abort : {T A : Type 0} → Session T → Action → Code → Exec (Call T) A
abort s a reason = do emit_aborted s a reason; raise (abort_error a reason)

abbrev pub abort_if : {T : Type 0} → Session T → Action → Bool → Code → Exec (Call T) Unit
abort_if s a true reason = abort s a reason
abort_if s a false reason = pure tt

abbrev pub on_verdict : {T : Type 0} → Session T → Action → Verification → Exec (Call T) Unit
on_verdict s a valid = pure tt
on_verdict s a invalid = abort s a host_signature_invalid
on_verdict s a unchecked = abort s a host_unavailable

-- A countersignature is checked where the answer has one and the session a verifier.
unfoldable pub check_countersignature :
    {T : Type 0}
    → Packages
    → Session T
    → Action
    → Acceptance
    → Option Countersignature
    → Option (Check T)
    → Exec (Call T) Unit
check_countersignature p s a r (some c) (some check) = do
  payload ← lift (countersignature_payload p r.seq r.host_ts c.log_id r.previous_hash r.record_hash)
  verdict ← calls (check c.host_key_id c.host_signature payload)
  on_verdict s a verdict
check_countersignature p s a r _ _ = pure tt

-- Polluted Stop: the record hash over the attempt as it was sent.
unfoldable pub check_record_hash :
    {T : Type 0} → Packages → Session T → Action → Value → Acceptance → Bool → Exec (Call T) Unit
check_record_hash p s a attempt r false = pure tt
check_record_hash p s a attempt r true = do
  expected ← lift (compute_record_hash p attempt r.seq r.host_ts r.previous_hash)
  abort_if s a (not (same_text expected r.record_hash)) hash_mismatch

-- `_markAccepted`
abbrev pub mark_accepted : Acceptance → Action → Action
mark_accepted r a = record a { accept = some r }

unfoldable pub on_accept :
    {T : Type 0} → Packages → Session T → Action → Value → Acceptance → Exec (Call T) Action
on_accept p s a attempt r = do
  abort_if s a (s.require_countersign && not (is_some r.countersignature)) host_uncountersigned
  check_countersignature p s a r r.countersignature s.countersignature_verifier
  check_record_hash p s a attempt r s.polluted_stop
  pure (mark_accepted r a)

unfoldable pub on_answer :
    {T : Type 0} → Packages → Session T → Action → Value → Answer → Exec (Call T) Action
on_answer p s a attempt (faulted e) = abort s a host_unavailable
on_answer p s a attempt (answered (rejected code)) = abort s a host_rejected
on_answer p s a attempt (answered unavailable) = abort s a host_unavailable
on_answer p s a attempt (answered (accepted r)) = on_accept p s a attempt r

-- What `action` does with the operation that it made.
unfoldable pub acquire : {T : Type 0} → Packages → Session T → Action → Exec (Call T) Action
acquire p s a = do sent ← numbering s (send_attempt s a); on_answer p s a sent.0 sent.1

-- `action`
unfoldable pub action :
    {T : Type 0}
    → Packages
    → JsonText
    → Session T
    → Text
    → Value
    → ActionOptions
    → Exec (Call T) Action
action p j s action_type target_resource o = do
  target ← lift (parse target_resource_schema target_resource)
  id ← calls s.outside.new_id
  a ← new_action p j s id action_type target o
  acquire p s a
