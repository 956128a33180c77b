-- ===== src/Host/Checks.antt =====
-- The checks before a seal write nothing but anomalies and the highest `signer_seq` received: what
-- those two writes keep, the checks keep.
use auditable_mcp_sdk_ts.Base.{ℕ, Bool, true, false, Option, none, some, Text}
use auditable_mcp_sdk_ts.Base.Exec.Run.{gets}
use auditable_mcp_sdk_ts.Base.Exec.Keeps.{Keeps, keeps_rules, Keeps-bind, Keeps-gets}
use auditable_mcp_sdk_ts.Json.{Value}
use auditable_mcp_sdk_ts.Reasons.{Code}
use auditable_mcp_sdk_ts.Models.{Level}
use auditable_mcp_sdk_ts.Host.State.{Host, World, Verdict, verified, unverified, verifier_threw}
use auditable_mcp_sdk_ts.Host.Seal.{flag, change_session}
use auditable_mcp_sdk_ts.Host.Admit.{
  admit, session_of, admit_session, verify_signature, verify_at, verify_level2, after_verify,
  note_received, check_replay, receive_in,
}

module _ (P : Host → Type 0) (flags : (id : Text) (k : Code) → Keeps P (flag id k))
    (receives : (session key : Text) (n : ℕ)
      → Keeps P (change_session session (receive_in key n))) where
  admit_session-Keeps : (event : Value) (o : Option Text) → Keeps P (admit_session event o)
  admit_session-Keeps event none = search (keeps_rules, flags)
  admit_session-Keeps event (some s) = search keeps_rules

  pub admit-Keeps :
      (event : Value) (expected : Option Text) (attempt : Bool)
      → Keeps P (admit event expected attempt)
  unfolding admit session_of
  admit-Keeps event expected attempt = search (keeps_rules, flags, admit_session-Keeps)

  note_received-Keeps :
      (event : Value) (session key : Text) (n : ℕ) → Keeps P (note_received event session key n)
  unfolding note_received
  note_received-Keeps event session key n = search (keeps_rules, flags, receives) depth 8

  after_verify-Keeps :
      (event : Value) (session : Text) (signed : Text × ℕ) (v : Verdict)
      → Keeps P (after_verify event session signed v)
  unfolding after_verify
  after_verify-Keeps event session signed verified =
      note_received-Keeps event session signed.0 signed.1
  after_verify-Keeps event session signed (unverified reason) = search (keeps_rules, flags)
  after_verify-Keeps event session signed verifier_threw = search keeps_rules

  verify_level2-Keeps :
      (w : World) (event : Value) (session : Text) (b : Bool) (o : Option (Text × ℕ))
      → Keeps P (verify_level2 w event session b o)
  unfolding verify_level2
  verify_level2-Keeps w event session false o = search (keeps_rules, flags)
  verify_level2-Keeps w event session true none = search (keeps_rules, flags)
  verify_level2-Keeps w event session true (some signed) =
      after_verify-Keeps event session signed (w.verify event)

  verify_at-Keeps :
      (w : World) (event : Value) (session : Text) (l : Level)
      → Keeps P (verify_at w event session l)
  verify_at-Keeps w event session Level.l1 = search keeps_rules
  verify_at-Keeps w event session Level.l2 = verify_level2-Keeps w event session _ _

  pub verify_signature-Keeps :
      (w : World) (event : Value) (session : Text) → Keeps P (verify_signature w event session)
  unfolding verify_signature
  verify_signature-Keeps w event session =
      Keeps-bind (gets (λ h. h.config.capability.level)) (verify_at w event session)
        (Keeps-gets (λ h. h.config.capability.level)) (verify_at-Keeps w event session)

  pub check_replay-Keeps : (event : Value) (session : Text) → Keeps P (check_replay event session)
  unfolding check_replay
  check_replay-Keeps event session = search (keeps_rules, flags) depth 8
