-- ===== src/Host/Sound.antt =====
-- Every attempt and every outcome leaves the chain sound and the host's memory of it true.
use auditable_mcp_sdk_ts.Base.{ℕ, Bool, true, false, Option, none, some, List, Text}
use auditable_mcp_sdk_ts.Base.Exec.{Exec}
use auditable_mcp_sdk_ts.Base.Exec.Keeps.{Keeps, keeps_rules}
use auditable_mcp_sdk_ts.Json.{Value}
use auditable_mcp_sdk_ts.Reasons.{Code}
use auditable_mcp_sdk_ts.Canonical.{Packages}
use auditable_mcp_sdk_ts.Ledger.{SealedRecord}
use auditable_mcp_sdk_ts.Host.State.{Host, Session, World}
use auditable_mcp_sdk_ts.Host.Seal.{flag, change_session}
use auditable_mcp_sdk_ts.Host.Admit.{
  Admitted, admitted, not_admitted, admit, verify_signature, check_replay, decide,
}
use auditable_mcp_sdk_ts.Host.Handlers.{
  remember_rejected, accept_sealed, seal_if, seal_attempt, attempt_unless_replayed, attempt_fresh,
  repeat_attempt, attempt_known, attempt_verified, attempt_admitted, attempt_on, attempt_now,
  handle_attempt, conclude, seal_outcome, outcome_correlated, outcome_unless_replayed,
  outcome_unique, outcome_digested, outcome_verified, outcome_admitted, outcome_on, outcome_now,
  record_outcome,
}
use auditable_mcp_sdk_ts.Host.Frame.{
  Frame, Frame-refl, flag-Frame, change_session-Frame, remember_rejected-Frame, admit-Frame,
  verify_signature-Frame, check_replay-Frame, decide-Frame,
}
use auditable_mcp_sdk_ts.Host.Invariant.{Kept, IsHonest, seal-Kept, chain_known-Kept}

module _ (p : Packages) (base : List SealedRecord) where
  pub framed :
      {A : Type 0} (m : Exec Host A) → ((h0 : Host) → Keeps (Frame h0) m) → Keeps (Kept p base) m
  framed m f = record {
    at = λ h k.
        let (same, attempts, _, _, _, _, _) = (f h).at h (Frame-refl h) in rw (same, attempts) k;
  }

  pub flag-Kept : (id : Text) (k : Code) → Keeps (Kept p base) (flag id k)
  flag-Kept id k = framed (flag id k) (λ h0. flag-Frame h0 id k)

  change_session-Kept :
      (id : Text) (f : Session → Session) → Keeps (Kept p base) (change_session id f)
  change_session-Kept id f = framed (change_session id f) (λ h0. change_session-Frame h0 id f)

  remember_rejected-Kept : (id : Text) → Keeps (Kept p base) (remember_rejected id)
  remember_rejected-Kept id = framed (remember_rejected id) (λ h0. remember_rejected-Frame h0 id)

  admit-Kept :
      (event : Value) (expected : Option Text) (attempt : Bool)
      → Keeps (Kept p base) (admit event expected attempt)
  admit-Kept event expected attempt =
      framed (admit event expected attempt) (λ h0. admit-Frame h0 event expected attempt)

  verify_signature-Kept :
      (w : World) (event : Value) (session : Text)
      → Keeps (Kept p base) (verify_signature w event session)
  verify_signature-Kept w event session =
      framed (verify_signature w event session) (λ h0. verify_signature-Frame h0 w event session)

  check_replay-Kept :
      (event : Value) (session : Text) → Keeps (Kept p base) (check_replay event session)
  check_replay-Kept event session =
      framed (check_replay event session) (λ h0. check_replay-Frame h0 event session)

  decide-Kept : (event : Value) (session : Text) → Keeps (Kept p base) (decide event session)
  decide-Kept event session = framed (decide event session) (λ h0. decide-Frame h0 event session)

  ruleset small_steps = (
    keeps_rules, flag-Kept, change_session-Kept, remember_rejected-Kept, check_replay-Kept,
    decide-Kept,
  )

  seal_if-Kept :
      (w : World) (event : Value) (available : Bool)
      → Keeps (Kept p base) (seal_if p w event available)
  seal_if-Kept w event true = seal-Kept p base w event
  seal_if-Kept w event false = search keeps_rules

  accept_sealed-Kept :
      (event : Value) (session : Text) (o : Option SealedRecord)
      → Keeps (Kept p base) (accept_sealed event session o)
  accept_sealed-Kept event session none = search small_steps
  accept_sealed-Kept event session (some r) = search small_steps

  attempt_unless_replayed-Kept :
      (w : World) (event : Value) (session : Text) (again : Bool)
      → Keeps (Kept p base) (attempt_unless_replayed p w event session again)
  unfolding seal_attempt
  attempt_unless_replayed-Kept w event session true = search small_steps
  attempt_unless_replayed-Kept w event session false =
      search (small_steps, seal_if-Kept w event, accept_sealed-Kept event session)

  attempt_fresh-Kept :
      (w : World) (event : Value) (session : Text)
      → Keeps (Kept p base) (attempt_fresh p w event session)
  unfolding attempt_fresh
  attempt_fresh-Kept w event session =
      search (small_steps, attempt_unless_replayed-Kept w event session) depth 8

  repeat_attempt-Kept :
      (event : Value) (session : Text) (r : SealedRecord) (same : Bool)
      → Keeps (Kept p base) (repeat_attempt event session r same)
  repeat_attempt-Kept event session r true = search small_steps
  repeat_attempt-Kept event session r false = search small_steps depth 8

  attempt_known-Kept :
      (w : World) (event : Value) (session : Text) (o : Option SealedRecord)
      → Keeps (Kept p base) (attempt_known p w event session o)
  unfolding attempt_known
  attempt_known-Kept w event session none = attempt_fresh-Kept w event session
  attempt_known-Kept w event session (some r) =
      search (small_steps, repeat_attempt-Kept event session r)

  attempt_verified-Kept :
      (w : World) (event : Value) (session : Text) (o : Option Code)
      → Keeps (Kept p base) (attempt_verified p w event session o)
  attempt_verified-Kept w event session none =
      search (small_steps, attempt_known-Kept w event session)
  attempt_verified-Kept w event session (some reason) = search small_steps

  attempt_admitted-Kept :
      (w : World) (event : Value) (a : Admitted)
      → Keeps (Kept p base) (attempt_admitted p w event a)
  unfolding attempt_admitted
  attempt_admitted-Kept w event (not_admitted reason) = search small_steps
  attempt_admitted-Kept w event (admitted session) =
      search
        (small_steps, verify_signature-Kept w event session, attempt_verified-Kept w event session)

  attempt_on-Kept :
      (w : World) (event : Value) (expected : Option Text) (known : Bool)
      → Keeps (Kept p base) (attempt_on p w event expected known)
  attempt_on-Kept w event expected false = search small_steps
  attempt_on-Kept w event expected true =
      search (small_steps, admit-Kept event expected true, attempt_admitted-Kept w event)

  pub handle_attempt-Kept :
      (w : World) (event : Value) (expected : Option Text) (deadline : Option ℕ)
      → IsHonest p w.load_tail
      → Keeps (Kept p base) (handle_attempt p w event expected deadline)
  unfolding handle_attempt attempt_now
  handle_attempt-Kept w event expected deadline honest =
      search (small_steps, chain_known-Kept p base, attempt_on-Kept w event expected)

  conclude-Kept :
      (event : Value) (session digest : Text) (o : Option SealedRecord)
      → Keeps (Kept p base) (conclude event session digest o)
  conclude-Kept event session digest none = search small_steps
  conclude-Kept event session digest (some r) = search small_steps

  outcome_correlated-Kept :
      (w : World) (event : Value) (session digest : Text)
      → Keeps (Kept p base) (outcome_correlated p w event session digest)
  unfolding outcome_correlated seal_outcome
  outcome_correlated-Kept w event session digest =
      search (small_steps, seal_if-Kept w event, conclude-Kept event session digest) depth 8

  outcome_unless_replayed-Kept :
      (w : World) (event : Value) (session digest : Text) (again : Bool)
      → Keeps (Kept p base) (outcome_unless_replayed p w event session digest again)
  outcome_unless_replayed-Kept w event session digest true = search small_steps
  outcome_unless_replayed-Kept w event session digest false =
      outcome_correlated-Kept w event session digest

  outcome_unique-Kept :
      (w : World) (event : Value) (session digest : Text) (same : Bool) (o : Option Text)
      → Keeps (Kept p base) (outcome_unique p w event session digest same o)
  unfolding outcome_unique
  outcome_unique-Kept w event session digest true o = search small_steps
  outcome_unique-Kept w event session digest false (some other) = search small_steps
  outcome_unique-Kept w event session digest false none =
      search (small_steps, outcome_unless_replayed-Kept w event session digest)

  outcome_verified-Kept :
      (w : World) (event : Value) (session : Text) (o : Option Code)
      → Keeps (Kept p base) (outcome_verified p w event session o)
  unfolding outcome_digested
  outcome_verified-Kept w event session (some reason) = search small_steps
  outcome_verified-Kept w event session none =
      search (small_steps, outcome_unique-Kept w event session) depth 8

  outcome_admitted-Kept :
      (w : World) (event : Value) (a : Admitted)
      → Keeps (Kept p base) (outcome_admitted p w event a)
  unfolding outcome_admitted
  outcome_admitted-Kept w event (not_admitted reason) = search small_steps
  outcome_admitted-Kept w event (admitted session) =
      search
        (small_steps, verify_signature-Kept w event session, outcome_verified-Kept w event session)

  outcome_on-Kept :
      (w : World) (event : Value) (expected : Option Text) (known : Bool)
      → Keeps (Kept p base) (outcome_on p w event expected known)
  outcome_on-Kept w event expected false = search small_steps
  outcome_on-Kept w event expected true =
      search (small_steps, admit-Kept event expected false, outcome_admitted-Kept w event)

  pub record_outcome-Kept :
      (w : World) (event : Option Value) (expected : Option Text)
      → IsHonest p w.load_tail
      → Keeps (Kept p base) (record_outcome p w event expected)
  unfolding record_outcome outcome_now
  record_outcome-Kept w none expected honest = search small_steps
  record_outcome-Kept w (some event) expected honest =
      search (small_steps, chain_known-Kept p base, outcome_on-Kept w event expected) depth 8
