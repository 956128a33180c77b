-- ===== src/Host/Handlers.antt =====
-- `handleAttempt` and `recordOutcome` of src/host.ts. Each runs under the host's lock, so one call is
-- one step.
use auditable_mcp_sdk_ts.Base.{
  ℕ, Bool, true, false, ◌||◌, Option, none, some, Text, lit, same_text, leb, if◌then◌else◌, has,
  add, lookup, insert, text_eq, is_some,
}
use auditable_mcp_sdk_ts.Base.Exec.{Result, ok, Exec}
use auditable_mcp_sdk_ts.Base.Exec.Try
use auditable_mcp_sdk_ts.Base.Exec.Run.{pure, lift, gets, modify, ◌>>=◌, ◌>>◌}
use auditable_mcp_sdk_ts.Json.{Value, get, is_text, is_object}
use auditable_mcp_sdk_ts.Fields
use auditable_mcp_sdk_ts.Reasons.{Code, schema_invalid, replay_detected, orphaned_outcome}
use auditable_mcp_sdk_ts.Canonical.{Packages, canonicalize}
use auditable_mcp_sdk_ts.Models.{aborted}
use auditable_mcp_sdk_ts.Transport.{Response, rejected, unavailable, accept}
use auditable_mcp_sdk_ts.Ledger.{SealedRecord}
use auditable_mcp_sdk_ts.Host.State.{
  Host, Session, World, Disposition, sealed, repeat, refused, not_recorded, event_id,
}
use auditable_mcp_sdk_ts.Host.Seal.{flag, change_session, accept_in, chain_known, seal, digest_of}
use auditable_mcp_sdk_ts.Host.Admit.{
  Admitted, admitted, not_admitted, admit, verify_signature, check_replay, decide,
}

-- `acceptOf`
unfoldable pub accept_of : SealedRecord → Response
accept_of r =
    accept r.seq r.record_hash r.host_ts r.previous_hash r.host_signature r.host_key_id r.log_id

abbrev pub remember_rejected : Text → Exec Host Unit
remember_rejected id = modify (λ h. record h { rejected_ids = add id h.rejected_ids })

-- A refusal after the signature verified: it is a decision.
abbrev pub refuse_replay : Value → Text → Exec Host Response
refuse_replay event session = do
  remember_rejected (event_id event)
  decide event session
  flag (event_id event) replay_detected
  pure (rejected replay_detected)

abbrev pub is_terminal : Text → Option Session → Bool
is_terminal id none = false
is_terminal id (some s) = is_some (lookup id s.terminal)

abbrev pub is_accepted : Text → Option Session → Bool
is_accepted id none = false
is_accepted id (some s) = has id s.accepted

abbrev pub terminal_of : Text → Option Session → Option Text
terminal_of id none = none
terminal_of id (some s) = lookup id s.terminal

abbrev pub accept_sealed : Value → Text → Option SealedRecord → Exec Host Response
accept_sealed event session none = pure unavailable
accept_sealed event session (some r) = do
  decide event session
  change_session session (accept_in (event_id event))
  pure (accept_of r)

-- With persistence down nothing is sealed, and nothing decided.
abbrev pub seal_if : Packages → World → Value → Bool → Exec Host (Option SealedRecord)
seal_if p w event false = pure none
seal_if p w event true = seal p w event

unfoldable pub seal_attempt : Packages → World → Value → Text → Exec Host Response
seal_attempt p w event session = do
  available ← gets (λ h. h.persistence_available)
  r ← seal_if p w event available
  accept_sealed event session r

abbrev pub attempt_unless_replayed : Packages → World → Value → Text → Bool → Exec Host Response
attempt_unless_replayed p w event session true = do
  remember_rejected (event_id event)
  decide event session
  pure (rejected replay_detected)
attempt_unless_replayed p w event session false = seal_attempt p w event session

-- An id that is not sealed yet: its operation may have concluded, its number may be a replay.
unfoldable pub attempt_fresh : Packages → World → Value → Text → Exec Host Response
attempt_fresh p w event session = do
  concluded ← gets (λ h. is_terminal (event_id event) (lookup session h.sessions))
  if concluded then refuse_replay event session else (do
    replayed ← check_replay event session
    attempt_unless_replayed p w event session replayed)

-- `canonicalize(sealed.event) === canonicalize(event)`
unfoldable pub same_canonical : Packages → Value → Value → Result Bool
same_canonical p a b =
    Try.◌>>=◌ (canonicalize p a) (λ s. Try.◌>>=◌ (canonicalize p b) (λ t. ok (same_text s t)))

abbrev pub repeat_attempt : Value → Text → SealedRecord → Bool → Exec Host Response
repeat_attempt event session r true = do
  change_session session (accept_in (event_id event))
  pure (accept_of r)
repeat_attempt event session r false = refuse_replay event session

-- An id that is sealed answers a byte-identical repeat from the ledger.
unfoldable pub attempt_known :
    Packages → World → Value → Text → Option SealedRecord → Exec Host Response
attempt_known p w event session none = attempt_fresh p w event session
attempt_known p w event session (some r) = do
  same ← lift (same_canonical p r.event event)
  repeat_attempt event session r same

abbrev pub attempt_verified : Packages → World → Value → Text → Option Code → Exec Host Response
attempt_verified p w event session (some reason) = do
  remember_rejected (event_id event)
  pure (rejected reason)
attempt_verified p w event session none = do
  known ← gets (λ h. lookup (event_id event) h.sealed_attempts)
  attempt_known p w event session known

unfoldable pub attempt_admitted : Packages → World → Value → Admitted → Exec Host Response
attempt_admitted p w event (not_admitted reason) = pure (rejected reason)
attempt_admitted p w event (admitted session) = do
  reason ← verify_signature w event session
  attempt_verified p w event session reason

abbrev pub attempt_on : Packages → World → Value → Option Text → Bool → Exec Host Response
attempt_on p w event expected false = pure unavailable
attempt_on p w event expected true = do
  result ← admit event expected true
  attempt_admitted p w event result

-- `#handleAttempt`
unfoldable pub attempt_now : Packages → World → Value → Option Text → Exec Host Response
attempt_now p w event expected = do known ← chain_known p w; attempt_on p w event expected known

abbrev pub is_past : Option ℕ → ℕ → Bool
is_past none now = false
is_past (some deadline) now = leb deadline now

-- `handleAttempt`
unfoldable pub handle_attempt :
    Packages → World → Value → Option Text → Option ℕ → Exec Host Response
handle_attempt p w event expected deadline =
    if is_past deadline w.date_now then pure unavailable else attempt_now p w event expected

abbrev pub terminal_in : Text → Text → Session → Session
terminal_in id digest s = record s { terminal = insert id digest s.terminal }

abbrev pub conclude : Value → Text → Text → Option SealedRecord → Exec Host Disposition
conclude event session digest none = pure not_recorded
conclude event session digest (some r) = do
  decide event session
  change_session session (terminal_in (event_id event) digest)
  pure sealed

unfoldable pub seal_outcome : Packages → World → Value → Text → Text → Exec Host Disposition
seal_outcome p w event session digest = do
  available ← gets (λ h. h.persistence_available)
  r ← seal_if p w event available
  conclude event session digest r

-- Correlation: an outcome of an attempt that was not accepted is sealed only as `aborted`.
unfoldable pub outcome_correlated : Packages → World → Value → Text → Text → Exec Host Disposition
outcome_correlated p w event session digest = do
  correlated ← gets (λ h. is_accepted (event_id event) (lookup session h.sessions))
  if correlated || is_text aborted (get Fields.outcome event)
      then seal_outcome p w event session digest
      else (do decide event session; flag (event_id event) orphaned_outcome; pure refused)

abbrev pub outcome_unless_replayed :
    Packages → World → Value → Text → Text → Bool → Exec Host Disposition
outcome_unless_replayed p w event session digest true = pure refused
outcome_unless_replayed p w event session digest false = outcome_correlated p w event session digest

abbrev pub is_same : Option Text → Text → Bool
is_same none d = false
is_same (some t) d = same_text t d

-- One terminal record for each operation of a session.
unfoldable pub outcome_unique :
    Packages → World → Value → Text → Text → Bool → Option Text → Exec Host Disposition
outcome_unique p w event session digest true terminal = pure repeat
outcome_unique p w event session digest false (some other) = do
  decide event session
  flag (event_id event) replay_detected
  pure refused
outcome_unique p w event session digest false none = do
  replayed ← check_replay event session
  outcome_unless_replayed p w event session digest replayed

unfoldable pub outcome_digested : Packages → World → Value → Text → Text → Exec Host Disposition
outcome_digested p w event session digest = do
  terminal ← gets (λ h. terminal_of (event_id event) (lookup session h.sessions))
  known ← gets (λ h. has digest h.sealed_digests)
  outcome_unique p w event session digest (known || is_same terminal digest) terminal

abbrev pub outcome_verified : Packages → World → Value → Text → Option Code → Exec Host Disposition
outcome_verified p w event session (some reason) = pure refused
outcome_verified p w event session none = do
  digest ← lift (digest_of p event)
  outcome_digested p w event session digest

unfoldable pub outcome_admitted : Packages → World → Value → Admitted → Exec Host Disposition
outcome_admitted p w event (not_admitted reason) = pure refused
outcome_admitted p w event (admitted session) = do
  reason ← verify_signature w event session
  outcome_verified p w event session reason

abbrev pub outcome_on : Packages → World → Value → Option Text → Bool → Exec Host Disposition
outcome_on p w event expected false = pure not_recorded
outcome_on p w event expected true = do
  result ← admit event expected false
  outcome_admitted p w event result

-- `#handleOutcome`
unfoldable pub outcome_now : Packages → World → Value → Option Text → Exec Host Disposition
outcome_now p w event expected = do known ← chain_known p w; outcome_on p w event expected known

-- `recordOutcome`, for whatever value the binding received.
unfoldable pub record_outcome :
    Packages → World → Option Value → Option Text → Exec Host Disposition
record_outcome p w none expected = do flag (lit "<unknown>") schema_invalid; pure refused
record_outcome p w (some event) expected =
    if is_object (some event)
    then outcome_now p w event expected
    else do flag (lit "<unknown>") schema_invalid; pure refused

-- `handleOutcome`
unfoldable pub handle_outcome : Packages → World → Option Value → Option Text → Exec Host Unit
handle_outcome p w event expected = do disposition ← record_outcome p w event expected; pure tt
