-- ===== src/Host/Admit.antt =====
-- What an event passes before it is sealed: `#sessionOf`, `#verifySignature`, `#checkReplay`,
-- `#decide` and `#admit` of src/host.ts.
use auditable_mcp_sdk_ts.Base.{
  ℕ, zero, ◌+◌, Bool, true, false, ◌&&◌, not, Option, none, some, List, [], Text, same_text, ltb,
  if◌then◌else◌, has, add, lookup, insert, text_eq, is_some, nat_eq,
}
use auditable_mcp_sdk_ts.Base.Exec.{Exec, foreign}
use auditable_mcp_sdk_ts.Base.Exec.Run.{pure, raise, gets, ◌>>=◌, ◌>>◌}
use auditable_mcp_sdk_ts.Json.{Value, null, bool, num, bigint, str, integer, nan, pos, get, as_text}
use auditable_mcp_sdk_ts.Fields
use auditable_mcp_sdk_ts.Reasons.{
  Code, schema_invalid, replay_detected, signature_invalid, l2_unsigned, signer_seq_gap,
}
use auditable_mcp_sdk_ts.Canonical.{has_unsafe_number}
use auditable_mcp_sdk_ts.Models.{first_validation_error, Level}
use auditable_mcp_sdk_ts.Host.State.{
  Host, Session, World, Verdict, verified, unverified, verifier_threw, event_id, signed_number,
  get_or,
}
use auditable_mcp_sdk_ts.Host.Seal.{flag, change_session, is_attempt}

-- What `#admit` returns: a session, or a reject reason.
pub data Admitted : Type 0 where
  admitted : Text → Admitted
  not_admitted : Code → Admitted

abbrev pub is_expected : Option Text → Text → Bool
is_expected none session = true
is_expected (some e) session = same_text session e

unfoldable pub open_session_of : Option Text → Option Text → List (Text × Session) → Option Text
open_session_of none expected sessions = none
open_session_of (some session) expected sessions =
    if is_some (lookup session sessions) && is_expected expected session then some session else none

abbrev pub admit_session : Value → Option Text → Exec Host Admitted
admit_session event none = do
  flag (event_id event) replay_detected
  pure (not_admitted replay_detected)
admit_session event (some session) = pure (admitted session)

-- `#sessionOf(event, expected) ?? REPLAY_DETECTED`
unfoldable pub session_of : Value → Option Text → Exec Host Admitted
session_of event expected = do
  session ← gets (λ h. open_session_of (as_text (get Fields.session_id event)) expected h.sessions)
  admit_session event session

abbrev pub refuse_shape : Value → Exec Host Admitted
refuse_shape event = do flag (event_id event) schema_invalid; pure (not_admitted schema_invalid)

abbrev pub same_bool : Bool → Bool → Bool
same_bool true b = b
same_bool false b = not b

-- Structure, the canonicalization domain, and which of the two lifecycle messages it is.
unfoldable pub well_shaped : Value → Bool → Bool
well_shaped event attempt =
    not (is_some (first_validation_error event))
    && (not (has_unsafe_number event) && same_bool (is_attempt event) attempt)

-- `#admit`
unfoldable pub admit : Value → Option Text → Bool → Exec Host Admitted
admit event expected attempt =
    if well_shaped event attempt then session_of event expected else refuse_shape event

-- `!!value`
abbrev pub is_truthy : Option Value → Bool
is_truthy none = false
is_truthy (some null) = false
is_truthy (some (bool b)) = b
is_truthy (some (num (integer (pos zero)))) = false
is_truthy (some (num nan)) = false
is_truthy (some (bigint (pos zero))) = false
is_truthy (some (str [])) = false
is_truthy _ = true

abbrev pub received_in : Text → Session → Option ℕ
received_in key s = lookup key s.received

abbrev pub received_of : Text → Text → Host → Option ℕ
received_of session key h = elim (lookup session h.sessions) [
  | none ↦ none
  | some s ↦ received_in key s
]

abbrev pub expected_after : Option ℕ → ℕ
expected_after none = 0
expected_after (some n) = n + 1

-- `received === undefined || signerSeq > received`
abbrev pub exceeds : ℕ → Option ℕ → Bool
exceeds n none = true
exceeds n (some m) = ltb m n

abbrev pub receive_in : Text → ℕ → Session → Session
receive_in key n s = record s { received = insert key n s.received }

-- The gap bound, once a signature has verified.
unfoldable pub note_received : Value → Text → Text → ℕ → Exec Host (Option Code)
note_received event session key n = do
  before ← gets (received_of session key)
  if ltb (expected_after before) n then flag (event_id event) signer_seq_gap else pure tt
  if exceeds n before then change_session session (receive_in key n) else pure tt
  pure none

unfoldable pub after_verify : Value → Text → Text × ℕ → Verdict → Exec Host (Option Code)
after_verify event session (key, n) verified = note_received event session key n
after_verify event session (key, n) (unverified reason) = do
  flag (event_id event) signature_invalid
  pure (some reason)
after_verify event session (key, n) verifier_threw = raise foreign

abbrev pub unsigned : Value → Exec Host (Option Code)
unsigned event = do flag (event_id event) signature_invalid; pure (some l2_unsigned)

unfoldable pub verify_level2 :
    World → Value → Text → Bool → Option (Text × ℕ) → Exec Host (Option Code)
verify_level2 w event session false signed = unsigned event
verify_level2 w event session true none = unsigned event
verify_level2 w event session true (some signed) =
    after_verify event session signed (w.verify event)

abbrev pub verify_at : World → Value → Text → Level → Exec Host (Option Code)
verify_at w event session Level.l1 = pure none
verify_at w event session Level.l2 =
    verify_level2 w event session (is_truthy (get Fields.signature event)) (signed_number event)

-- `#verifySignature`
unfoldable pub verify_signature : World → Value → Text → Exec Host (Option Code)
verify_signature w event session = do
  level ← gets (λ h. h.config.capability.level)
  verify_at w event session level

-- The key and the number that an event is tracked by: under Level 2 only.
unfoldable pub tracked : Level → Value → Option (Text × ℕ)
tracked Level.l1 event = none
tracked Level.l2 event = signed_number event

abbrev pub decided_for : Text → Session → List ℕ
decided_for key s = get_or (lookup key s.decided) []

abbrev pub is_decided : Option (Text × ℕ) → Option Session → Bool
is_decided none s = false
is_decided (some t) none = false
is_decided (some (key, n)) (some s) = has n (decided_for key s)

abbrev pub number_of : Value → Host → Option (Text × ℕ)
number_of event h = tracked h.config.capability.level event

-- `#checkReplay`; the Boolean is whether it refuses.
unfoldable pub check_replay : Value → Text → Exec Host Bool
check_replay event session = do
  again ← gets (λ h. is_decided (number_of event h) (lookup session h.sessions))
  if again then flag (event_id event) replay_detected else pure tt
  pure again

abbrev pub decide_in : Option (Text × ℕ) → Session → Session
decide_in none s = s
decide_in (some (key, n)) s = record s {
  decided = insert key (add n (decided_for key s)) s.decided;
}

-- `#decide`
unfoldable pub decide : Value → Text → Exec Host Unit
decide event session = do number ← gets (number_of event); change_session session (decide_in number)
