-- ===== src/Session/Tests.antt =====
-- A session on a host in the same process, and the properties of the session at it.
use auditable_mcp_sdk_ts.Base
use auditable_mcp_sdk_ts.Base.{
  ℕ, ◌+◌, ap, ◌∙◌, ◌≡◌, refl, true, false, Option, none, some, List, [], ◌∷◌, Text, lit, length,
}
use auditable_mcp_sdk_ts.Base.Exec.{Result, ok, err, foreign}
use auditable_mcp_sdk_ts.Base.Exec.Run.{lift, ◌>>=◌}
use auditable_mcp_sdk_ts.Json
use auditable_mcp_sdk_ts.Json.{Value, str, obj, Members, get}
use auditable_mcp_sdk_ts.Canonical
use auditable_mcp_sdk_ts.Hashing
use auditable_mcp_sdk_ts.Models
use auditable_mcp_sdk_ts.Ledger
use auditable_mcp_sdk_ts.Transport
use auditable_mcp_sdk_ts.Transport.{Acceptance, accepted}
use auditable_mcp_sdk_ts.Host
use auditable_mcp_sdk_ts.Host.State.{Host}
use auditable_mcp_sdk_ts.Host.Answers.{Answered}
use auditable_mcp_sdk_ts.Host.Decisions.{IsCertain}
use auditable_mcp_sdk_ts.Reasons
use auditable_mcp_sdk_ts.Samples
use auditable_mcp_sdk_ts.Samples.{packages, world, session_a, id_a, target_members}
use auditable_mcp_sdk_ts.Tests.{in_session}
use auditable_mcp_sdk_ts.Session
use auditable_mcp_sdk_ts.Session.{Session, Call, Sign, valid}
use auditable_mcp_sdk_ts.Session.Emission.{Action, ActionOptions, Mark, wire_event}
use auditable_mcp_sdk_ts.Session.Acting.{acquire, action, mark_accepted, on_answer, answered}
use auditable_mcp_sdk_ts.Session.Lifecycle.{Handler, succeeded, dispose, with_audit}
use auditable_mcp_sdk_ts.Session.Returned.{Acquired, Sent, action-Acquired}
use auditable_mcp_sdk_ts.Session.Disposal.{emitted, mark_all, with_audit-outcome, dispose-mark_all}
use auditable_mcp_sdk_ts.Session.Numbers.{
  Logged, Section, attempting, concluding, Bears, IsNumbering, IsNumbered, nothing_handed, sections,
  sections-IsNumbered,
}
use auditable_mcp_sdk_ts.Level2.Signing.{Engines, sign_event, numbered_event, signature_payload}
use auditable_mcp_sdk_ts.Fields
use auditable_mcp_sdk_ts.Base.Exec.Try
use auditable_mcp_sdk_ts.Crypto.Base64.{bytes_to_base64url}
use auditable_mcp_sdk_ts.Json.Objects
use auditable_mcp_sdk_ts.Json.Objects.{find_member-assign, find_member-assign_self, assign}
use auditable_mcp_sdk_ts.Session.Precedence.{
  uncountersigned, verdict, first_failure, rules, on_accept-first_failure,
}
use auditable_mcp_sdk_ts.Hashing.{compute_record_hash, seq_value}
use auditable_mcp_sdk_ts.Crypto.SaltedHash.{JsonText}
use auditable_mcp_sdk_ts.Session.Cleared.{Cleared}
use auditable_mcp_sdk_ts.Session.InProcess.{Local, in_process, acquire-Answered}

abbrev local : Local
local = record { id = id_a; ts = lit "2026-01-02T03:04:05.678Z"; bytes = [] }

-- Level 1, with Polluted Stop.
abbrev plain_session : Session Host
plain_session = record {
  outside = in_process packages world local;
  session_id = session_a;
  signer = none;
  polluted_stop = true;
  countersignature_verifier = none;
  require_countersign = false;
}

-- No operation of the tests commits to a context.
abbrev json : JsonText
json = record { stringify = λ v. []; parse = λ t. none; decode_utf8 = λ bs. none }

abbrev read_only : ActionOptions
read_only = record {
  mutates = false;
  egress = false;
  disclose = none;
  commit = none;
  commit_salted = none;
}

abbrev query : Action
query = record {
  id = id_a;
  action_type = lit "db.query";
  target = obj target_members;
  options = read_only;
  commit_hash = none;
  disclosure = none;
  salted_hash = none;
  accept = none;
  outcome = none;
  finished = false;
}

abbrev started : Call Host
started = record { next = 0; world = in_session }

abbrev acquired_query : Result Action × Call Host
acquired_query = acquire packages plain_session query started

abbrev action_of : Result Action → Action
action_of (ok a) = a
action_of (err e) = query

-- The operation as the host's accept leaves it.
abbrev cleared_query : Action
cleared_query = action_of acquired_query.0

abbrev after_query : Call Host
after_query = acquired_query.1

query_returns : acquired_query ≡ (ok cleared_query, after_query)
unfolding Host.Sessions.open_session Base.same_text Base.list_beq Base.Regex.nullable
    Base.Regex.derive Base.Regex.matches Canonical.unsafe_number Canonical.has_unsafe_number
    Canonical.some_unsafe Canonical.some_member_unsafe Canonical.has_lone_surrogate
    Canonical.some_lone Canonical.some_member_lone Canonical.some_or_throw Canonical.canonicalize
    Canonical.sha256_hex Canonical.hash_canonical Canonical.Surrogates.is_high
    Canonical.Surrogates.is_low Canonical.Surrogates.starts_low Canonical.Surrogates.lone_after
    Canonical.Surrogates.lone_surrogate Hashing.genesis_hash Hashing.preimage
    Hashing.compute_record_hash Hashing.countersignature_payload Json.find_member Json.get
    Json.type_of Json.string_of Json.strict_equal Models.current_version Models.attempted
    Models.success Models.failed Models.aborted Models.target_resource_schema Models.outcome_schema
    Models.abort_reason_schema Models.audit_event_fields Models.level2_together
    Models.aborted_has_reason Models.version_schema Models.audit_event_object
    Models.audit_event_schema Models.first_error Models.surrogate_error
    Models.first_validation_error Models.Patterns.session_id_regex Models.Patterns.uuid_regex
    Models.Patterns.earlier_uuid_regex Models.Patterns.datetime_regex
    Models.Patterns.earlier_datetime_regex Models.Patterns.chain_hash_regex
    Models.Patterns.context_hash_regex Models.Patterns.signature_regex
    Models.Patterns.earlier_signature_regex Models.Patterns.salted_hash_regex Models.Schema.any_text
    Models.Schema.non_empty_text Models.Schema.text_matching Models.Schema.text_among
    Models.Schema.any_bool Models.Schema.safe_natural Models.Schema.any_object
    Models.Schema.known_name Models.Schema.all_known Models.Schema.fields_hold
    Models.Schema.strict_object Ledger.new_ledger Ledger.seal Ledger.commit Ledger.append
    Ledger.resume_from Transport.whole_triple Transport.accept Host.State.event_id
    Host.State.signed_number Host.State.resolved Host.State.new_host Host.Seal.digest_of
    Host.Seal.flag Host.Seal.change_session Host.Seal.remember Host.Seal.commit_record
    Host.Seal.is_unchanged Host.Seal.continues Host.Seal.adopt Host.Seal.settle_with
    Host.Seal.settle_tail Host.Seal.chain_known Host.Seal.countersign_with
    Host.Seal.commit_and_remember Host.Seal.after_append Host.Seal.persist Host.Seal.seal
    Host.Admit.open_session_of Host.Admit.session_of Host.Admit.well_shaped Host.Admit.admit
    Host.Admit.note_received Host.Admit.after_verify Host.Admit.verify_level2
    Host.Admit.verify_signature Host.Admit.tracked Host.Admit.check_replay Host.Admit.decide
    Host.Handlers.accept_of Host.Handlers.seal_attempt Host.Handlers.attempt_fresh
    Host.Handlers.same_canonical Host.Handlers.attempt_known Host.Handlers.attempt_admitted
    Host.Handlers.attempt_now Host.Handlers.handle_attempt Host.Handlers.seal_outcome
    Host.Handlers.outcome_correlated Host.Handlers.outcome_unique Host.Handlers.outcome_digested
    Host.Handlers.outcome_admitted Host.Handlers.outcome_now Host.Handlers.record_outcome
    Host.Handlers.handle_outcome Reasons.text_of Session.run_numbered Session.numbering
    Session.Emission.new_action Session.Emission.wire_event Session.Emission.parse
    Session.Emission.stamp Session.Emission.build Session.Emission.emit_outcome
    Session.Emission.emit_aborted Session.Acting.send_attempt Session.Acting.abort
    Session.Acting.check_countersignature Session.Acting.check_record_hash Session.Acting.on_accept
    Session.Acting.on_answer Session.Acting.acquire Session.Acting.action
    Session.Lifecycle.succeeded Session.Lifecycle.mark_failed Session.Lifecycle.terminal_outcome
    Session.Lifecycle.dispose Session.Lifecycle.run_handler Session.Lifecycle.with_audit
    Session.InProcess.in_process Samples.Encoding.number_tag Samples.Encoding.encode_text
    Samples.Encoding.encode Samples.Encoding.encode_items Samples.Encoding.encode_members Base.has
    Base.add Base.lookup Base.insert Base.erase
query_returns = refl

in_session-IsCertain : IsCertain in_session
unfolding Host.Sessions.open_session Base.has
in_session-IsCertain = refl

acquire-Answered_example :
    (attempt : Value) × (r : Acceptance) × (cleared_query ≡ mark_accepted r query)
    × Sent plain_session query started attempt (accepted r) after_query.world
    × Answered packages world attempt in_session (accepted r) after_query.world
    × Cleared packages plain_session attempt r
acquire-Answered_example =
    acquire-Answered packages world local plain_session query started refl tt tt
      in_session-IsCertain query_returns

abbrev from_query : Result Action × Call Host
from_query =
    action packages json plain_session (lit "db.query") (obj target_members) read_only started

action_returns : from_query ≡ (ok cleared_query, after_query)
unfolding Host.Sessions.open_session Base.same_text Base.list_beq Base.Regex.nullable
    Base.Regex.derive Base.Regex.matches Canonical.unsafe_number Canonical.has_unsafe_number
    Canonical.some_unsafe Canonical.some_member_unsafe Canonical.has_lone_surrogate
    Canonical.some_lone Canonical.some_member_lone Canonical.some_or_throw Canonical.canonicalize
    Canonical.sha256_hex Canonical.hash_canonical Canonical.Surrogates.is_high
    Canonical.Surrogates.is_low Canonical.Surrogates.starts_low Canonical.Surrogates.lone_after
    Canonical.Surrogates.lone_surrogate Hashing.genesis_hash Hashing.preimage
    Hashing.compute_record_hash Hashing.countersignature_payload Json.find_member Json.get
    Json.type_of Json.string_of Json.strict_equal Models.current_version Models.attempted
    Models.success Models.failed Models.aborted Models.target_resource_schema Models.outcome_schema
    Models.abort_reason_schema Models.audit_event_fields Models.level2_together
    Models.aborted_has_reason Models.version_schema Models.audit_event_object
    Models.audit_event_schema Models.first_error Models.surrogate_error
    Models.first_validation_error Models.Patterns.session_id_regex Models.Patterns.uuid_regex
    Models.Patterns.earlier_uuid_regex Models.Patterns.datetime_regex
    Models.Patterns.earlier_datetime_regex Models.Patterns.chain_hash_regex
    Models.Patterns.context_hash_regex Models.Patterns.signature_regex
    Models.Patterns.earlier_signature_regex Models.Patterns.salted_hash_regex Models.Schema.any_text
    Models.Schema.non_empty_text Models.Schema.text_matching Models.Schema.text_among
    Models.Schema.any_bool Models.Schema.safe_natural Models.Schema.any_object
    Models.Schema.known_name Models.Schema.all_known Models.Schema.fields_hold
    Models.Schema.strict_object Ledger.new_ledger Ledger.seal Ledger.commit Ledger.append
    Ledger.resume_from Transport.whole_triple Transport.accept Host.State.event_id
    Host.State.signed_number Host.State.resolved Host.State.new_host Host.Seal.digest_of
    Host.Seal.flag Host.Seal.change_session Host.Seal.remember Host.Seal.commit_record
    Host.Seal.is_unchanged Host.Seal.continues Host.Seal.adopt Host.Seal.settle_with
    Host.Seal.settle_tail Host.Seal.chain_known Host.Seal.countersign_with
    Host.Seal.commit_and_remember Host.Seal.after_append Host.Seal.persist Host.Seal.seal
    Host.Admit.open_session_of Host.Admit.session_of Host.Admit.well_shaped Host.Admit.admit
    Host.Admit.note_received Host.Admit.after_verify Host.Admit.verify_level2
    Host.Admit.verify_signature Host.Admit.tracked Host.Admit.check_replay Host.Admit.decide
    Host.Handlers.accept_of Host.Handlers.seal_attempt Host.Handlers.attempt_fresh
    Host.Handlers.same_canonical Host.Handlers.attempt_known Host.Handlers.attempt_admitted
    Host.Handlers.attempt_now Host.Handlers.handle_attempt Host.Handlers.seal_outcome
    Host.Handlers.outcome_correlated Host.Handlers.outcome_unique Host.Handlers.outcome_digested
    Host.Handlers.outcome_admitted Host.Handlers.outcome_now Host.Handlers.record_outcome
    Host.Handlers.handle_outcome Reasons.text_of Session.run_numbered Session.numbering
    Session.Emission.new_action Session.Emission.wire_event Session.Emission.parse
    Session.Emission.stamp Session.Emission.build Session.Emission.emit_outcome
    Session.Emission.emit_aborted Session.Acting.send_attempt Session.Acting.abort
    Session.Acting.check_countersignature Session.Acting.check_record_hash Session.Acting.on_accept
    Session.Acting.on_answer Session.Acting.acquire Session.Acting.action
    Session.Lifecycle.succeeded Session.Lifecycle.mark_failed Session.Lifecycle.terminal_outcome
    Session.Lifecycle.dispose Session.Lifecycle.run_handler Session.Lifecycle.with_audit
    Session.InProcess.in_process Samples.Encoding.number_tag Samples.Encoding.encode_text
    Samples.Encoding.encode Samples.Encoding.encode_items Samples.Encoding.encode_members Base.has
    Base.add Base.lookup Base.insert Base.erase
action_returns = refl

action-Acquired_example :
    (a : Action) × (before : Call Host) × Acquired packages plain_session a before cleared_query
action-Acquired_example =
    action-Acquired packages plain_session json (lit "db.query") (obj target_members) read_only
      started action_returns

query_is_unmarked : (cleared_query.outcome ≡ none) × (cleared_query.finished ≡ false)
unfolding Host.Sessions.open_session Base.same_text Base.list_beq Base.Regex.nullable
    Base.Regex.derive Base.Regex.matches Canonical.unsafe_number Canonical.has_unsafe_number
    Canonical.some_unsafe Canonical.some_member_unsafe Canonical.has_lone_surrogate
    Canonical.some_lone Canonical.some_member_lone Canonical.some_or_throw Canonical.canonicalize
    Canonical.sha256_hex Canonical.hash_canonical Canonical.Surrogates.is_high
    Canonical.Surrogates.is_low Canonical.Surrogates.starts_low Canonical.Surrogates.lone_after
    Canonical.Surrogates.lone_surrogate Hashing.genesis_hash Hashing.preimage
    Hashing.compute_record_hash Hashing.countersignature_payload Json.find_member Json.get
    Json.type_of Json.string_of Json.strict_equal Models.current_version Models.attempted
    Models.success Models.failed Models.aborted Models.target_resource_schema Models.outcome_schema
    Models.abort_reason_schema Models.audit_event_fields Models.level2_together
    Models.aborted_has_reason Models.version_schema Models.audit_event_object
    Models.audit_event_schema Models.first_error Models.surrogate_error
    Models.first_validation_error Models.Patterns.session_id_regex Models.Patterns.uuid_regex
    Models.Patterns.earlier_uuid_regex Models.Patterns.datetime_regex
    Models.Patterns.earlier_datetime_regex Models.Patterns.chain_hash_regex
    Models.Patterns.context_hash_regex Models.Patterns.signature_regex
    Models.Patterns.earlier_signature_regex Models.Patterns.salted_hash_regex Models.Schema.any_text
    Models.Schema.non_empty_text Models.Schema.text_matching Models.Schema.text_among
    Models.Schema.any_bool Models.Schema.safe_natural Models.Schema.any_object
    Models.Schema.known_name Models.Schema.all_known Models.Schema.fields_hold
    Models.Schema.strict_object Ledger.new_ledger Ledger.seal Ledger.commit Ledger.append
    Ledger.resume_from Transport.whole_triple Transport.accept Host.State.event_id
    Host.State.signed_number Host.State.resolved Host.State.new_host Host.Seal.digest_of
    Host.Seal.flag Host.Seal.change_session Host.Seal.remember Host.Seal.commit_record
    Host.Seal.is_unchanged Host.Seal.continues Host.Seal.adopt Host.Seal.settle_with
    Host.Seal.settle_tail Host.Seal.chain_known Host.Seal.countersign_with
    Host.Seal.commit_and_remember Host.Seal.after_append Host.Seal.persist Host.Seal.seal
    Host.Admit.open_session_of Host.Admit.session_of Host.Admit.well_shaped Host.Admit.admit
    Host.Admit.note_received Host.Admit.after_verify Host.Admit.verify_level2
    Host.Admit.verify_signature Host.Admit.tracked Host.Admit.check_replay Host.Admit.decide
    Host.Handlers.accept_of Host.Handlers.seal_attempt Host.Handlers.attempt_fresh
    Host.Handlers.same_canonical Host.Handlers.attempt_known Host.Handlers.attempt_admitted
    Host.Handlers.attempt_now Host.Handlers.handle_attempt Host.Handlers.seal_outcome
    Host.Handlers.outcome_correlated Host.Handlers.outcome_unique Host.Handlers.outcome_digested
    Host.Handlers.outcome_admitted Host.Handlers.outcome_now Host.Handlers.record_outcome
    Host.Handlers.handle_outcome Reasons.text_of Session.run_numbered Session.numbering
    Session.Emission.new_action Session.Emission.wire_event Session.Emission.parse
    Session.Emission.stamp Session.Emission.build Session.Emission.emit_outcome
    Session.Emission.emit_aborted Session.Acting.send_attempt Session.Acting.abort
    Session.Acting.check_countersignature Session.Acting.check_record_hash Session.Acting.on_accept
    Session.Acting.on_answer Session.Acting.acquire Session.Acting.action
    Session.Lifecycle.succeeded Session.Lifecycle.mark_failed Session.Lifecycle.terminal_outcome
    Session.Lifecycle.dispose Session.Lifecycle.run_handler Session.Lifecycle.with_audit
    Session.InProcess.in_process Samples.Encoding.number_tag Samples.Encoding.encode_text
    Samples.Encoding.encode Samples.Encoding.encode_items Samples.Encoding.encode_members Base.has
    Base.add Base.lookup Base.insert Base.erase
query_is_unmarked = (refl, refl)

abbrev handler : Handler Host ℕ
handler c = (ok 7, c)

with_audit-outcome_example :
    with_audit packages json plain_session
      (lit "db.query")
      (obj target_members)
      read_only
      handler
      started
    ≡ (ok 7, emitted plain_session (succeeded cleared_query) Models.success after_query)
with_audit-outcome_example =
    with_audit-outcome packages json plain_session (lit "db.query") (obj target_members) read_only
      handler started after_query cleared_query cleared_query (ok 7) after_query action_returns refl
      query_is_unmarked.0 query_is_unmarked.1

dispose-mark_all_example :
    (dispose plain_session (mark_all (Mark.success ∷ Mark.failed ∷ []) query) started ≡ (
      ok (record (mark_all (Mark.success ∷ Mark.failed ∷ []) query) { finished = true }),
      emitted plain_session
          (mark_all (Mark.success ∷ Mark.failed ∷ []) query)
          Models.failed
          started,
    ))
    × ((dispose plain_session (mark_all (Mark.success ∷ Mark.failed ∷ []) query)
            >>= dispose plain_session)
          started
        ≡ dispose plain_session (mark_all (Mark.success ∷ Mark.failed ∷ []) query) started)
dispose-mark_all_example =
    dispose-mark_all plain_session (Mark.success ∷ Mark.failed ∷ []) query started refl refl

-- Level 2: the signer of src/l2/signing.ts, with a toy engine.
abbrev engines : Engines
engines = record {
  sign = λ payload private_key. private_key;
  ed25519_verify = λ payload signature public_key. none;
  ecdsa_verify = λ payload signature public_key. none;
}

abbrev as_object : Result Members → Result Value
as_object (ok ms) = ok (obj ms)
as_object (err e) = err e

abbrev signed : Value → ℕ → Result Value
signed (obj ms) n = as_object (sign_event packages engines ms (lit "k") n (1 ∷ 2 ∷ 3 ∷ []))
signed _ n = err foreign

abbrev signs : Sign Host
signs v n = lift (signed v n)

stamped-Bears :
    (ms : Members) (n : ℕ) (v : Value)
    → Bears (obj (assign Fields.signature v (numbered_event ms (lit "k") n))) n
unfolding numbered_event get Base.same_text Base.list_beq
stamped-Bears ms n v =
    find_member-assign Fields.signature Fields.signer_seq v (numbered_event ms (lit "k") n)
    ∙ find_member-assign_self Fields.signer_seq (seq_value n)
        (assign Fields.key_id (str (lit "k")) ms)

stamped_after :
    (ms : Members) (n : ℕ) (r : Result (List ℕ)) (v : Value)
    → as_object (
        Try.◌>>=◌ r (λ payload. ok (
          assign Fields.signature
            (str (bytes_to_base64url (1 ∷ 2 ∷ 3 ∷ [])))
            (numbered_event ms (lit "k") n))))
      ≡ ok v
    → Bears v n
stamped_after ms n (ok payload) v q =
    let same : obj (
          assign Fields.signature (str (bytes_to_base64url (1 ∷ 2 ∷ 3 ∷ [])))
            (numbered_event ms (lit "k") n))
        ≡ v =
      cc in
    rw same at (stamped-Bears ms n (str (bytes_to_base64url (1 ∷ 2 ∷ 3 ∷ []))))
stamped_after ms n (err e) v q = absurd cc

signed-Bears : (v : Value) (n : ℕ) (v' : Value) → signed v n ≡ ok v' → Bears v' n
unfolding sign_event
signed-Bears (obj ms) n v' q =
    stamped_after ms n (signature_payload packages (numbered_event ms (lit "k") n)) v' q
signed-Bears Json.null n v' q = absurd cc
signed-Bears (Json.bool b) n v' q = absurd cc
signed-Bears (Json.num x) n v' q = absurd cc
signed-Bears (Json.bigint x) n v' q = absurd cc
signed-Bears (Json.str x) n v' q = absurd cc
signed-Bears (Json.arr xs) n v' q = absurd cc

signs-IsNumbering : IsNumbering signs
signs-IsNumbering = record { at = λ v n h {v'} q. signed-Bears v n v' (ap (λ x. x.0) q) }

abbrev no_call : Call (Logged Host)
no_call = record { next = 0; world = record { inner = in_session; log = [] } }

abbrev query_sections : List Section
query_sections =
    attempting query
    ∷ concluding query (lit "no outcome") none
    ∷ concluding query Models.success none
    ∷ []

sections-IsNumbered_example :
    IsNumbered 0
      (sections plain_session signs query_sections no_call).world.log
      (sections plain_session signs query_sections no_call).next
sections-IsNumbered_example =
    sections-IsNumbered plain_session signs 0 query_sections no_call signs-IsNumbering
      nothing_handed

-- The section in between has no such outcome, and throws before it hands over an event.
two_numbers : (sections plain_session signs query_sections no_call).next ≡ 2
unfolding Host.Sessions.open_session Base.same_text Base.list_beq Base.Regex.nullable
    Base.Regex.derive Base.Regex.matches Canonical.unsafe_number Canonical.has_unsafe_number
    Canonical.some_unsafe Canonical.some_member_unsafe Canonical.has_lone_surrogate
    Canonical.some_lone Canonical.some_member_lone Canonical.some_or_throw Canonical.canonicalize
    Canonical.sha256_hex Canonical.hash_canonical Canonical.Surrogates.is_high
    Canonical.Surrogates.is_low Canonical.Surrogates.starts_low Canonical.Surrogates.lone_after
    Canonical.Surrogates.lone_surrogate Hashing.genesis_hash Hashing.preimage
    Hashing.compute_record_hash Hashing.countersignature_payload Json.find_member Json.get
    Json.type_of Json.string_of Json.strict_equal Models.current_version Models.attempted
    Models.success Models.failed Models.aborted Models.target_resource_schema Models.outcome_schema
    Models.abort_reason_schema Models.audit_event_fields Models.level2_together
    Models.aborted_has_reason Models.version_schema Models.audit_event_object
    Models.audit_event_schema Models.first_error Models.surrogate_error
    Models.first_validation_error Models.Patterns.session_id_regex Models.Patterns.uuid_regex
    Models.Patterns.earlier_uuid_regex Models.Patterns.datetime_regex
    Models.Patterns.earlier_datetime_regex Models.Patterns.chain_hash_regex
    Models.Patterns.context_hash_regex Models.Patterns.signature_regex
    Models.Patterns.earlier_signature_regex Models.Patterns.salted_hash_regex Models.Schema.any_text
    Models.Schema.non_empty_text Models.Schema.text_matching Models.Schema.text_among
    Models.Schema.any_bool Models.Schema.safe_natural Models.Schema.any_object
    Models.Schema.known_name Models.Schema.all_known Models.Schema.fields_hold
    Models.Schema.strict_object Ledger.new_ledger Ledger.seal Ledger.commit Ledger.append
    Ledger.resume_from Transport.whole_triple Transport.accept Host.State.event_id
    Host.State.signed_number Host.State.resolved Host.State.new_host Host.Seal.digest_of
    Host.Seal.flag Host.Seal.change_session Host.Seal.remember Host.Seal.commit_record
    Host.Seal.is_unchanged Host.Seal.continues Host.Seal.adopt Host.Seal.settle_with
    Host.Seal.settle_tail Host.Seal.chain_known Host.Seal.countersign_with
    Host.Seal.commit_and_remember Host.Seal.after_append Host.Seal.persist Host.Seal.seal
    Host.Admit.open_session_of Host.Admit.session_of Host.Admit.well_shaped Host.Admit.admit
    Host.Admit.note_received Host.Admit.after_verify Host.Admit.verify_level2
    Host.Admit.verify_signature Host.Admit.tracked Host.Admit.check_replay Host.Admit.decide
    Host.Handlers.accept_of Host.Handlers.seal_attempt Host.Handlers.attempt_fresh
    Host.Handlers.same_canonical Host.Handlers.attempt_known Host.Handlers.attempt_admitted
    Host.Handlers.attempt_now Host.Handlers.handle_attempt Host.Handlers.seal_outcome
    Host.Handlers.outcome_correlated Host.Handlers.outcome_unique Host.Handlers.outcome_digested
    Host.Handlers.outcome_admitted Host.Handlers.outcome_now Host.Handlers.record_outcome
    Host.Handlers.handle_outcome Reasons.text_of Session.run_numbered Session.numbering
    Session.Emission.new_action Session.Emission.wire_event Session.Emission.parse
    Session.Emission.stamp Session.Emission.build Session.Emission.emit_outcome
    Session.Emission.emit_aborted Session.Acting.send_attempt Session.Acting.abort
    Session.Acting.check_countersignature Session.Acting.check_record_hash Session.Acting.on_accept
    Session.Acting.on_answer Session.Acting.acquire Session.Acting.action
    Session.Lifecycle.succeeded Session.Lifecycle.mark_failed Session.Lifecycle.terminal_outcome
    Session.Lifecycle.dispose Session.Lifecycle.run_handler Session.Lifecycle.with_audit
    Session.InProcess.in_process Samples.Encoding.number_tag Samples.Encoding.encode_text
    Samples.Encoding.encode Samples.Encoding.encode_items Samples.Encoding.encode_members Base.has
    Base.add Base.lookup Base.insert Base.erase sign_event numbered_event signature_payload
    Json.Objects.without Json.Objects.assign bytes_to_base64url
two_numbers = refl

abbrev bad_accept : Acceptance
bad_accept = record {
  seq = 0;
  record_hash = lit "00";
  host_ts = world.now;
  previous_hash = Hashing.genesis_hash;
  countersignature = none;
}

abbrev sent_query : Value
sent_query = wire_event plain_session query local.ts Models.attempted none

abbrev own_hash : Text
own_hash =
    1 ∷ Samples.Encoding.encode (Hashing.preimage sent_query 0 world.now Hashing.genesis_hash) []

query_is_hashed :
    compute_record_hash packages sent_query 0 world.now Hashing.genesis_hash ≡ ok own_hash
unfolding Host.Sessions.open_session Base.same_text Base.list_beq Base.Regex.nullable
    Base.Regex.derive Base.Regex.matches Canonical.unsafe_number Canonical.has_unsafe_number
    Canonical.some_unsafe Canonical.some_member_unsafe Canonical.has_lone_surrogate
    Canonical.some_lone Canonical.some_member_lone Canonical.some_or_throw Canonical.canonicalize
    Canonical.sha256_hex Canonical.hash_canonical Canonical.Surrogates.is_high
    Canonical.Surrogates.is_low Canonical.Surrogates.starts_low Canonical.Surrogates.lone_after
    Canonical.Surrogates.lone_surrogate Hashing.genesis_hash Hashing.preimage
    Hashing.compute_record_hash Hashing.countersignature_payload Json.find_member Json.get
    Json.type_of Json.string_of Json.strict_equal Models.current_version Models.attempted
    Models.success Models.failed Models.aborted Models.target_resource_schema Models.outcome_schema
    Models.abort_reason_schema Models.audit_event_fields Models.level2_together
    Models.aborted_has_reason Models.version_schema Models.audit_event_object
    Models.audit_event_schema Models.first_error Models.surrogate_error
    Models.first_validation_error Models.Patterns.session_id_regex Models.Patterns.uuid_regex
    Models.Patterns.earlier_uuid_regex Models.Patterns.datetime_regex
    Models.Patterns.earlier_datetime_regex Models.Patterns.chain_hash_regex
    Models.Patterns.context_hash_regex Models.Patterns.signature_regex
    Models.Patterns.earlier_signature_regex Models.Patterns.salted_hash_regex Models.Schema.any_text
    Models.Schema.non_empty_text Models.Schema.text_matching Models.Schema.text_among
    Models.Schema.any_bool Models.Schema.safe_natural Models.Schema.any_object
    Models.Schema.known_name Models.Schema.all_known Models.Schema.fields_hold
    Models.Schema.strict_object Ledger.new_ledger Ledger.seal Ledger.commit Ledger.append
    Ledger.resume_from Transport.whole_triple Transport.accept Host.State.event_id
    Host.State.signed_number Host.State.resolved Host.State.new_host Host.Seal.digest_of
    Host.Seal.flag Host.Seal.change_session Host.Seal.remember Host.Seal.commit_record
    Host.Seal.is_unchanged Host.Seal.continues Host.Seal.adopt Host.Seal.settle_with
    Host.Seal.settle_tail Host.Seal.chain_known Host.Seal.countersign_with
    Host.Seal.commit_and_remember Host.Seal.after_append Host.Seal.persist Host.Seal.seal
    Host.Admit.open_session_of Host.Admit.session_of Host.Admit.well_shaped Host.Admit.admit
    Host.Admit.note_received Host.Admit.after_verify Host.Admit.verify_level2
    Host.Admit.verify_signature Host.Admit.tracked Host.Admit.check_replay Host.Admit.decide
    Host.Handlers.accept_of Host.Handlers.seal_attempt Host.Handlers.attempt_fresh
    Host.Handlers.same_canonical Host.Handlers.attempt_known Host.Handlers.attempt_admitted
    Host.Handlers.attempt_now Host.Handlers.handle_attempt Host.Handlers.seal_outcome
    Host.Handlers.outcome_correlated Host.Handlers.outcome_unique Host.Handlers.outcome_digested
    Host.Handlers.outcome_admitted Host.Handlers.outcome_now Host.Handlers.record_outcome
    Host.Handlers.handle_outcome Reasons.text_of Session.run_numbered Session.numbering
    Session.Emission.new_action Session.Emission.wire_event Session.Emission.parse
    Session.Emission.stamp Session.Emission.build Session.Emission.emit_outcome
    Session.Emission.emit_aborted Session.Acting.send_attempt Session.Acting.abort
    Session.Acting.check_countersignature Session.Acting.check_record_hash Session.Acting.on_accept
    Session.Acting.on_answer Session.Acting.acquire Session.Acting.action
    Session.Lifecycle.succeeded Session.Lifecycle.mark_failed Session.Lifecycle.terminal_outcome
    Session.Lifecycle.dispose Session.Lifecycle.run_handler Session.Lifecycle.with_audit
    Session.InProcess.in_process Samples.Encoding.number_tag Samples.Encoding.encode_text
    Samples.Encoding.encode Samples.Encoding.encode_items Samples.Encoding.encode_members Base.has
    Base.add Base.lookup Base.insert Base.erase
query_is_hashed = refl

on_accept-first_failure_example :
    on_answer packages plain_session query sent_query (answered (accepted bad_accept)) started
    ≡ verdict plain_session query bad_accept
        (first_failure (rules plain_session bad_accept valid own_hash))
        started
on_accept-first_failure_example =
    on_accept-first_failure packages plain_session query sent_query bad_accept started started valid
      own_hash (uncountersigned refl) query_is_hashed
