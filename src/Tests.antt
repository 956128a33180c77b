-- ===== src/Tests.antt =====
-- Runs of a host and of the verifier on sample events, and the properties at them.
use auditable_mcp_sdk_ts.Base
use auditable_mcp_sdk_ts.Base.{
  Bool, ap, sym, ℕ, none, some, [], ◌∷◌, ◌++◌, lit, ◌≡◌, refl, Text, true, false, not, List, Option,
  ◌&&◌, ◌↔◌, has, nat_eq,
}
use auditable_mcp_sdk_ts.Base.Exec.{Result, ok, err}
use auditable_mcp_sdk_ts.Json
use auditable_mcp_sdk_ts.Canonical
use auditable_mcp_sdk_ts.Hashing
use auditable_mcp_sdk_ts.Models
use auditable_mcp_sdk_ts.Ledger
use auditable_mcp_sdk_ts.Transport
use auditable_mcp_sdk_ts.Verify
use auditable_mcp_sdk_ts.Host
use auditable_mcp_sdk_ts.Samples
use auditable_mcp_sdk_ts.Canonical.Surrogates.{lone_surrogate, IsWellFormed}
use auditable_mcp_sdk_ts.Ledger.{SealedRecord, digest}
use auditable_mcp_sdk_ts.Ledger.Chain.{IsChain, IsSound}
use auditable_mcp_sdk_ts.Ledger.Tamper.{SameChain}
use auditable_mcp_sdk_ts.Transport.{Response}
use auditable_mcp_sdk_ts.Samples.{
  packages, packages-HashLaws, attempt_a, success_a, refusal_b, level1, world, session_a,
}
use auditable_mcp_sdk_ts.Host.State.{Host, Disposition}
use auditable_mcp_sdk_ts.Host.Handlers.{handle_attempt, record_outcome, accept_of}
use auditable_mcp_sdk_ts.Host.Sessions.{open_session, resume}
use auditable_mcp_sdk_ts.Host.Reached.{Reaches, started, attempted, concluded, opened}
use auditable_mcp_sdk_ts.Host.Verified.{
  whole, resumed-IsSound, resumed-verify_chain, resumed-tamper_evident,
}
use auditable_mcp_sdk_ts.Host.Answers.{Answered}
use auditable_mcp_sdk_ts.Base.{lookup, text_eq}
use auditable_mcp_sdk_ts.Samples.{id_a}
use auditable_mcp_sdk_ts.Host.State.{Session}
use auditable_mcp_sdk_ts.Negotiation.{negotiate, transport_for, Posture, mandatory}
use auditable_mcp_sdk_ts.Negotiation
use auditable_mcp_sdk_ts.Negotiation.Fit.{IsFit, negotiate-IsFit, transport_for-routed}
use auditable_mcp_sdk_ts.Base.{◌⊎◌, ◌≢◌}
use auditable_mcp_sdk_ts.Host.State.{Capability}
use auditable_mcp_sdk_ts.Host.Concluded.{Concluded}
use auditable_mcp_sdk_ts.Host.Decisions.{handle_attempt-Answered}
use auditable_mcp_sdk_ts.Verify.Inputs.{Inputs, Report, default_adapter}
use auditable_mcp_sdk_ts.Verify.Report.{verify_chain}
use auditable_mcp_sdk_ts.Verify.Clean.{clean}
use auditable_mcp_sdk_ts.Verify.Verdict.{verify_chain-decides-IsChain}
use auditable_mcp_sdk_ts.Verify.Missing.{in_runs, is_exceeded, in_runs-missing_runs}
use auditable_mcp_sdk_ts.Verify.Runs.{missing_runs}
use auditable_mcp_sdk_ts.Verify.Step.{triple_of, full}
use auditable_mcp_sdk_ts.Verify.Throws.{verify_chain-throws}
use auditable_mcp_sdk_ts.Hashing.{compute_record_hash, genesis_hash}
use auditable_mcp_sdk_ts.Base.Exec.{not_canonical}
use auditable_mcp_sdk_ts.Canonical.Surrogates.{lone_surrogate-iff-IsWellFormed}
use auditable_mcp_sdk_ts.Ledger.Tamper.{digest-SameChain}
use auditable_mcp_sdk_ts.Verify.Readable.{
  HasText, Returns, IsReadable, CheckersReturn, default_adapter-IsReadable,
}
use auditable_mcp_sdk_ts.Verify.Returns.{verify_chain-Returns}

-- The host that is started over an empty store.
abbrev pub fresh : Host
fresh = record {
  config = record {
    partition = lit "p";
    log_id = lit "p";
    capability = record {
      spec_version = lit "auditable-mcp/0.4";
      level = Models.l1;
      countersign = Models.uncountersigned;
    };
    countersigner = none;
    has_repository = false;
  };
  persistence_available = true;
  ledger = record { partition = lit "p"; held = []; count = 0; tail_hash = Hashing.genesis_hash };
  sessions = [];
  issued = [];
  tail_uncertain = false;
  sealed_attempts = [];
  sealed_digests = [];
  rejected_ids = [];
  anomalies = [];
}

fresh-resumed : resume packages (lit "p") level1 [] [] ≡ ok fresh
unfolding Host.State.resolved Host.State.new_host Host.Sessions.remember_all
    Host.Sessions.restore_open Host.Sessions.open_attempts Host.Sessions.flag_unresolved
    Host.Sessions.flag_all Host.Sessions.resume_with Host.Sessions.resume Models.current_version
    Ledger.new_ledger Ledger.resume_from Hashing.genesis_hash
fresh-resumed = refl

-- One call: its session is opened, an attempt is sealed and then its outcome.
abbrev pub in_session : Host
in_session = (open_session session_a fresh).1

abbrev after_attempt : Host
after_attempt = (handle_attempt packages world attempt_a none none in_session).1

abbrev after_outcome : Host
after_outcome = (record_outcome packages world (some success_a) none after_attempt).1

after_outcome-Reaches : Reaches packages fresh after_outcome
after_outcome-Reaches =
    concluded world (some success_a) none tt
      (attempted world attempt_a none none tt (opened session_a started))

abbrev attempt_record : SealedRecord
attempt_record = record {
  event = attempt_a;
  seq = 0;
  host_ts = world.now;
  previous_hash = Hashing.genesis_hash;
  record_hash =
      1 ∷ Samples.Encoding.encode (Hashing.preimage attempt_a 0 world.now Hashing.genesis_hash) [];
  host_signature = none;
  host_key_id = none;
  log_id = none;
}

attempt_is_accepted :
    handle_attempt packages world attempt_a none none in_session
    ≡ (ok (accept_of attempt_record), after_attempt)
unfolding Host.Sessions.open_session Base.same_text Base.has Base.add Base.lookup Base.insert
    Base.list_beq Base.Regex.nullable Base.Regex.derive Base.Regex.matches Canonical.unsafe_number
    Canonical.has_unsafe_number Canonical.some_unsafe Canonical.some_member_unsafe
    Canonical.has_lone_surrogate Canonical.some_lone Canonical.some_member_lone
    Canonical.some_or_throw Canonical.canonicalize Canonical.sha256_hex Canonical.Surrogates.is_high
    Canonical.Surrogates.is_low Canonical.Surrogates.starts_low Canonical.Surrogates.lone_after
    Canonical.Surrogates.lone_surrogate Hashing.genesis_hash Hashing.preimage
    Hashing.compute_record_hash Hashing.countersignature_payload Json.find_member Json.get
    Json.type_of Json.string_of Json.strict_equal Models.current_version Models.attempted
    Models.success Models.failed Models.aborted Models.target_resource_schema Models.outcome_schema
    Models.abort_reason_schema Models.audit_event_fields Models.level2_together
    Models.aborted_has_reason Models.version_schema Models.audit_event_object
    Models.audit_event_schema Models.first_error Models.surrogate_error
    Models.first_validation_error Models.Patterns.session_id_regex Models.Patterns.uuid_regex
    Models.Patterns.datetime_regex Models.Patterns.chain_hash_regex
    Models.Patterns.context_hash_regex Models.Patterns.signature_regex
    Models.Patterns.salted_hash_regex Models.Schema.any_text Models.Schema.non_empty_text
    Models.Schema.text_matching Models.Schema.text_among Models.Schema.any_bool
    Models.Schema.safe_natural Models.Schema.any_object Models.Schema.known_name
    Models.Schema.all_known Models.Schema.fields_hold Models.Schema.strict_object Ledger.new_ledger
    Ledger.seal Ledger.commit Ledger.resume_from Transport.whole_triple Transport.accept
    Host.State.event_id Host.State.signed_number Host.State.resolved Host.State.new_host
    Host.Seal.digest_of Host.Seal.flag Host.Seal.change_session Host.Seal.remember
    Host.Seal.commit_record Host.Seal.is_unchanged Host.Seal.continues Host.Seal.adopt
    Host.Seal.settle_with Host.Seal.settle_tail Host.Seal.chain_known Host.Seal.countersign_with
    Host.Seal.commit_and_remember Host.Seal.after_append Host.Seal.persist Host.Seal.seal
    Host.Admit.open_session_of Host.Admit.session_of Host.Admit.well_shaped Host.Admit.admit
    Host.Admit.note_received Host.Admit.after_verify Host.Admit.verify_level2
    Host.Admit.verify_signature Host.Admit.tracked Host.Admit.check_replay Host.Admit.decide
    Host.Handlers.accept_of Host.Handlers.seal_attempt Host.Handlers.attempt_fresh
    Host.Handlers.same_canonical Host.Handlers.attempt_known Host.Handlers.attempt_admitted
    Host.Handlers.attempt_now Host.Handlers.handle_attempt Host.Handlers.seal_outcome
    Host.Handlers.outcome_correlated Host.Handlers.outcome_unique Host.Handlers.outcome_digested
    Host.Handlers.outcome_admitted Host.Handlers.outcome_now Host.Handlers.record_outcome
    Samples.Encoding.number_tag Samples.Encoding.encode_text Samples.Encoding.encode
    Samples.Encoding.encode_items Samples.Encoding.encode_members
attempt_is_accepted = refl

handle_attempt-Answered_example :
    Answered packages world attempt_a in_session (accept_of attempt_record) after_attempt
unfolding open_session has
handle_attempt-Answered_example =
    handle_attempt-Answered packages world attempt_a in_session none none after_attempt
      (accept_of attempt_record) refl attempt_is_accepted

abbrev waiting : Session
waiting = record { decided = []; received = []; accepted = id_a ∷ []; terminal = [] }

abbrev sample_inputs : Option Text → Inputs
sample_inputs anchored = record {
  anchored_digest = anchored;
  adapter = default_adapter;
  expected_principal = none;
  countersignature_checker = none;
  signature_checker = none;
  countersignature_required = false;
  expected_identity = none;
}

abbrev anchored_inputs : Inputs
anchored_inputs = sample_inputs (some (digest after_outcome.ledger))

abbrev good_report : Report
good_report = record {
  is_ok = true;
  count = 2;
  computed_digest = digest after_outcome.ledger;
  issues = [];
  unchecked = [];
  complete = true;
}

run_is_verified :
    verify_chain packages anchored_inputs ([] ++ after_outcome.ledger.held) ≡ ok good_report
unfolding Host.Sessions.open_session Base.same_text Base.has Base.add Base.lookup Base.insert
    Base.list_beq Base.Regex.nullable Base.Regex.derive Base.Regex.matches Canonical.unsafe_number
    Canonical.has_unsafe_number Canonical.some_unsafe Canonical.some_member_unsafe
    Canonical.has_lone_surrogate Canonical.some_lone Canonical.some_member_lone
    Canonical.some_or_throw Canonical.canonicalize Canonical.sha256_hex Canonical.Surrogates.is_high
    Canonical.Surrogates.is_low Canonical.Surrogates.starts_low Canonical.Surrogates.lone_after
    Canonical.Surrogates.lone_surrogate Hashing.genesis_hash Hashing.preimage
    Hashing.compute_record_hash Hashing.countersignature_payload Json.find_member Json.get
    Json.type_of Json.string_of Json.strict_equal Models.current_version Models.attempted
    Models.success Models.failed Models.aborted Models.target_resource_schema Models.outcome_schema
    Models.abort_reason_schema Models.audit_event_fields Models.level2_together
    Models.aborted_has_reason Models.version_schema Models.audit_event_object
    Models.audit_event_schema Models.first_error Models.surrogate_error
    Models.first_validation_error Models.Patterns.session_id_regex Models.Patterns.uuid_regex
    Models.Patterns.datetime_regex Models.Patterns.chain_hash_regex
    Models.Patterns.context_hash_regex Models.Patterns.signature_regex
    Models.Patterns.salted_hash_regex Models.Schema.any_text Models.Schema.non_empty_text
    Models.Schema.text_matching Models.Schema.text_among Models.Schema.any_bool
    Models.Schema.safe_natural Models.Schema.any_object Models.Schema.known_name
    Models.Schema.all_known Models.Schema.fields_hold Models.Schema.strict_object
    Models.Earlier.earlier_versions Models.Earlier.known_versions Models.Earlier.includes
    Models.Earlier.is_earlier_version Models.Earlier.earlier_shared_fields
    Models.Earlier.version01_event_schema Models.Earlier.version011_or_02_event_schema
    Models.Earlier.version03_event_schema Models.Earlier.earlier_event_schema
    Models.Earlier.first_sealed_validation_error Ledger.new_ledger Ledger.seal Ledger.commit
    Ledger.resume_from Transport.whole_triple Transport.accept Host.State.event_id
    Host.State.signed_number Host.State.resolved Host.State.new_host Host.Seal.digest_of
    Host.Seal.flag Host.Seal.change_session Host.Seal.remember Host.Seal.commit_record
    Host.Seal.is_unchanged Host.Seal.continues Host.Seal.adopt Host.Seal.settle_with
    Host.Seal.settle_tail Host.Seal.chain_known Host.Seal.countersign_with
    Host.Seal.commit_and_remember Host.Seal.after_append Host.Seal.persist Host.Seal.seal
    Host.Admit.open_session_of Host.Admit.session_of Host.Admit.well_shaped Host.Admit.admit
    Host.Admit.note_received Host.Admit.after_verify Host.Admit.verify_level2
    Host.Admit.verify_signature Host.Admit.tracked Host.Admit.check_replay Host.Admit.decide
    Host.Handlers.accept_of Host.Handlers.seal_attempt Host.Handlers.attempt_fresh
    Host.Handlers.same_canonical Host.Handlers.attempt_known Host.Handlers.attempt_admitted
    Host.Handlers.attempt_now Host.Handlers.handle_attempt Host.Handlers.seal_outcome
    Host.Handlers.outcome_correlated Host.Handlers.outcome_unique Host.Handlers.outcome_digested
    Host.Handlers.outcome_admitted Host.Handlers.outcome_now Host.Handlers.record_outcome
    Verify.Inputs.default_adapter Verify.Inputs.operation_key Verify.Inputs.is_session_scoped
    Verify.Runs.place Verify.Runs.sorted_set Verify.Runs.runs_from Verify.Runs.missing_runs
    Verify.Runs.insert_sorted Verify.Runs.sort Verify.Runs.account_one Verify.Runs.account
    Verify.Accounting.is_refusal_reason Verify.Accounting.is_refusal Verify.Accounting.group_event
    Verify.Accounting.group_events Verify.Accounting.group_gaps Verify.Accounting.gaps_of
    Verify.Accounting.listed Verify.Accounting.unaccounted_signer_seq Verify.Step.check_principal
    Verify.Step.triple_of Verify.Step.check_signature Verify.Step.check_identity
    Verify.Step.check_countersignature Verify.Step.correlation_key Verify.Step.correlate
    Verify.Step.number_key Verify.Step.check_number Verify.Step.check_level2
    Verify.Step.step_malformed Verify.Step.step_hashed Verify.Step.after_hash Verify.Step.step
    Verify.Report.run_steps Verify.Report.digest_issues Verify.Report.verify_chain
    Verify.Report.rank_in Verify.Report.version_rank Verify.Report.reported
    Verify.Report.schema_issues Verify.Report.with_schema_issues Verify.Report.verify_ledger
    Samples.Encoding.number_tag Samples.Encoding.encode_text Samples.Encoding.encode
    Samples.Encoding.encode_items Samples.Encoding.encode_members
run_is_verified = refl

resumed-IsSound_example : IsSound packages 0 Hashing.genesis_hash (whole [] after_outcome)
resumed-IsSound_example =
    resumed-IsSound packages (lit "p") level1 [] [] fresh after_outcome tt fresh-resumed
      after_outcome-Reaches

resumed-verify_chain_example :
    (clean good_report.issues ≡ true) × (good_report.computed_digest ≡ digest after_outcome.ledger)
resumed-verify_chain_example =
    resumed-verify_chain packages anchored_inputs (lit "p") level1 [] [] fresh after_outcome tt
      fresh-resumed after_outcome-Reaches run_is_verified

resumed-tamper_evident_example :
    SameChain packages ([] ++ after_outcome.ledger.held) ([] ++ after_outcome.ledger.held)
resumed-tamper_evident_example =
    resumed-tamper_evident packages packages-HashLaws anchored_inputs (lit "p") level1 [] [] fresh
      after_outcome ([] ++ after_outcome.ledger.held) tt fresh-resumed after_outcome-Reaches refl
      run_is_verified refl

verify_chain-decides-IsChain_example :
    (clean good_report.issues ≡ true)
    ↔ IsChain packages 0 Hashing.genesis_hash ([] ++ after_outcome.ledger.held)
verify_chain-decides-IsChain_example =
    verify_chain-decides-IsChain packages anchored_inputs ([] ++ after_outcome.ledger.held)
      run_is_verified

every_text : HasText packages.to_text
every_text v = (lit "[object Object]", refl)

-- A record whose position, link and stored hash are all wrong.
abbrev wrong_record : SealedRecord
wrong_record = record attempt_record { seq = 7; previous_hash = lit "x"; record_hash = lit "y" }

no_log_id : (t : Text) → none ≡ some t → ⊥
no_log_id t e = cc

attempt_a-IsReadable : IsReadable default_adapter attempt_a
attempt_a-IsReadable = default_adapter-IsReadable attempt_a (λ e. cc)

no_checkers : CheckersReturn (sample_inputs none)
no_checkers = record {
  countersignature_returns = λ check key signature payload e. absurd cc;
  signature_returns = λ check event e. absurd cc;
}

verify_chain-Returns_example :
    Returns (verify_chain packages (sample_inputs none) (wrong_record ∷ []))
verify_chain-Returns_example =
    verify_chain-Returns packages every_text (sample_inputs none) no_checkers (wrong_record ∷ [])
      refl (attempt_a-IsReadable, tt) ((λ log_id e. absurd (no_log_id log_id e)), tt)

-- A record that is countersigned for a partition whose name is a lone surrogate.
abbrev broken_record : SealedRecord
broken_record = record attempt_record {
  host_signature = some (lit "s");
  host_key_id = some (lit "k");
  log_id = some (0xd800 ∷ []);
}

abbrev checking_inputs : Inputs
checking_inputs = record (sample_inputs none) {
  countersignature_checker = some (λ key signature payload. ok true);
}

attempt_is_hashed :
    compute_record_hash packages attempt_a 0 world.now genesis_hash ≡ ok attempt_record.record_hash
unfolding Canonical.unsafe_number Canonical.has_unsafe_number Canonical.some_unsafe
    Canonical.some_member_unsafe Canonical.has_lone_surrogate Canonical.some_lone
    Canonical.some_member_lone Canonical.some_or_throw Canonical.canonicalize Canonical.sha256_hex
    Canonical.Surrogates.is_high Canonical.Surrogates.is_low Canonical.Surrogates.starts_low
    Canonical.Surrogates.lone_after Canonical.Surrogates.lone_surrogate Hashing.genesis_hash
    Hashing.preimage Hashing.compute_record_hash Hashing.countersignature_payload
    Samples.Encoding.number_tag Samples.Encoding.encode_text Samples.Encoding.encode
    Samples.Encoding.encode_items Samples.Encoding.encode_members
attempt_is_hashed = refl

broken_is_countersigned :
    triple_of broken_record.host_signature broken_record.host_key_id broken_record.log_id
    ≡ full (lit "s") (lit "k") (0xd800 ∷ [])
unfolding triple_of
broken_is_countersigned = refl

high_is_lone : lone_surrogate (0xd800 ∷ []) ≡ true
unfolding lone_surrogate Canonical.Surrogates.lone_after Canonical.Surrogates.is_high
    Canonical.Surrogates.is_low Canonical.Surrogates.starts_low
high_is_lone = refl

ok_true : (m : Result Bool) → ok true ≡ m → Returns m
ok_true m e = (true, sym e)

checking_inputs-CheckersReturn : CheckersReturn checking_inputs
checking_inputs-CheckersReturn = record {
  countersignature_returns = λ check key signature payload e.
      ok_true (check key signature payload)
        (ap (λ o. elim o [ some c ↦ c key signature payload | none ↦ ok true ]) e);
  signature_returns = λ check event e. absurd cc;
}

verify_chain-throws_example :
    verify_chain packages checking_inputs (broken_record ∷ []) ≡ err not_canonical
verify_chain-throws_example =
    verify_chain-throws packages checking_inputs every_text broken_record []
      attempt_record.record_hash (lit "s") (lit "k") (0xd800 ∷ [])
      (λ key signature payload. ok true) refl attempt_a-IsReadable checking_inputs-CheckersReturn
      attempt_is_hashed broken_is_countersigned refl high_is_lone

abbrev sample_values : List ℕ
sample_values = 5 ∷ 1 ∷ 2 ∷ []

in_runs-missing_runs_example :
    in_runs 3 (missing_runs sample_values)
    ≡ (not (has 3 sample_values) && is_exceeded 3 sample_values)
in_runs-missing_runs_example = in_runs-missing_runs 3 sample_values

lone_surrogate-iff-IsWellFormed_example :
    (lone_surrogate (lit "ok") ≡ false) ↔ IsWellFormed (lit "ok")
lone_surrogate-iff-IsWellFormed_example = lone_surrogate-iff-IsWellFormed (lit "ok")

attempt_record-IsChain : IsChain packages 0 genesis_hash (attempt_record ∷ [])
attempt_record-IsChain = (refl, refl, attempt_is_hashed, tt)

digest-SameChain_example : SameChain packages (attempt_record ∷ []) (attempt_record ∷ [])
digest-SameChain_example =
    digest-SameChain packages packages-HashLaws (attempt_record ∷ []) (attempt_record ∷ [])
      attempt_record-IsChain attempt_record-IsChain refl

abbrev plain_tool : Capability
plain_tool = record {
  spec_version = lit "auditable-mcp/0.4";
  level = Models.l2;
  countersign = Models.uncountersigned;
}

abbrev plain_host : Capability
plain_host = record plain_tool { level = Models.l1 }

negotiate-IsFit_example :
    ((negotiate (some plain_host) plain_tool).is_negotiated ≡ true) ↔ IsFit plain_tool plain_host
negotiate-IsFit_example = negotiate-IsFit plain_tool plain_host

-- A host that requires Level 2 of a Level 1 tool: the call goes to the fallback.
abbrev to_host : Text
to_host = lit "host"

abbrev to_self : Text
to_self = lit "self"

abbrev own : Option Text
own = some to_self

abbrev no_posture : Option Posture
no_posture = none

call_is_degraded :
    transport_for (negotiate (some plain_tool) plain_host) to_host own no_posture
    ≡ Negotiation.routed to_self
unfolding transport_for negotiate Negotiation.level_satisfies Negotiation.level_rank
    Negotiation.countersign_satisfies Negotiation.countersign_rank Base.same_text Base.list_beq
call_is_degraded = refl

transport_for-routed_example :
    (IsFit plain_host plain_tool × (to_host ≡ to_self))
    ⊎ ((own ≡ some to_self)
        × (plain_host.countersign ≡ Models.uncountersigned)
        × (no_posture ≢ some mandatory))
transport_for-routed_example =
    transport_for-routed plain_host plain_tool to_host own no_posture to_self call_is_degraded
