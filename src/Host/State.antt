-- ===== src/Host/State.antt =====
-- The state of an `AuditHost` of src/host.ts, what it asks of the code that is injected into it,
-- and its constructor.
use auditable_mcp_sdk_ts.Base.{
  ℕ, Bool, true, false, ◌&&◌, not, Option, none, some, List, [], ◌∷◌, Text, lit, is_some,
}
use auditable_mcp_sdk_ts.Base.Exec.{Result, ok, invalid_argument}
use auditable_mcp_sdk_ts.Base.Exec.Try.{◌>>◌, throw_if}
use auditable_mcp_sdk_ts.Json.{Value, integer, pos, num, get, as_text}
use auditable_mcp_sdk_ts.Fields
use auditable_mcp_sdk_ts.Reasons.{Code}
use auditable_mcp_sdk_ts.Models.{Level, l1, l2, Countersign, uncountersigned, host, current_version}
use auditable_mcp_sdk_ts.Ledger.{SealedRecord, Ledger, new_ledger}

-- `IntegrityAnomaly`; the wording of its detail is not modelled.
pub record Anomaly : Type 0 where
  pub id : Text
  pub kind : Code

-- `OutcomeDisposition`
pub data Disposition : Type 0 where
  sealed repeat refused not_recorded : Disposition

-- `Session`: the values of `signer_seq` decided and the highest received per key, the ids of the
-- attempts accepted, and per id the digest of the outcome that was sealed.
pub record Session : Type 0 where
  pub decided : List (Text × List ℕ)
  pub received : List (Text × ℕ)
  pub accepted : List Text
  pub terminal : List (Text × Text)

abbrev pub new_session : Session
new_session = record { decided = []; received = []; accepted = []; terminal = [] }

-- `AuditCapability`, without `attempt`, which has one value.
pub record Capability : Type 0 where
  pub spec_version : Text
  pub level : Level
  pub countersign : Countersign

-- The fields that do not change: whether a store was injected, and the `keyId` of the countersigner.
pub record Config : Type 0 where
  pub partition : Text
  pub log_id : Text
  pub capability : Capability
  pub countersigner : Option Text
  pub has_repository : Bool

pub record Host : Type 0 where
  pub config : Config
  pub persistence_available : Bool
  pub ledger : Ledger
  pub sessions : List (Text × Session)
  pub issued : List Text
  pub tail_uncertain : Bool
  pub sealed_attempts : List (Text × SealedRecord)
  pub sealed_digests : List Text
  pub rejected_ids : List Text
  pub anomalies : List Anomaly

-- What `SignatureVerifier.verify` did.
pub data Verdict : Type 0 where
  verified : Verdict
  unverified : Code → Verdict
  verifier_threw : Verdict

-- What `LedgerRepository.append` did.
pub data Stored : Type 0 where
  stored repository_error other_error : Stored

-- What `LedgerRepository.loadTail` returned or threw.
pub data Loaded : Type 0 where
  tail : Option SealedRecord → Loaded
  load_error : Loaded
  load_threw : Loaded

-- The injected code, as one call of the host meets it: it may answer otherwise at the next call.
pub record World : Type 0 where
  -- `Date.now()`, in milliseconds
  pub date_now : ℕ
  -- `clock.now()`
  pub now : Text
  pub verify : Value → Verdict
  -- `Countersigner.sign`; `none` if it threw
  pub sign : List ℕ → Option Text
  pub append : SealedRecord → Stored
  pub load_tail : Loaded

-- `eventId`
unfoldable pub event_id : Value → Text
event_id event = elim (as_text (get Fields.id event)) [ none ↦ lit "<unknown>" | some id ↦ id ]

abbrev pub natural_number : Option Value → Option ℕ
natural_number (some (num (integer (pos n)))) = some n
natural_number _ = none

-- `event[KEY_ID]` and `event[SIGNER_SEQ]`, where they are a string and a number. The schema admits
-- no `signer_seq` but a natural number.
abbrev both : Option Text → Option ℕ → Option (Text × ℕ)
both (some key) (some n) = some (key, n)
both _ _ = none

unfoldable pub signed_number : Value → Option (Text × ℕ)
signed_number event =
    both (as_text (get Fields.key_id event)) (natural_number (get Fields.signer_seq event))

-- The constructor's options: the members of the capability that were given, and what was injected.
pub record Options : Type 0 where
  pub spec_version : Option Text
  pub level : Option Level
  pub countersign : Option Countersign
  pub has_verifier : Bool
  pub countersigner : Option Text
  pub log_id : Option Text
  pub has_repository : Bool

abbrev pub get_or {ℓ} : {A : Type ℓ} → Option A → A → A
get_or none d = d
get_or (some a) d = a

abbrev is_empty : Text → Bool
is_empty [] = true
is_empty (u ∷ us) = false

abbrev pub is_l2 : Level → Bool
is_l2 l1 = false
is_l2 l2 = true

abbrev pub countersigns : Countersign → Bool
countersigns uncountersigned = false
countersigns host = true

-- `{ spec_version: SPEC_VERSION, level: L1, countersign: none, ...capability }`
unfoldable pub resolved : Options → Capability
resolved o = record {
  spec_version = get_or o.spec_version current_version;
  level = get_or o.level l1;
  countersign = get_or o.countersign uncountersigned;
}

unfoldable pub new_host : Text → Options → Result Host
new_host partition o = do
  let capability = resolved o
  throw_if (is_empty capability.spec_version) invalid_argument
  throw_if (is_l2 capability.level && not o.has_verifier) invalid_argument
  throw_if (countersigns capability.countersign && not (is_some o.countersigner)) invalid_argument
  throw_if (not (countersigns capability.countersign) && is_some o.countersigner) invalid_argument
  ok (record {
    config = record {
      partition = partition;
      log_id = get_or o.log_id partition;
      capability = capability;
      countersigner = o.countersigner;
      has_repository = o.has_repository;
    };
    persistence_available = true;
    ledger = new_ledger partition;
    sessions = [];
    issued = [];
    tail_uncertain = false;
    sealed_attempts = [];
    sealed_digests = [];
    rejected_ids = [];
    anomalies = [];
  })
