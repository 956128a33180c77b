-- ===== src/Session/Emission.antt =====
-- Building, signing and emitting the events of an operation: `AuditedAction` and `toWire` of
-- src/session.ts.
use auditable_mcp_sdk_ts.Base.{ℕ, Bool, false, Option, none, some, Text, if◌then◌else◌}
use auditable_mcp_sdk_ts.Base.Exec.{Result, ok, err, Exec, foreign}
use auditable_mcp_sdk_ts.Base.Exec.Run.{pure, lift, ◌>>=◌}
use auditable_mcp_sdk_ts.Base.Exec.Try
use auditable_mcp_sdk_ts.Json.{Value, bool, str, obj, Members, end, member}
use auditable_mcp_sdk_ts.Fields
use auditable_mcp_sdk_ts.Reasons.{Code, text_of}
use auditable_mcp_sdk_ts.Canonical.{Packages, hash_canonical}
use auditable_mcp_sdk_ts.Models
use auditable_mcp_sdk_ts.Models.{audit_event_schema, current_version}
use auditable_mcp_sdk_ts.Transport.{Acceptance}
use auditable_mcp_sdk_ts.Crypto.SaltedHash.{JsonText, salt_of, disclosure_of, salted_hash_of}
use auditable_mcp_sdk_ts.Session.{Sign, Session, Call, calls, numbering}

-- `ActionOptions`
pub record ActionOptions : Type 0 where
  pub mutates : Bool
  pub egress : Bool
  pub disclose : Option Members
  pub commit : Option Value
  pub commit_salted : Option Members

-- `'success' | 'failed'`
pub data Mark : Type 0 where
  success failed : Mark

-- `AuditedAction`, without its session.
pub record Action : Type 0 where
  pub id : Text
  pub action_type : Text
  pub target : Value
  pub options : ActionOptions
  pub commit_hash : Option Text
  pub disclosure : Option Text
  pub salted_hash : Option Text
  pub accept : Option Acceptance
  pub outcome : Option Mark
  pub finished : Bool

abbrev map_option : {A B : Type 0} → (A → B) → Option A → Option B
map_option f none = none
map_option f (some a) = some (f a)

abbrev hash_of : Packages → Option Value → Result (Option Text)
hash_of p none = ok none
hash_of p (some v) = Try.◌>>=◌ (hash_canonical p v) (λ h. ok (some h))

-- `disclosureOf(newSalt(), …)`
abbrev disclosed :
    {T : Type 0} → Packages → JsonText → Session T → Option Members → Exec (Call T) (Option Text)
disclosed p j s none = pure none
disclosed p j s (some context) = do
  bytes ← calls s.outside.random_bytes
  pure (some (disclosure_of p j (salt_of bytes) context))

-- The constructor of `AuditedAction`.
unfoldable pub new_action :
    {T : Type 0}
    → Packages
    → JsonText
    → Session T
    → Text
    → Text
    → Value
    → ActionOptions
    → Exec (Call T) Action
new_action p j s id action_type target o = do
  commit_hash ← lift (hash_of p o.commit)
  disclosure ← disclosed p j s o.commit_salted
  pure (record {
    id = id;
    action_type = action_type;
    target = target;
    options = o;
    commit_hash = commit_hash;
    disclosure = disclosure;
    salted_hash = map_option (salted_hash_of p) disclosure;
    accept = none;
    outcome = none;
    finished = false;
  })

-- A member that `toWire` drops where its value is `undefined`.
abbrev pub optional : Text → Option Value → Members → Members
optional name none rest = rest
optional name (some v) rest = member name v rest

-- `toWire(…)` of the object that `_build` writes; the order of its members is the schema's.
unfoldable pub wire_event : {T : Type 0} → Session T → Action → Text → Text → Option Text → Value
wire_event s a ts outcome reason = obj (
    member Fields.spec_version (str current_version) (
      member Fields.session_id (str s.session_id) (
        member Fields.ts (str ts) (
          member Fields.id (str a.id) (
            member Fields.action_type (str a.action_type) (
              member Fields.mutates (bool a.options.mutates) (
                member Fields.egress (bool a.options.egress) (
                  member Fields.target_resource a.target (
                    member Fields.outcome (str outcome) (
                      optional Fields.reason (map_option str reason) (
                        optional Fields.action_context (map_option obj a.options.disclose) (
                          optional Fields.action_context_hash (map_option str a.commit_hash) (
                            optional Fields.action_context_salted_hash
                              (map_option str a.salted_hash) end)))))))))))))

-- `schema.parse(value)`, which throws the schema library's error.
unfoldable pub parse : (Value → Bool) → Value → Result Value
parse schema v = if schema v then ok v else err foreign

abbrev pub stamp_with : {T : Type 0} → Option (Sign T) → Value → Option ℕ → Exec (Call T) Value
stamp_with (some sign) event (some signer_seq) = calls (sign event signer_seq)
stamp_with _ event _ = pure event

-- `_stamp`
unfoldable pub stamp : {T : Type 0} → Session T → Value → Option ℕ → Exec (Call T) Value
stamp s event signer_seq = stamp_with s.signer event signer_seq

-- `_build`
unfoldable pub build :
    {T : Type 0} → Session T → Action → Text → Option ℕ → Option Text → Exec (Call T) Value
build s a outcome signer_seq reason = do
  ts ← calls s.outside.now
  event ← lift (parse audit_event_schema (wire_event s a ts outcome reason))
  stamp s event signer_seq

-- `_emitOutcome`
unfoldable pub emit_outcome :
    {T : Type 0} → Session T → Action → Text → Option Text → Exec (Call T) Unit
emit_outcome s a outcome reason = numbering s (λ signer_seq. do
  event ← build s a outcome signer_seq reason
  calls (s.outside.send_outcome event))

-- `try { … } catch (error) { console.error(…) }`
abbrev pub best_effort : {S : Type 0} → Exec S Unit → Exec S Unit
best_effort m s = (ok tt, (m s).1)

-- `_emitAbortedBestEffort`
unfoldable pub emit_aborted : {T : Type 0} → Session T → Action → Code → Exec (Call T) Unit
emit_aborted s a reason = best_effort (emit_outcome s a Models.aborted (some (text_of reason)))
