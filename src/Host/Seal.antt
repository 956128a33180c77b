-- ===== src/Host/Seal.antt =====
-- Sealing: `#flag`, `#remember`, `#settleTail`, `#chainKnown` and `#seal` of src/host.ts.
use auditable_mcp_sdk_ts.Base.{
  ◌+◌, Bool, true, false, ◌&&◌, ◌||◌, not, Option, none, some, List, [], ◌∷◌, ◌++◌, Text, same_text,
  ◌==◌, if◌then◌else◌, add, lookup, insert, text_eq,
}
use auditable_mcp_sdk_ts.Base.Exec.{Result, ok, err, Exec, foreign}
use auditable_mcp_sdk_ts.Base.Exec.Run.{pure, raise, lift, gets, modify, ◌>>=◌, ◌>>◌}
use auditable_mcp_sdk_ts.Base.Exec.Try
use auditable_mcp_sdk_ts.Json.{Value, get, is_text, string_of}
use auditable_mcp_sdk_ts.Fields
use auditable_mcp_sdk_ts.Reasons.{Code}
use auditable_mcp_sdk_ts.Canonical.{Packages, canonicalize, sha256_hex}
use auditable_mcp_sdk_ts.Hashing.{countersignature_payload}
use auditable_mcp_sdk_ts.Models.{attempted}
use auditable_mcp_sdk_ts.Ledger
use auditable_mcp_sdk_ts.Ledger.{SealedRecord, commit}
use auditable_mcp_sdk_ts.Host.State.{
  Host, Session, World, Stored, stored, repository_error, other_error, Loaded, tail, load_error,
  load_threw, event_id,
}

-- `digestOf`
unfoldable pub digest_of : Packages → Value → Result Text
digest_of p event = Try.◌>>=◌ (canonicalize p event) (λ canonical. ok (sha256_hex p canonical))

unfoldable pub flag : Text → Code → Exec Host Unit
flag id kind =
    modify (λ h. record h { anomalies = h.anomalies ++ record { id = id; kind = kind } ∷ [] })

-- A change of one open session; a session that is not open is left alone.
abbrev pub change_in :
    Text → (Session → Session) → List (Text × Session) → Option Session → List (Text × Session)
change_in id f sessions none = sessions
change_in id f sessions (some s) = insert id (f s) sessions

unfoldable pub change_session : Text → (Session → Session) → Exec Host Unit
change_session id f =
    modify (λ h. record h { sessions = change_in id f h.sessions (lookup id h.sessions) })

abbrev pub is_attempt : Value → Bool
is_attempt event = is_text attempted (get Fields.outcome event)

abbrev pub remembered : SealedRecord → Text → Host → Host
remembered r digest h = record h {
  sealed_digests = add digest h.sealed_digests;
  sealed_attempts =
      if is_attempt r.event
      then insert (event_id r.event) r h.sealed_attempts
      else h.sealed_attempts;
}

-- `#remember`
unfoldable pub remember : Packages → SealedRecord → Exec Host Unit
remember p r = do digest ← lift (digest_of p r.event); modify (remembered r digest)

unfoldable pub commit_record : SealedRecord → Exec Host Unit
commit_record r = modify (λ h. record h { ledger = commit r h.ledger })

abbrev pub accept_in : Text → Session → Session
accept_in id s = record s { accepted = add id s.accepted }

-- The store's tail is the host's own: the record in doubt did not land.
unfoldable pub is_unchanged : Option SealedRecord → Ledger.Ledger → Bool
is_unchanged none l = l.count == 0
is_unchanged (some r) l = (r.seq + 1 == l.count) && same_text r.record_hash l.tail_hash

-- The store's tail is the record after it: it landed.
unfoldable pub continues : SealedRecord → Ledger.Ledger → Bool
continues r l = (r.seq == l.count) && same_text r.previous_hash l.tail_hash

abbrev pub settled : Exec Host Bool
settled = do modify (λ h. record h { tail_uncertain = false }); pure true

abbrev pub accept_adopted : Bool → Text → Text → Exec Host Unit
accept_adopted true session id = change_session session (accept_in id)
accept_adopted false session id = pure tt

-- The record that landed is adopted, and its attempt accepted in its session, if that is open.
unfoldable pub adopt : Packages → SealedRecord → Exec Host Bool
adopt p r = do
  commit_record r
  remember p r
  session ← lift (string_of p.to_text (get Fields.session_id r.event))
  accept_adopted (is_attempt r.event) session (event_id r.event)
  settled

unfoldable pub settle_with : Packages → Option SealedRecord → Bool → Host → Result Bool × Host
settle_with p t true h = settled h
settle_with p none false h = (ok false, h)
settle_with p (some r) false h = if continues r h.ledger then adopt p r h else (ok false, h)

-- `#settleTail`
unfoldable pub settle_tail : Packages → Loaded → Exec Host Bool
settle_tail p load_error h = (ok false, h)
settle_tail p load_threw h = (err foreign, h)
settle_tail p (tail t) h = settle_with p t (is_unchanged t h.ledger) h

-- `#chainKnown`
unfoldable pub chain_known : Packages → World → Exec Host Bool
chain_known p w = do
  known ← gets (λ h. not h.tail_uncertain || not h.config.has_repository)
  if known then pure true else settle_tail p w.load_tail

abbrev pub with_signature : Host → SealedRecord → Text → Option Text → Result (Option SealedRecord)
with_signature h r key none = ok none
with_signature h r key (some signature) = ok (
    some (record r {
      host_signature = some signature;
      host_key_id = some key;
      log_id = some h.config.log_id;
    }))

-- The countersignature, where the host holds a countersigner; `none` if that threw.
unfoldable pub countersign_with :
    Packages → World → Host → SealedRecord → Option Text → Result (Option SealedRecord)
countersign_with p w h r none = ok (some r)
countersign_with p w h r (some key) =
    Try.◌>>=◌
      (countersignature_payload p r.seq r.host_ts h.config.log_id r.previous_hash r.record_hash)
      (λ payload. with_signature h r key (w.sign payload))

unfoldable pub commit_and_remember : Packages → SealedRecord → Exec Host (Option SealedRecord)
commit_and_remember p r = do commit_record r; remember p r; pure (some r)

unfoldable pub after_append : Packages → SealedRecord → Stored → Exec Host (Option SealedRecord)
after_append p r stored = commit_and_remember p r
after_append p r repository_error = do modify (λ h. record h { tail_uncertain = true }); pure none
after_append p r other_error = raise foreign

unfoldable pub persist : Packages → World → Option SealedRecord → Exec Host (Option SealedRecord)
persist p w none = pure none
persist p w (some r) = do
  durable ← gets (λ h. h.config.has_repository)
  if durable then after_append p r (w.append r) else commit_and_remember p r

-- `#seal`; `none` on a persistence or a countersigning failure.
unfoldable pub seal : Packages → World → Value → Exec Host (Option SealedRecord)
seal p w event = do
  fresh ← gets (λ h. Ledger.seal p event w.now h.ledger)
  r ← lift fresh
  signed ← gets (λ h. countersign_with p w h r h.config.countersigner)
  complete ← lift signed
  persist p w complete
