-- ===== src/Host/Sessions.antt =====
-- Audit sessions and restarts: `openSession`, `closeSession`, `withSession`, `signerTracker` and
-- `resume` of src/host.ts.
use auditable_mcp_sdk_ts.Base.{
  ℕ, Bool, true, false, ◌&&◌, ◌||◌, not, Option, none, some, List, [], ◌∷◌, Text, ltb, ◌==◌,
  if◌then◌else◌, has, add, lookup, insert, erase, text_eq, nat_eq, texts_eq, is_some, last?, filter,
  map,
}
use auditable_mcp_sdk_ts.Base.Exec.{Result, ok, err, Exec, invalid_argument}
use auditable_mcp_sdk_ts.Base.Exec.Try
use auditable_mcp_sdk_ts.Base.Exec.Run.{pure, lift, gets, modify, ◌>>=◌, ◌>>◌}
use auditable_mcp_sdk_ts.Json.{Value, get, is_text, as_text, string_of}
use auditable_mcp_sdk_ts.Fields
use auditable_mcp_sdk_ts.Reasons.{unresolved_attempt}
use auditable_mcp_sdk_ts.Canonical.{Packages}
use auditable_mcp_sdk_ts.Models.{current_version}
use auditable_mcp_sdk_ts.Ledger.{SealedRecord, resume_from}
use auditable_mcp_sdk_ts.Host.State.{
  Host, Session, new_session, event_id, signed_number, Options, new_host, get_or,
}
use auditable_mcp_sdk_ts.Host.Seal.{flag, is_attempt, remember, digest_of, accept_in}
use auditable_mcp_sdk_ts.Verify.Runs.{sort}

-- `openSession`; the id is the caller's, or a fresh UUID.
unfoldable pub open_session : Text → Exec Host Text
open_session id h =
    if has id h.issued
    then (err invalid_argument, h)
    else (ok id, record h { issued = add id h.issued; sessions = insert id new_session h.sessions })

-- `<` on strings: by code units.
unfoldable pub before : Text → Text → Bool
before [] [] = false
before [] (v ∷ vs) = true
before (u ∷ us) [] = false
before (u ∷ us) (v ∷ vs) = ltb u v || ((u == v) && before us vs)

unfoldable pub insert_text : Text → List Text → List Text
insert_text t [] = t ∷ []
insert_text t (u ∷ us) = if before u t then u ∷ insert_text t us else t ∷ u ∷ us

-- `.sort()` on strings
unfoldable pub sort_texts : List Text → List Text
sort_texts [] = []
sort_texts (t ∷ ts) = insert_text t (sort_texts ts)

-- The attempts that a session accepted and that have no sealed outcome.
unfoldable pub unresolved : Session → List Text
unresolved s = sort_texts (filter (λ id. not (is_some (lookup id s.terminal))) s.accepted)

unfoldable pub flag_all : List Text → Exec Host Unit
flag_all [] = pure tt
flag_all (id ∷ ids) = do flag id unresolved_attempt; flag_all ids

abbrev pub close_open : Text → Option Session → Exec Host Unit
close_open id none = pure tt
close_open id (some s) = do
  modify (λ h. record h { sessions = erase id h.sessions })
  flag_all (unresolved s)

-- `closeSession`
unfoldable pub close_session : Text → Exec Host Unit
close_session id = do session ← gets (λ h. lookup id h.sessions); close_open id session

-- The `finally`: the session is closed, and then the body's own result or exception goes on.
abbrev pub after_close : {A : Type 0} → Result A → Result (Unit {0}) × Host → Result A × Host
after_close r (ok u, h) = (r, h)
after_close r (err e, h) = (err e, h)

unfoldable pub with_issued : {A : Type 0} → Text → (Text → Exec Host A) → Host → Result A × Host
with_issued id body h = let (r, h') = body id h in after_close r (close_session id h')

-- `withSession`
unfoldable pub with_session : {A : Type 0} → (Text → Exec Host A) → Text → Exec Host A
with_session body id = do issued ← open_session id; with_issued issued body

-- `SignerTracker`
pub record Tracker : Type 0 where
  pub decided : List (Text × List ℕ)
  pub received : List (Text × ℕ)

abbrev pub sorted_values : Text × List ℕ → Text × List ℕ
sorted_values (key, values) = (key, sort values)

-- `signerTracker`
unfoldable pub signer_tracker : Text → Host → Option Tracker
signer_tracker id h = elim (lookup id h.sessions) [
  | none ↦ none
  | some s ↦ some (record { decided = map sorted_values s.decided; received = s.received })
]

abbrev pub greater : ℕ → ℕ → ℕ
greater a b = if ltb a b then b else a

abbrev pub restore_number : Option (Text × ℕ) → Session → Session
restore_number none s = s
restore_number (some (key, n)) s = record s {
  decided = insert key (add n (get_or (lookup key s.decided) [])) s.decided;
  received = insert key (greater (get_or (lookup key s.received) n) n) s.received;
}

abbrev pub restore_outcome : Bool → Text → Text → Session → Session
restore_outcome true id digest s = accept_in id s
restore_outcome false id digest s = record s { terminal = insert id digest s.terminal }

-- A sealed event that the restored session is built from.
unfoldable pub belongs : Text → Value → Bool
belongs session event =
    is_text session (get Fields.session_id event)
    && is_text current_version (get Fields.spec_version event)

abbrev pub digest_if : Bool → Packages → Value → Result Text
digest_if true p event = ok []
digest_if false p event = digest_of p event

-- `restoredSession`
unfoldable pub restored_session : Packages → Text → List SealedRecord → Session → Result Session
restored_session p id [] s = ok s
restored_session p id (r ∷ rs) s = elim (belongs id r.event) [
  | false ↦ restored_session p id rs s
  | true ↦ Try.◌>>=◌ (digest_if (is_attempt r.event) p r.event) (λ digest.
      restored_session p id rs (
        restore_outcome (is_attempt r.event) (event_id r.event) digest
          (restore_number (signed_number r.event) s)))
]

-- `OpenSession`
pub record OpenSession : Type 0 where
  pub session_id : Text
  pub signers : Option Tracker

unfoldable pub add_all : List ℕ → List ℕ → List ℕ
add_all [] s = s
add_all (n ∷ ns) s = add_all ns (add n s)

unfoldable pub merge_decided : List (Text × List ℕ) → Session → Session
merge_decided [] s = s
merge_decided ((key, values) ∷ more) s = merge_decided more (record s {
  decided = insert key (add_all values (get_or (lookup key s.decided) [])) s.decided;
})

unfoldable pub merge_received : List (Text × ℕ) → Session → Session
merge_received [] s = s
merge_received ((key, n) ∷ more) s =
    merge_received more
      (record s { received = insert key (greater (get_or (lookup key s.received) n) n) s.received })

unfoldable pub merge_tracker : Option Tracker → Session → Session
merge_tracker none s = s
merge_tracker (some t) s = merge_received t.received (merge_decided t.decided s)

unfoldable pub restore_open : Packages → List SealedRecord → List OpenSession → Exec Host Unit
restore_open p records [] = pure tt
restore_open p records (o ∷ os) = do
  modify (λ h. record h { issued = add o.session_id h.issued })
  session ← lift (restored_session p o.session_id records new_session)
  modify (λ h. record h {
    sessions = insert o.session_id (merge_tracker o.signers session) h.sessions;
  })
  restore_open p records os

abbrev pub issue_named : Option Text → Exec Host Unit
issue_named none = pure tt
issue_named (some id) = modify (λ h. record h { issued = add id h.issued })

unfoldable pub remember_all : Packages → List SealedRecord → Exec Host Unit
remember_all p [] = pure tt
remember_all p (r ∷ rs) = do
  remember p r
  issue_named (as_text (get Fields.session_id r.event))
  remember_all p rs

-- The attempts with no outcome after them, by session and id, in the order of a `Map`.
abbrev pub change_attempt :
    Bool → List Text → Text → List (List Text × Text) → List (List Text × Text)
change_attempt true key id m = insert key id m
change_attempt false key id m = erase key m

-- The session of a record whose call has ended.
unfoldable pub ended_session : List Text → Value → Option Text
ended_session opened event = elim (as_text (get Fields.session_id event)) [
  | none ↦ none
  | some session ↦
      if is_text current_version (get Fields.spec_version event) && not (has session opened)
      then some session
      else none
]

unfoldable pub open_attempts :
    Packages
    → List Text
    → List SealedRecord
    → List (List Text × Text)
    → Result (List (List Text × Text))
open_attempts p opened [] m = ok m
open_attempts p opened (r ∷ rs) m = elim (ended_session opened r.event) [
  | none ↦ open_attempts p opened rs m
  | some session ↦ Try.◌>>=◌ (string_of p.to_text (get Fields.id r.event)) (λ id.
      open_attempts p opened rs (change_attempt (is_attempt r.event) (session ∷ id ∷ []) id m))
]

abbrev pub ids_of : List (List Text × Text) → List Text
ids_of = map (λ (e : List Text × Text). e.1)

-- `#flagUnresolved`
unfoldable pub flag_unresolved : Packages → List SealedRecord → List Text → Exec Host Unit
flag_unresolved p records opened = do
  left ← lift (open_attempts p opened records [])
  flag_all (ids_of left)

-- What `resume` does to the new host, given what the store holds.
unfoldable pub resume_with : Packages → List SealedRecord → List OpenSession → Exec Host Unit
resume_with p records os = do
  modify (λ h. record h { ledger = resume_from (last? records) h.ledger })
  remember_all p records
  restore_open p records os
  flag_unresolved p records (map (λ (o : OpenSession). o.session_id) os)

abbrev pub resumed : Result (Unit {0}) × Host → Result Host
resumed (ok u, h) = ok h
resumed (err e, h) = err e

-- `resume`
unfoldable pub resume :
    Packages → Text → Options → List SealedRecord → List OpenSession → Result Host
resume p partition options records os =
    Try.◌>>=◌ (new_host partition options) (λ h. resumed (resume_with p records os h))
