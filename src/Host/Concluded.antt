-- ===== src/Host/Concluded.antt =====
-- What may become of an outcome, and the step of `recordOutcome` that seals it.
use auditable_mcp_sdk_ts.Base.{
  Bool, true, false, ◌||◌, Option, none, some, List, Text, ◌≡◌, refl, ◌∙◌, ap, arith, lookup,
  text_eq, if◌then◌else◌,
}
use auditable_mcp_sdk_ts.Base.Exec.{ok, Exec}
use auditable_mcp_sdk_ts.Base.Exec.Run.{pure, ◌>>◌, >>=-eq-ok}
use auditable_mcp_sdk_ts.Base.Exec.Keeps.{Keeps}
use auditable_mcp_sdk_ts.Json.{Value, get, as_text, is_text}
use auditable_mcp_sdk_ts.Fields
use auditable_mcp_sdk_ts.Canonical.{Packages}
use auditable_mcp_sdk_ts.Models.{aborted}
use auditable_mcp_sdk_ts.Ledger.{SealedRecord, commit}
use auditable_mcp_sdk_ts.Ledger.Chain.{Continues}
use auditable_mcp_sdk_ts.Host.State.{
  Host, Session, World, Disposition, sealed, not_recorded, event_id,
}
use auditable_mcp_sdk_ts.Host.Seal.{flag, change_session}
use auditable_mcp_sdk_ts.Host.Admit.{
  admitted, admit, admit_session, session_of, open_session_of, well_shaped, refuse_shape, decide,
}
use auditable_mcp_sdk_ts.Host.Handlers.{seal_if, is_accepted, terminal_of, terminal_in, conclude}
use auditable_mcp_sdk_ts.Host.Frame.{Frame, Frame-refl, change_session-Frame, decide-Frame}
use auditable_mcp_sdk_ts.Host.Marks.{Marks}
use auditable_mcp_sdk_ts.Host.Sealing.{seal-some, seal-none}
use auditable_mcp_sdk_ts.Host.Answers.{Yields, Yields-then, Yields-pure, kept_by}

abbrev pub is_sealed : Disposition → Bool
is_sealed sealed = true
is_sealed _ = false

open_session_of-some :
    (o expected : Option Text) (sessions : List (Text × Session)) (session : Text)
    → open_session_of o expected sessions ≡ some session
    → o ≡ some session
unfolding open_session_of
open_session_of-some none expected sessions session q = cc
open_session_of-some (some named) expected sessions session q = ground arith

admit_session-admitted :
    (event : Value) (o : Option Text) (session : Text) (h h' : Host)
    → admit_session event o h ≡ (ok (admitted session), h')
    → o ≡ some session
unfolding flag
admit_session-admitted event none session h h' q = cc
admit_session-admitted event (some named) session h h' q = ground arith

admit_if :
    (event : Value) (expected : Option Text) (session : Text) (h h' : Host) (shaped : Bool)
    → (if shaped then session_of event expected else refuse_shape event) h
      ≡ (ok (admitted session), h')
    → as_text (get Fields.session_id event) ≡ some session
unfolding session_of flag
admit_if event expected session h h' true q =
    let named = as_text (get Fields.session_id event) in
    open_session_of-some named expected h.sessions session
      (admit_session-admitted event (open_session_of named expected h.sessions) session h h' q)
admit_if event expected session h h' false q = cc

-- An event is admitted to the session that it names.
pub admit-names :
    (event : Value) (expected : Option Text) (attempt : Bool) (session : Text) (h h' : Host)
    → admit event expected attempt h ≡ (ok (admitted session), h')
    → as_text (get Fields.session_id event) ≡ some session
unfolding admit
admit-names event expected attempt session h h' q =
    admit_if event expected session h h' (well_shaped event attempt) q

-- What becomes of an outcome, given the host `h0` that took it up.
pub data Concluded (p : Packages) (w : World) (event : Value) (h0 : Host)
    : Disposition → Host → Type 0 where
  -- not sealed: the chain is as it was
  unsealed :
      {d : Disposition} {h : Host}
      → is_sealed d ≡ false
      → h.ledger ≡ h0.ledger
      → Concluded p w event h0 d h
  -- sealed: its session names an attempt that was accepted or the outcome is `aborted`, its operation
  -- had no outcome, and the record of it is at the end of the chain
  concluded :
      {h : Host} (r : SealedRecord) (session : Text)
      → as_text (get Fields.session_id event) ≡ some session
      → (is_accepted (event_id event) (lookup session h0.sessions)
          || is_text aborted (get Fields.outcome event))
        ≡ true
      → terminal_of (event_id event) (lookup session h0.sessions) ≡ none
      → r.event ≡ event
      → r.host_ts ≡ w.now
      → Continues p h0.ledger r
      → h.ledger ≡ commit r h0.ledger
      → Concluded p w event h0 sealed h

module _ (p : Packages) (w : World) (event : Value) (h0 : Host) where
  abbrev pub Concludes : Exec Host Disposition → Type 0
  Concludes m = Yields (Marks h0) m (Concluded p w event h0)

  pub unsealed_by : (d : Disposition) → is_sealed d ≡ false → Concludes (pure d)
  unsealed_by d e = Yields-pure (Marks h0) (Concluded p w event h0) d (λ h m. unsealed e m.0.0)

  pub then_unsealed :
      (m : Exec Host (Unit {0})) (n : Exec Host Disposition)
      → Keeps (Marks h0) m
      → Concludes n
      → Concludes (m >> n)
  then_unsealed m n k y = Yields-then (Marks h0) (Concluded p w event h0) m n k y

  conclude-ledger :
      (session digest : Text) (r : SealedRecord) (h h' : Host) {d : Disposition}
      → conclude event session digest (some r) h ≡ (ok d, h')
      → (h'.ledger ≡ h.ledger) × (sealed ≡ d)
  conclude-ledger session digest r h h' {d} q =
      let put = change_session session (terminal_in (event_id event) digest) in
      let (u, s, e, k) = >>=-eq-ok (decide event session) (λ _. put >> pure sealed) h q in
      let f =
        kept_by (Frame h) (decide event session) (decide-Frame h event session) (Frame-refl h) e in
      let (u', s', e', k') = >>=-eq-ok put (λ _. pure sealed) s k in
      let f' =
        kept_by (Frame s) put (change_session-Frame s session (terminal_in (event_id event) digest))
          (Frame-refl s) e' in
      let same : s' ≡ h' = ap (λ x. x.1) k' in (rw same at (f'.0 ∙ f.0), ground arith)

  pub sealed_if :
      (session digest : Text) (h s : Host) (o : Option SealedRecord) (available : Bool)
      → Marks h0 h
      → as_text (get Fields.session_id event) ≡ some session
      → (is_accepted (event_id event) (lookup session h0.sessions)
          || is_text aborted (get Fields.outcome event))
        ≡ true
      → terminal_of (event_id event) (lookup session h0.sessions) ≡ none
      → seal_if p w event available h ≡ (ok o, s)
      → {d : Disposition} {h' : Host} → conclude event session digest o s ≡ (ok d, h')
      → Concluded p w event h0 d h'
  sealed_if session digest h s none false m named may new e {d} {h'} k =
      let same : h ≡ s = ap (λ x. x.1) e in
      let same' : s ≡ h' = ap (λ x. x.1) k in
      let lost : not_recorded ≡ d = ground arith in
      unsealed (rw (← lost) refl) (rw (← same', ← same) m.0.0)
  sealed_if session digest h s (some r) false m named may new e k = absurd cc
  sealed_if session digest h s none true m named may new e {d} {h'} k =
      let same' : s ≡ h' = ap (λ x. x.1) k in
      let lost : not_recorded ≡ d = ground arith in
      unsealed (rw (← lost) refl) (rw (← same') ((seal-none p w event h s e).0 ∙ m.0.0))
  sealed_if session digest h s (some r) true m named may new e {d} {h'} k =
      let made = seal-some p w event r h s e in
      let (kept, answer) = conclude-ledger session digest r s h' k in
      rw (← answer) (
        concluded r session named may new made.event_is made.time_is (rw m.0.0 at made.continues)
          (kept ∙ made.committed.ledger ∙ ap (commit r) m.0.0))
