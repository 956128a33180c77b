-- ===== src/Host/Answers.antt =====
-- What a host answers an attempt, on every path through `handleAttempt`, and what it then holds.
use auditable_mcp_sdk_ts.Base.{
  Bool, true, false, Option, none, some, Text, ◌≡◌, refl, ◌∙◌, ap, arith, lookup, text_eq,
}
use auditable_mcp_sdk_ts.Base.Exec.{ok, Exec}
use auditable_mcp_sdk_ts.Base.Exec.Run.{pure, ◌>>=◌, ◌>>◌, >>=-eq-ok}
use auditable_mcp_sdk_ts.Base.Exec.Keeps.{Keeps}
use auditable_mcp_sdk_ts.Json.{Value}
use auditable_mcp_sdk_ts.Canonical.{Packages}
use auditable_mcp_sdk_ts.Transport.{Response, accepted, unavailable}
use auditable_mcp_sdk_ts.Ledger.{SealedRecord, commit}
use auditable_mcp_sdk_ts.Ledger.Chain.{Continues}
use auditable_mcp_sdk_ts.Host.State.{Host, World, event_id}
use auditable_mcp_sdk_ts.Host.Seal.{change_session, accept_in}
use auditable_mcp_sdk_ts.Host.Admit.{decide}
use auditable_mcp_sdk_ts.Host.Handlers.{accept_of, same_canonical, accept_sealed, seal_if}
use auditable_mcp_sdk_ts.Host.Frame.{Frame, Frame-refl, change_session-Frame, decide-Frame}
use auditable_mcp_sdk_ts.Host.Sealing.{seal-some, seal-none}

abbrev pub is_accept : Response → Bool
is_accept (accepted a) = true
is_accept _ = false

-- The answers to an attempt, given the host `h0` that took it up.
pub data Answered (p : Packages) (w : World) (event : Value) (h0 : Host)
    : Response → Host → Type 0 where
  -- not accepted: the chain is as it was
  turned_away :
      {r : Response} {h : Host}
      → is_accept r ≡ false
      → h.ledger ≡ h0.ledger
      → Answered p w event h0 r h
  -- its id is sealed with the same canonical event: the answer is that of the sealed record
  repeated :
      {h : Host} (r : SealedRecord)
      → lookup (event_id event) h0.sealed_attempts ≡ some r
      → same_canonical p r.event event ≡ ok true
      → h.ledger ≡ h0.ledger
      → Answered p w event h0 (accept_of r) h
  -- its id is new: the record of it is at the end of the chain
  recorded :
      {h : Host} (r : SealedRecord)
      → lookup (event_id event) h0.sealed_attempts ≡ none
      → r.event ≡ event
      → r.host_ts ≡ w.now
      → Continues p h0.ledger r
      → h.ledger ≡ commit r h0.ledger
      → Answered p w event h0 (accept_of r) h

-- What holds of what a method returns, where `P` holds before it.
pub record Yields {A : Type 0} (P : Host → Type 0) (m : Exec Host A) (Q : A → Host → Type 0)
    : Type 0 where
  pub at : (h : Host) → P h → {a : A} {h' : Host} → m h ≡ (ok a, h') → Q a h'

pub kept_by :
    {A : Type 0} (P : Host → Type 0) (m : Exec Host A) {h h' : Host} {a : A}
    → Keeps P m
    → P h
    → m h ≡ (ok a, h')
    → P h'
kept_by P m {h} k b q = rw (ap (λ x. x.1) q) at (k.at h b)

module _ {A B : Type 0} (P : Host → Type 0) (Q : B → Host → Type 0) where
  pub Yields-bind :
      (m : Exec Host A) (f : A → Exec Host B)
      → Keeps P m
      → ((a : A) → Yields P (f a) Q)
      → Yields P (m >>= f) Q
  Yields-bind m f k y = record {
    at = λ h b q. let (a, s, e, r) = >>=-eq-ok m f h q in (y a).at s (kept_by P m k b e) r;
  }

module _ {B : Type 0} (P : Host → Type 0) (Q : B → Host → Type 0) where
  pub Yields-then :
      (m : Exec Host (Unit {0})) (n : Exec Host B) → Keeps P m → Yields P n Q → Yields P (m >> n) Q
  Yields-then m n k y = Yields-bind P Q m (λ _. n) k (λ _. y)

  returned : (b b' : B) (h h' : Host) → Q b h → pure b h ≡ (ok b', h') → Q b' h'
  returned b b' h h' k q =
      let eb : b ≡ b' = ground arith in let eh : h ≡ h' = ap (λ x. x.1) q in rw (eb, eh) at k

  pub Yields-pure : (b : B) → ((h : Host) → P h → Q b h) → Yields P (pure b) Q
  Yields-pure b k = record { at = λ h x {a = b'} {h'} q. returned b b' h h' (k h x) q }

module _ (p : Packages) (w : World) (event : Value) (h0 : Host) where
  abbrev pub Answers : Exec Host Response → Type 0
  Answers m = Yields (Frame h0) m (Answered p w event h0)

  pub away : (r : Response) → is_accept r ≡ false → Answers (pure r)
  away r e = Yields-pure (Frame h0) (Answered p w event h0) r (λ h f. turned_away e f.0)

  pub then_away :
      (m : Exec Host (Unit {0})) (r : Response)
      → Keeps (Frame h0) m
      → is_accept r ≡ false
      → Answers (m >> pure r)
  then_away m r k e = Yields-then (Frame h0) (Answered p w event h0) m (pure r) k (away r e)

  -- After the record was committed, the decision and the acceptance leave the chain alone.
  accept_sealed-ledger :
      (session : Text) (r : SealedRecord) (h h' : Host) {a : Response}
      → accept_sealed event session (some r) h ≡ (ok a, h')
      → (h'.ledger ≡ h.ledger) × (a ≡ accept_of r)
  accept_sealed-ledger session r h h' {a} q =
      let id = event_id event in
      let last = λ (u : Unit {0}). change_session session (accept_in id) >> pure (accept_of r) in
      let (u, s, e, k) = >>=-eq-ok (decide event session) last h q in
      let f =
        kept_by (Frame h) (decide event session) (decide-Frame h event session) (Frame-refl h) e in
      let (u', s', e', k') =
        >>=-eq-ok (change_session session (accept_in id)) (λ _. pure (accept_of r)) s k in
      let f' =
        kept_by (Frame s) (change_session session (accept_in id))
          (change_session-Frame s session (accept_in id)) (Frame-refl s) e' in
      let same : s' ≡ h' = ap (λ x. x.1) k' in (rw same at (f'.0 ∙ f.0), ground arith)

  pub seal_if-Answers :
      (session : Text) (h s : Host) (o : Option SealedRecord) (available : Bool)
      → Frame h0 h
      → lookup (event_id event) h0.sealed_attempts ≡ none
      → seal_if p w event available h ≡ (ok o, s)
      → {a : Response} {h' : Host} → accept_sealed event session o s ≡ (ok a, h')
      → Answered p w event h0 a h'
  seal_if-Answers session h s none false f new e {a} {h'} k =
      let same : h ≡ s = ap (λ x. x.1) e in
      let same' : s ≡ h' = ap (λ x. x.1) k in
      let answer : unavailable ≡ a = ground arith in
      turned_away (rw (← answer) refl) (rw (← same', ← same) f.0)
  seal_if-Answers session h s (some r) false f new e {a} {h'} k = absurd cc
  seal_if-Answers session h s none true f new e {a} {h'} k =
      let same' : s ≡ h' = ap (λ x. x.1) k in
      let answer : unavailable ≡ a = ground arith in
      turned_away (rw (← answer) refl) (rw (← same') ((seal-none p w event h s e).0 ∙ f.0))
  seal_if-Answers session h s (some r) true f new e {a} {h'} k =
      let sealed = seal-some p w event r h s e in
      let (kept, answer) = accept_sealed-ledger session r s h' k in
      rw answer (
        recorded r new sealed.event_is sealed.time_is (rw f.0 at sealed.continues)
          (kept ∙ sealed.committed.ledger ∙ ap (commit r) f.0))
