-- ===== src/Host/Decisions.antt =====
-- `handleAttempt` on every path: what it answers, and what the host then holds.
use auditable_mcp_sdk_ts.Base.{
  ℕ, Bool, true, false, not, ◌||◌, Option, none, some, Text, ◌≡◌, refl, sym, ap, lookup, text_eq,
  if◌then◌else◌,
}
use auditable_mcp_sdk_ts.Base.Exec.{Result, ok, Exec}
use auditable_mcp_sdk_ts.Base.Exec.Run.{pure, lift, gets, ◌>>=◌, ◌>>◌, >>=-eq-ok}
use auditable_mcp_sdk_ts.Base.Exec.Keeps.{Keeps, Keeps-gets}
use auditable_mcp_sdk_ts.Json.{Value}
use auditable_mcp_sdk_ts.Reasons.{Code, replay_detected}
use auditable_mcp_sdk_ts.Canonical.{Packages}
use auditable_mcp_sdk_ts.Transport.{Response, rejected, unavailable}
use auditable_mcp_sdk_ts.Ledger.{SealedRecord}
use auditable_mcp_sdk_ts.Host.State.{Host, World, event_id}
use auditable_mcp_sdk_ts.Host.Seal.{flag, change_session, accept_in, chain_known, settle_tail}
use auditable_mcp_sdk_ts.Host.Admit.{
  Admitted, admitted, not_admitted, admit, verify_signature, check_replay, decide,
}
use auditable_mcp_sdk_ts.Host.Handlers.{
  accept_of, same_canonical, remember_rejected, refuse_replay, accept_sealed, seal_if, seal_attempt,
  attempt_unless_replayed, attempt_fresh, repeat_attempt, attempt_known, attempt_verified,
  attempt_admitted, attempt_on, attempt_now, handle_attempt, is_terminal, is_past,
}
use auditable_mcp_sdk_ts.Host.Frame.{
  Frame, Frame-refl, flag-Frame, change_session-Frame, remember_rejected-Frame, admit-Frame,
  verify_signature-Frame, check_replay-Frame, decide-Frame,
}
use auditable_mcp_sdk_ts.Host.Answers.{
  Answered, repeated, Answers, away, then_away, seal_if-Answers, Yields-bind, Yields-then,
  Yields-pure,
}

-- The tail of the chain is the host's own: no write of the store is in doubt, or there is no store.
abbrev pub IsCertain : Host → Type 0
IsCertain h = (not h.tail_uncertain || not h.config.has_repository) ≡ true

known_if :
    (p : Packages) (w : World) (h : Host) (known : Bool)
    → known ≡ true
    → (if known then pure true else settle_tail p w.load_tail) h ≡ (ok true, h)
known_if p w h true e = refl
known_if p w h false e = absurd cc

pub chain_known-certain :
    (p : Packages) (w : World) (h : Host) → IsCertain h → chain_known p w h ≡ (ok true, h)
unfolding chain_known
chain_known-certain p w h certain =
    known_if p w h (not h.tail_uncertain || not h.config.has_repository) certain

module _ (p : Packages) (w : World) (event : Value) (h0 : Host) where
  seal_attempt-Answers :
      (session : Text)
      → lookup (event_id event) h0.sealed_attempts ≡ none
      → Answers p w event h0 (seal_attempt p w event session)
  unfolding seal_attempt
  seal_attempt-Answers session new = record {
    at = λ h f q.
        let available = h.persistence_available in
        let (o, s, e, k) =
          >>=-eq-ok (seal_if p w event available) (accept_sealed event session) h q in
        seal_if-Answers p w event h0 session h s o available f new e k;
  }

  refuse_replay-Answers : (session : Text) → Answers p w event h0 (refuse_replay event session)
  refuse_replay-Answers session =
      let id = event_id event in
      let last = flag id replay_detected >> pure (rejected replay_detected) in
      Yields-then (Frame h0) (Answered p w event h0) (remember_rejected id)
        (decide event session >> last) (remember_rejected-Frame h0 id)
        (Yields-then (Frame h0) (Answered p w event h0) (decide event session) last
          (decide-Frame h0 event session)
          (then_away p w event h0 (flag id replay_detected) (rejected replay_detected)
            (flag-Frame h0 id replay_detected) refl))

  unless_replayed-Answers :
      (session : Text) (again : Bool)
      → lookup (event_id event) h0.sealed_attempts ≡ none
      → Answers p w event h0 (attempt_unless_replayed p w event session again)
  unless_replayed-Answers session true new =
      let id = event_id event in
      Yields-then (Frame h0) (Answered p w event h0) (remember_rejected id)
        (decide event session >> pure (rejected replay_detected)) (remember_rejected-Frame h0 id)
        (then_away p w event h0 (decide event session) (rejected replay_detected)
          (decide-Frame h0 event session) refl)
  unless_replayed-Answers session false new = seal_attempt-Answers session new

  Yields-if :
      (b : Bool) (m n : Exec Host Response)
      → Answers p w event h0 m
      → Answers p w event h0 n
      → Answers p w event h0 (if b then m else n)
  Yields-if true m n k l = k
  Yields-if false m n k l = l

  attempt_fresh-Answers :
      (session : Text)
      → lookup (event_id event) h0.sealed_attempts ≡ none
      → Answers p w event h0 (attempt_fresh p w event session)
  unfolding attempt_fresh
  attempt_fresh-Answers session new =
      let concluded = λ (h : Host). is_terminal (event_id event) (lookup session h.sessions) in
      let unless = check_replay event session >>= attempt_unless_replayed p w event session in
      Yields-bind (Frame h0) (Answered p w event h0) (gets concluded)
        (λ b. if b then refuse_replay event session else unless) (Keeps-gets concluded)
        (λ b. Yields-if b (refuse_replay event session) unless (refuse_replay-Answers session) (
          Yields-bind (Frame h0) (Answered p w event h0) (check_replay event session)
            (attempt_unless_replayed p w event session) (check_replay-Frame h0 event session)
            (λ again. unless_replayed-Answers session again new)))

  repeat_attempt-Answers :
      (session : Text) (r : SealedRecord) (same : Bool)
      → lookup (event_id event) h0.sealed_attempts ≡ some r
      → same_canonical p r.event event ≡ ok same
      → Answers p w event h0 (repeat_attempt event session r same)
  repeat_attempt-Answers session r true known e =
      let accepted = change_session session (accept_in (event_id event)) in
      Yields-then (Frame h0) (Answered p w event h0) accepted (pure (accept_of r))
        (change_session-Frame h0 session (accept_in (event_id event)))
        (Yields-pure (Frame h0) (Answered p w event h0) (accept_of r)
          (λ h f. repeated r known e f.0))
  repeat_attempt-Answers session r false known e = refuse_replay-Answers session

  attempt_known-Answers :
      (session : Text) (o : Option SealedRecord)
      → lookup (event_id event) h0.sealed_attempts ≡ o
      → Answers p w event h0 (attempt_known p w event session o)
  unfolding attempt_known
  attempt_known-Answers session none e = attempt_fresh-Answers session e
  attempt_known-Answers session (some r) e = record {
    at = λ h f {a} {h'} q.
        let (b, s, e', k) =
          >>=-eq-ok (lift (same_canonical p r.event event)) (repeat_attempt event session r) h q in
        let here : h ≡ s = ap (λ x. x.1) e' in
        (repeat_attempt-Answers session r b e (ap (λ x. x.0) e')).at s (rw here at f) k;
  }

  attempt_verified-Answers :
      (session : Text) (o : Option Code)
      → Answers p w event h0 (attempt_verified p w event session o)
  attempt_verified-Answers session (some reason) =
      let id = event_id event in
      then_away p w event h0 (remember_rejected id) (rejected reason)
        (remember_rejected-Frame h0 id) refl
  attempt_verified-Answers session none = record {
    at = λ h f q.
        (attempt_known-Answers session (lookup (event_id event) h.sealed_attempts)
            (ap (lookup (event_id event)) (sym f.1))).at
          h f q;
  }

  attempt_admitted-Answers : (a : Admitted) → Answers p w event h0 (attempt_admitted p w event a)
  unfolding attempt_admitted
  attempt_admitted-Answers (not_admitted reason) = away p w event h0 (rejected reason) refl
  attempt_admitted-Answers (admitted session) =
      Yields-bind (Frame h0) (Answered p w event h0) (verify_signature w event session)
        (attempt_verified p w event session) (verify_signature-Frame h0 w event session)
        (attempt_verified-Answers session)

  attempt_on-Answers :
      (expected : Option Text) (known : Bool)
      → Answers p w event h0 (attempt_on p w event expected known)
  attempt_on-Answers expected false = away p w event h0 unavailable refl
  attempt_on-Answers expected true =
      Yields-bind (Frame h0) (Answered p w event h0) (admit event expected true)
        (attempt_admitted p w event) (admit-Frame h0 event expected true) attempt_admitted-Answers

  chain_known-Frame : IsCertain h0 → Keeps (Frame h0) (chain_known p w)
  chain_known-Frame certain = record {
    at = λ h f.
        let known = chain_known-certain p w h (rw (f.5, f.3) certain) in
        rw (ap (λ (x : Result Bool × Host). x.1) known) f;
  }

  -- Where no write of the store is in doubt, a returned answer is one of three: no accept, with the
  -- chain as it was; the accept of the record already sealed for this id with the same canonical event,
  -- with the chain as it was; or, for an id that was not sealed, the accept of a record of this event
  -- that continues the chain and is committed at its end.
  pub handle_attempt-Answered :
      (expected : Option Text) (deadline : Option ℕ) (h' : Host) (a : Response)
      → IsCertain h0
      → handle_attempt p w event expected deadline h0 ≡ (ok a, h')
      → Answered p w event h0 a h'
  unfolding handle_attempt attempt_now
  handle_attempt-Answered expected deadline h' a certain q =
      (Yields-if (is_past deadline w.date_now) (pure unavailable) (attempt_now p w event expected)
          (away p w event h0 unavailable refl)
          (Yields-bind (Frame h0) (Answered p w event h0) (chain_known p w)
            (attempt_on p w event expected) (chain_known-Frame certain)
            (attempt_on-Answers expected))).at
        h0 (Frame-refl h0) q
