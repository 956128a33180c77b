-- ===== src/Session/InProcess.antt =====
-- src/in-process.ts: a session whose transport calls the audit host directly.
use auditable_mcp_sdk_ts.Base.{
  ℕ, Bool, true, false, not, ◌&&◌, is_some, same_text, ◌≡◌, refl, ap, ◌∙◌, sym, Option, none, some,
  List, Text,
}
use auditable_mcp_sdk_ts.Base.Exec.{ok}
use auditable_mcp_sdk_ts.Base.Exec.Run.{pure, lift, ◌>>=◌, ◌>>◌, >>=-eq-ok}
use auditable_mcp_sdk_ts.Base.Exec.Keeps.{Keeps, Keeps-pure, Keeps-bind, Keeps-lift}
use auditable_mcp_sdk_ts.Json.{Value}
use auditable_mcp_sdk_ts.Canonical.{Packages}
use auditable_mcp_sdk_ts.Models.{attempted, audit_event_schema}
use auditable_mcp_sdk_ts.Transport.{accepted, Acceptance, Countersignature}
use auditable_mcp_sdk_ts.Host.State.{Host, World}
use auditable_mcp_sdk_ts.Host.Handlers.{handle_attempt, handle_outcome}
use auditable_mcp_sdk_ts.Host.Answers.{Answered}
use auditable_mcp_sdk_ts.Host.Decisions.{IsCertain, handle_attempt-Answered}
use auditable_mcp_sdk_ts.Session.{
  Sign, Check, Verification, Outside, Session, Call, calls, valid, invalid, unchecked,
}
use auditable_mcp_sdk_ts.Session.Emission.{Action, build, stamp, stamp_with, parse, wire_event}
use auditable_mcp_sdk_ts.Session.Acting.{
  mark_accepted, acquire, check_countersignature, check_record_hash, on_accept, on_answer,
  on_verdict, abort_if,
}
use auditable_mcp_sdk_ts.Reasons.{Code, host_uncountersigned, hash_mismatch}
use auditable_mcp_sdk_ts.Hashing.{compute_record_hash, countersignature_payload}
use auditable_mcp_sdk_ts.Session.Cleared.{Cleared, abort-ok}
use auditable_mcp_sdk_ts.Session.Returned.{Sent, sent, acquire-Sent}

-- The id, the time and the random bytes that a tool takes from its own sources.
pub record Local : Type 0 where
  pub id : Text
  pub ts : Text
  pub bytes : List ℕ

-- `InProcessTransport`: `w` is what the host's injected code answers.
unfoldable pub in_process : Packages → World → Local → Outside Host
in_process p w l = record {
  send_attempt = λ event. handle_attempt p w event none none;
  send_outcome = λ event. handle_outcome p w (some event) none;
  new_id = pure l.id;
  now = pure l.ts;
  random_bytes = pure l.bytes;
}

-- A signer that leaves the host alone.
abbrev LeavesHost : Option (Sign Host) → Type 0
LeavesHost none = Unit
LeavesHost (some sign) = (v : Value) (n : ℕ) (h : Host) → (sign v n h).1 ≡ h

-- A verifier of countersignatures that leaves the host alone.
abbrev ChecksOnly : Option (Check Host) → Type 0
ChecksOnly none = Unit
ChecksOnly (some check) =
    (key signature : Text) (payload : List ℕ) (h : Host) → (check key signature payload h).1 ≡ h

abbrev On : Host → Call Host → Type 0
On h c = c.world ≡ h

stamp_with-On :
    (h : Host) (o : Option (Sign Host)) (v : Value) (n : Option ℕ)
    → LeavesHost o
    → Keeps (On h) (stamp_with o v n)
stamp_with-On h none v n leaves = Keeps-pure v
stamp_with-On h (some sign) v none leaves = Keeps-pure v
stamp_with-On h (some sign) v (some n) leaves = record { at = λ c on. leaves v n c.world ∙ on }

module _ (p : Packages) (w : World) (l : Local) (s : Session Host) where
  now-On : (h : Host) → s.outside ≡ in_process p w l → Keeps (On h) (calls s.outside.now)
  unfolding in_process
  now-On h local = record { at = λ c on. ap (λ o. (o.now c.world).1) local ∙ on }

  build-On :
      (h : Host) (a : Action) (n : Option ℕ)
      → s.outside ≡ in_process p w l
      → LeavesHost s.signer
      → Keeps (On h) (build s a attempted n none)
  unfolding build stamp
  build-On h a n local leaves =
      let checked = λ (ts : Text).
        lift {S = Call Host} (parse audit_event_schema (wire_event s a ts attempted none)) in
      let signed = stamp_with s.signer in
      Keeps-bind (calls s.outside.now) (λ ts. checked ts >>= λ event. signed event n)
        (now-On h local)
        (λ ts.
          Keeps-bind (checked ts) (λ event. signed event n) (Keeps-lift _)
            (λ event. stamp_with-On h s.signer event n leaves))

  -- What passes a check writes nothing.
  abort_if-kept :
      (a : Action) (b : Bool) (reason : Code) (c : Call Host) {c' : Call Host}
      → abort_if s a b reason c ≡ (ok tt, c')
      → c'.world ≡ c.world
  abort_if-kept a true reason c q = absurd (abort-ok p s a reason c q)
  abort_if-kept a false reason c q = ap (λ x. x.1.world) (sym q)

  on_verdict-kept :
      (a : Action) (v : Verification) (c : Call Host) {c' : Call Host}
      → on_verdict s a v c ≡ (ok tt, c')
      → c'.world ≡ c.world
  on_verdict-kept a valid c q = ap (λ x. x.1.world) (sym q)
  on_verdict-kept a invalid c q = absurd (abort-ok p s a _ c q)
  on_verdict-kept a unchecked c q = absurd (abort-ok p s a _ c q)

  check_countersignature-kept :
      (a : Action) (r : Acceptance) (o : Option Countersignature) (v : Option (Check Host))
      (c : Call Host) {c' : Call Host}
      → ChecksOnly v
      → check_countersignature p s a r o v c ≡ (ok tt, c')
      → c'.world ≡ c.world
  unfolding check_countersignature
  check_countersignature-kept a r none v c leaves q = ap (λ x. x.1.world) (sym q)
  check_countersignature-kept a r (some u) none c leaves q = ap (λ x. x.1.world) (sym q)
  check_countersignature-kept a r (some u) (some verify) c leaves q =
      let made =
        countersignature_payload p r.seq r.host_ts u.log_id r.previous_hash r.record_hash in
      let judge = λ (payload : List ℕ).
        calls {T = Host} (verify u.host_key_id u.host_signature payload) >>= on_verdict s a in
      let (payload, c1, k1, q1) = >>=-eq-ok (lift made) judge c q in
      let (v, c2, k2, q2) =
        >>=-eq-ok (calls (verify u.host_key_id u.host_signature payload)) (on_verdict s a) c1 q1 in
      on_verdict-kept a v c2 q2
      ∙ ap (λ x. x.1.world) (sym k2)
      ∙ leaves u.host_key_id u.host_signature payload c1.world
      ∙ ap (λ x. x.1.world) (sym k1)

  check_record_hash-kept :
      (a : Action) (attempt : Value) (r : Acceptance) (stop : Bool) (c : Call Host) {c' : Call Host}
      → check_record_hash p s a attempt r stop c ≡ (ok tt, c')
      → c'.world ≡ c.world
  unfolding check_record_hash
  check_record_hash-kept a attempt r false c q = ap (λ x. x.1.world) (sym q)
  check_record_hash-kept a attempt r true c q =
      let hash = compute_record_hash p attempt r.seq r.host_ts r.previous_hash in
      let judge = λ (x : Text). abort_if s a (not (same_text x r.record_hash)) hash_mismatch in
      let (x, c1, k1, q1) = >>=-eq-ok (lift hash) judge c q in
      abort_if-kept a (not (same_text x r.record_hash)) hash_mismatch c1 q1
      ∙ ap (λ y. y.1.world) (sym k1)

  on_accept-kept :
      (a : Action) (attempt : Value) (r : Acceptance) (c : Call Host) {a' : Action} {c' : Call Host}
      → ChecksOnly s.countersignature_verifier
      → on_accept p s a attempt r c ≡ (ok a', c')
      → c'.world ≡ c.world
  unfolding on_accept
  on_accept-kept a attempt r c leaves q =
      let lacks = s.require_countersign && not (is_some r.countersignature) in
      let last = λ (u : Unit {0}). pure (mark_accepted r a) in
      let hash = check_record_hash p s a attempt r s.polluted_stop in
      let signature =
        check_countersignature p s a r r.countersignature s.countersignature_verifier in
      let (u1, c1, k1, q1) =
        >>=-eq-ok (abort_if s a lacks host_uncountersigned) (λ _. signature >> (hash >>= last)) c
          q in
      let (u2, c2, k2, q2) = >>=-eq-ok signature (λ _. hash >>= last) c1 q1 in
      let (u3, c3, k3, q3) = >>=-eq-ok hash last c2 q2 in
      ap (λ x. x.1.world) (sym q3)
      ∙ check_record_hash-kept a attempt r s.polluted_stop c2 k3
      ∙ check_countersignature-kept a r r.countersignature s.countersignature_verifier c1 leaves k2
      ∙ abort_if-kept a lacks host_uncountersigned c k1

  asked_host :
      (a : Action) (c : Call Host) (attempt : Value) (r : Acceptance) (after : Host)
      → s.outside ≡ in_process p w l
      → LeavesHost s.signer
      → Sent s a c attempt (accepted r) after
      → handle_attempt p w attempt none none c.world ≡ (ok (accepted r), after)
  unfolding in_process
  asked_host a c attempt r after local leaves (sent n built made answer) =
      let unchanged : built.world ≡ c.world =
        ap (λ x. x.1.world) (sym made) ∙ (build-On c.world a n local leaves).at c refl in
      ap (λ h. handle_attempt p w attempt none none h) (sym unchanged)
      ∙ ap (λ o. o.send_attempt attempt built.world) (sym local)
      ∙ answer

  -- Where a call is served in the process, and no write of the host's store is in doubt, an operation
  -- that `acquire` returns was sent as the attempt that the session built of it, and the host is left
  -- with a record for which it accepted that attempt: either the record that it already had for the
  -- attempt's id, of the same canonical event, its chain unchanged, or a new record of the attempt,
  -- committed at the end of its chain; and every check of the session passed. The signer and the
  -- verifier of countersignatures leave the host alone.
  pub acquire-Answered :
      (a : Action) (c : Call Host) {a' : Action} {c' : Call Host}
      → s.outside ≡ in_process p w l
      → LeavesHost s.signer
      → ChecksOnly s.countersignature_verifier
      → IsCertain c.world
      → acquire p s a c ≡ (ok a', c')
      → (attempt : Value) × (r : Acceptance) × (a' ≡ mark_accepted r a)
        × Sent s a c attempt (accepted r) c'.world
        × Answered p w attempt c.world (accepted r) c'.world
        × Cleared p s attempt r
  unfolding on_answer
  acquire-Answered a c {a'} {c'} local leaves checks certain q =
      let (attempt, r, c1, by, cleared, rest, same) = acquire-Sent p s a c q in
      let kept : c1.world ≡ c'.world = sym (on_accept-kept a attempt r c1 checks rest) in
      let asked = asked_host a c attempt r c1.world local leaves by in
      let told =
        handle_attempt-Answered p w attempt c.world none none c1.world (accepted r) certain asked in
      (attempt, r, same, rw kept at by, rw kept at told, cleared)
