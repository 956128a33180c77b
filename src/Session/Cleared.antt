-- ===== src/Session/Cleared.antt =====
-- What holds when `action` of src/session.ts returns: the caller may act.
use auditable_mcp_sdk_ts.Base.{
  ℕ, ◌≡◌, refl, ap, ◌∙◌, arith, Bool, true, false, ◌&&◌, not, Option, none, some, List, Text,
  same_text, same_text_iff, is_some,
}
use auditable_mcp_sdk_ts.Base.Exec.{ok, Exec}
use auditable_mcp_sdk_ts.Base.Exec.Run.{pure, lift, ◌>>=◌, ◌>>◌, >>=-eq-ok}
use auditable_mcp_sdk_ts.Json.{Value}
use auditable_mcp_sdk_ts.Reasons.{Code, host_uncountersigned, hash_mismatch}
use auditable_mcp_sdk_ts.Canonical.{Packages}
use auditable_mcp_sdk_ts.Hashing.{compute_record_hash, countersignature_payload}
use auditable_mcp_sdk_ts.Transport.{accepted, rejected, unavailable, Acceptance, Countersignature}
use auditable_mcp_sdk_ts.Session.{
  Session, Call, Check, Verification, valid, invalid, unchecked, calls,
}
use auditable_mcp_sdk_ts.Session.Emission.{Action, emit_aborted}
use auditable_mcp_sdk_ts.Session.Acting.{
  Answer, answered, faulted, abort, abort_if, on_verdict, check_countersignature, check_record_hash,
  mark_accepted, on_accept, on_answer,
}

module _ {T : Type 0} (p : Packages) (s : Session T) where
  -- The check of the answer's countersignature `c` passed.
  pub data Checked (check : Check T) (r : Acceptance) (c : Countersignature) : Type 0 where
    checked :
        (payload : List ℕ) (before after : T)
        → countersignature_payload p r.seq r.host_ts c.log_id r.previous_hash r.record_hash
          ≡ ok payload
        → check c.host_key_id c.host_signature payload before ≡ (ok valid, after)
        → Checked check r c

  -- An answer to the attempt that the session may act on.
  pub record Cleared (attempt : Value) (r : Acceptance) : Type 0 where
    pub is_countersigned : s.require_countersign ≡ true → is_some r.countersignature ≡ true
    pub is_checked :
        (c : Countersignature) (check : Check T)
        → r.countersignature ≡ some c
        → s.countersignature_verifier ≡ some check
        → Checked check r c
    pub is_of_attempt :
        s.polluted_stop ≡ true
        → compute_record_hash p attempt r.seq r.host_ts r.previous_hash ≡ ok r.record_hash

  pub abort-ok :
      (a : Action) (reason : Code) {A : Type 0} {x : A} (c : Call T) {c' : Call T}
      → abort s a reason c ≡ (ok x, c')
      → ⊥
  unfolding abort emit_aborted
  abort-ok a reason c q = cc

  abort_if-ok :
      (a : Action) (b : Bool) (reason : Code) (c : Call T) {c' : Call T}
      → abort_if s a b reason c ≡ (ok tt, c')
      → b ≡ false
  abort_if-ok a true reason c q = absurd (abort-ok a reason c q)
  abort_if-ok a false reason c q = refl

  on_verdict-ok :
      (a : Action) (v : Verification) (c : Call T) {c' : Call T}
      → on_verdict s a v c ≡ (ok tt, c')
      → v ≡ valid
  on_verdict-ok a valid c q = refl
  on_verdict-ok a invalid c q = absurd (abort-ok a _ c q)
  on_verdict-ok a unchecked c q = absurd (abort-ok a _ c q)

  -- A call of injected code that returned.
  pub calls-ok :
      {A : Type 0} (m : Exec T A) (c : Call T) {x : A} {c' : Call T}
      → calls m c ≡ (ok x, c')
      → m c.world ≡ (ok x, c'.world)
  calls-ok m c q = λ i. ((q i).0, (q i).1.world)

  check_countersignature-ok :
      (a : Action) (r : Acceptance) (o : Option Countersignature) (v : Option (Check T))
      (c : Call T) {c' : Call T}
      → check_countersignature p s a r o v c ≡ (ok tt, c')
      → (t : Countersignature) (check : Check T) → o ≡ some t
      → v ≡ some check
      → Checked check r t
  unfolding check_countersignature
  check_countersignature-ok a r none v c q t check e f = absurd cc
  check_countersignature-ok a r (some u) none c q t check e f = absurd cc
  check_countersignature-ok a r (some u) (some verify) c q t check e f =
      let made =
        countersignature_payload p r.seq r.host_ts u.log_id r.previous_hash r.record_hash in
      let judge = λ (payload : List ℕ).
        calls {T = T} (verify u.host_key_id u.host_signature payload) >>= on_verdict s a in
      let (payload, c1, k1, q1) = >>=-eq-ok (lift made) judge c q in
      let (v, c2, k2, q2) =
        >>=-eq-ok (calls (verify u.host_key_id u.host_signature payload)) (on_verdict s a) c1 q1 in
      let is_valid : v ≡ valid = on_verdict-ok a v c2 q2 in
      let same : u ≡ t = ground arith in
      let one : verify ≡ check = ground arith in
      rw (← one, ← same)
        (checked payload c1.world c2.world (ap (λ x. x.0) k1)
          (rw (← is_valid) (calls-ok (verify u.host_key_id u.host_signature payload) c1 k2)))

  check_record_hash-ok :
      (a : Action) (attempt : Value) (r : Acceptance) (stop : Bool) (c : Call T) {c' : Call T}
      → check_record_hash p s a attempt r stop c ≡ (ok tt, c')
      → stop ≡ true
      → compute_record_hash p attempt r.seq r.host_ts r.previous_hash ≡ ok r.record_hash
  unfolding check_record_hash
  check_record_hash-ok a attempt r false c q e = absurd cc
  check_record_hash-ok a attempt r true c q e =
      let hash = compute_record_hash p attempt r.seq r.host_ts r.previous_hash in
      let judge = λ (x : Text). abort_if s a (not (same_text x r.record_hash)) hash_mismatch in
      let (x, c1, k1, q1) = >>=-eq-ok (lift hash) judge c q in
      let b = abort_if-ok a (not (same_text x r.record_hash)) hash_mismatch c1 q1 in
      let same : x ≡ r.record_hash = ground (arith, same_text_iff x r.record_hash) in
      ap (λ y. y.0) k1 ∙ ap ok same

  on_accept-ok :
      (a : Action) (attempt : Value) (r : Acceptance) (c : Call T) {a' : Action} {c' : Call T}
      → on_accept p s a attempt r c ≡ (ok a', c')
      → Cleared attempt r × (a' ≡ mark_accepted r a)
  unfolding on_accept
  on_accept-ok a attempt r c q =
      let lacks = s.require_countersign && not (is_some r.countersignature) in
      let last = λ (u : Unit {0}). pure (mark_accepted r a) in
      let hash = check_record_hash p s a attempt r s.polluted_stop in
      let signature =
        check_countersignature p s a r r.countersignature s.countersignature_verifier in
      let (u1, c1, k1, q1) =
        >>=-eq-ok (abort_if s a lacks host_uncountersigned) (λ _. signature >> (hash >>= last)) c
          q in
      let (u2, c2, k2, q2) = >>=-eq-ok signature (λ _. hash >>= last) c1 q1 in
      let (u3, c3, k3, q3) = >>=-eq-ok hash last c2 q2 in
      let present = abort_if-ok a lacks host_uncountersigned c k1 in
      (
        record {
          is_countersigned = λ required. ground arith;
          is_checked =
              check_countersignature-ok a r r.countersignature s.countersignature_verifier c1 k2;
          is_of_attempt = check_record_hash-ok a attempt r s.polluted_stop c2 k3;
        },
        ground arith,
      )

  pub on_answer-ok :
      (a : Action) (attempt : Value) (answer : Answer) (c : Call T) {a' : Action} {c' : Call T}
      → on_answer p s a attempt answer c ≡ (ok a', c')
      → (r : Acceptance) × (answer ≡ answered (accepted r))
        × Cleared attempt r
        × (a' ≡ mark_accepted r a)
  unfolding on_answer
  on_answer-ok a attempt (faulted e) c q = absurd (abort-ok a _ c q)
  on_answer-ok a attempt (answered (rejected code)) c q = absurd (abort-ok a _ c q)
  on_answer-ok a attempt (answered unavailable) c q = absurd (abort-ok a _ c q)
  on_answer-ok a attempt (answered (accepted r)) c q =
      let (cleared, same) = on_accept-ok a attempt r c q in (r, refl, cleared, same)
