-- ===== src/Session/Returned.antt =====
-- What holds when `action` of src/session.ts returns: the attempt that it sent, and the answer to it.
use auditable_mcp_sdk_ts.Base.{ℕ, suc, ◌≡◌, refl, ap, ◌∙◌, Option, none, some, Text}
use auditable_mcp_sdk_ts.Base.Exec.{
  Result, ok, err, Exec, usage, not_canonical, type_error, invalid_argument, foreign, aborted,
}
use auditable_mcp_sdk_ts.Base.Exec.Run.{pure, lift, modify, ◌>>=◌, ◌>>◌, >>=-eq-ok}
use auditable_mcp_sdk_ts.Json.{Value}
use auditable_mcp_sdk_ts.Canonical.{Packages}
use auditable_mcp_sdk_ts.Models.{attempted, target_resource_schema}
use auditable_mcp_sdk_ts.Transport.{Response, accepted, Acceptance}
use auditable_mcp_sdk_ts.Crypto.SaltedHash.{JsonText}
use auditable_mcp_sdk_ts.Session.{
  Sign, Session, Call, calls, numbering, numbering_with, run_numbered,
}
use auditable_mcp_sdk_ts.Session.Emission.{ActionOptions, Action, new_action, build, parse}
use auditable_mcp_sdk_ts.Session.Acting.{
  Answer, answered, answer_of, caught, send_attempt, mark_accepted, on_answer, acquire, action,
}
use auditable_mcp_sdk_ts.Session.Cleared.{Cleared, on_answer-ok}

-- A section that returned ran its body once.
pub numbering_with-ok :
    {T A : Type 0} (o : Option (Sign T)) (body : Option ℕ → Exec (Call T) A) (c : Call T) {x : A}
    {c' : Call T}
    → numbering_with o body c ≡ (ok x, c')
    → (n : Option ℕ) × (c1 : Call T) × (body n c ≡ (ok x, c1)) × (c1.world ≡ c'.world)
unfolding run_numbered
numbering_with-ok none body c {x} {c'} q = (none, c', q, refl)
numbering_with-ok {T} {A} (some sign) body c {x} {c'} q =
    let advance = λ (a : A). modify (λ (d : Call T). record d { next = suc c.next }) >> pure a in
    let (y, c1, k1, q1) = >>=-eq-ok (body (some c.next)) advance c q in
    let same : y ≡ x = cc in (some c.next, c1, rw same at k1, ap (λ z. z.1.world) q1)

answer_of-ok : (r : Result Response) {x : Response} → answer_of r ≡ ok (answered x) → r ≡ ok x
answer_of-ok (ok r) q = cc
answer_of-ok (err usage) q = absurd cc
answer_of-ok (err not_canonical) q = absurd cc
answer_of-ok (err type_error) q = absurd cc
answer_of-ok (err invalid_argument) q = absurd cc
answer_of-ok (err foreign) q = absurd cc
answer_of-ok (err (aborted t r c)) q = absurd cc

module _ {T : Type 0} (s : Session T) where
  -- The transport answered the attempt of `a` that the session built in the state `c`, and left all
  -- that is outside of the session as `after`.
  pub data Sent (a : Action) (c : Call T) (attempt : Value) (r : Response) (after : T)
      : Type 0 where
    sent :
        (n : Option ℕ) (built : Call T)
        → build s a attempted n none c ≡ (ok attempt, built)
        → s.outside.send_attempt attempt built.world ≡ (ok r, after)
        → Sent a c attempt r after

  send_attempt-ok :
      (a : Action) (n : Option ℕ) (c : Call T) (attempt : Value) (r : Response) {c' : Call T}
      → send_attempt s a n c ≡ (ok (attempt, answered r), c')
      → Sent a c attempt r c'.world
  unfolding send_attempt
  send_attempt-ok a n c attempt r {c'} q =
      let post = λ (v : Value). caught (calls (s.outside.send_attempt v)) in
      let rest = λ (v : Value). post v >>= λ answer. pure (v, answer) in
      let (v, c1, k1, q1) = >>=-eq-ok (build s a attempted n none) rest c q in
      let (x, c2, k2, q2) = >>=-eq-ok (post v) (λ answer. pure (v, answer)) c1 q1 in
      let same : v ≡ attempt = cc in
      let answer : x ≡ answered r = cc in
      let one : answer_of (s.outside.send_attempt v c1.world).0 ≡ ok (answered r) =
        ap (λ y. y.0) k2 ∙ ap ok answer in
      let result = answer_of-ok (s.outside.send_attempt v c1.world).0 one in
      let k1' : build s a attempted n none c ≡ (ok attempt, c1) = rw (← same) k1 in
      let left : (s.outside.send_attempt v c1.world).1 ≡ c'.world =
        ap (λ y. y.1.world) k2 ∙ ap (λ y. y.1.world) q2 in
      sent n c1 k1' (rw (← same) (λ i. (result i, left i)))

-- The operation `a` was returned as `a'`: the host accepted the attempt that was built in the state
-- `c`, and every check of the answer passed.
pub data Acquired {T : Type 0} (p : Packages) (s : Session T) (a : Action) (c : Call T)
    : Action → Type 0 where
  acquired :
      (attempt : Value) (r : Acceptance) (after : T)
      → Sent s a c attempt (accepted r) after
      → Cleared p s attempt r
      → Acquired p s a c (mark_accepted r a)

module _ {T : Type 0} (p : Packages) (s : Session T) where
  -- Where `acquire` returns, it did so on an accept, from what the transport left behind.
  pub acquire-Sent :
      (a : Action) (c : Call T) {a' : Action} {c' : Call T}
      → acquire p s a c ≡ (ok a', c')
      → (attempt : Value) × (r : Acceptance) × (c1 : Call T) × Sent s a c attempt
          (accepted r)
          c1.world
        × Cleared p s attempt r
        × (on_answer p s a attempt (answered (accepted r)) c1 ≡ (ok a', c'))
        × (a' ≡ mark_accepted r a)
  unfolding acquire numbering
  acquire-Sent a c {a'} {c'} q =
      let react = λ (x : Value × Answer). on_answer p s a x.0 x.1 in
      let (x, c1, k1, q1) = >>=-eq-ok (numbering s (send_attempt s a)) react c q in
      let (n, c2, k2, left) = numbering_with-ok s.signer (send_attempt s a) c k1 in
      let (r, answer, cleared, same) = on_answer-ok p s a x.0 x.1 c1 q1 in
      let pair : x ≡ (x.0, answered (accepted r)) = λ i. (x.0, answer i) in
      let by = send_attempt-ok s a n c x.0 (accepted r) (rw pair at k2) in
      (x.0, r, c1, rw left at by, cleared, rw answer at q1, same)

  pub acquire-Acquired :
      (a : Action) (c : Call T) {a' : Action} {c' : Call T}
      → acquire p s a c ≡ (ok a', c')
      → Acquired p s a c a'
  acquire-Acquired a c q =
      let (attempt, r, c1, by, cleared, rest, same) = acquire-Sent a c q in
      rw same (acquired attempt r c1.world by cleared)

  -- Where `action` returns, the transport answered the attempt of the operation with an accept; it has
  -- a countersignature, if the session requires one; the countersignature verified over the fields of
  -- the accept, if the session has a verifier; and under Polluted Stop the record hash of the accept
  -- is that of the attempt as it was sent.
  pub action-Acquired :
      (j : JsonText) (action_type : Text) (target : Value) (o : ActionOptions) (c : Call T)
      {a' : Action} {c' : Call T}
      → action p j s action_type target o c ≡ (ok a', c')
      → (a : Action) × (before : Call T) × Acquired p s a before a'
  unfolding action
  action-Acquired j action_type target o c q =
      let create = λ (t : Value) (id : Text). new_action p j s id action_type t o in
      let rest = λ (t : Value). calls s.outside.new_id >>= λ id. create t id >>= acquire p s in
      let (t, c1, k1, q1) = >>=-eq-ok (lift (parse target_resource_schema target)) rest c q in
      let (id, c2, k2, q2) =
        >>=-eq-ok (calls s.outside.new_id) (λ id. create t id >>= acquire p s) c1 q1 in
      let (a, c3, k3, q3) = >>=-eq-ok (create t id) (acquire p s) c2 q2 in
      (a, c3, acquire-Acquired a c3 q3)
