-- ===== src/Host/Reached.antt =====
-- The hosts that a run of calls leads to, and what holds of each: the chain of its partition, from
-- the first record of the store on, is the one that `verifyChain` reports clean.
use auditable_mcp_sdk_ts.Base.{
  ℕ, ◌+◌, Bool, true, Option, none, some, List, [], ◌∷◌, ◌++◌, Text, ◌≡◌, refl, arith, length,
  last?, add, lookup, map, suc, has, insert, if◌then◌else◌, text_eq, false, inl, inr,
}
use auditable_mcp_sdk_ts.Base.Exec.{Result, invalid_argument, ok, err}
use auditable_mcp_sdk_ts.Base.Exec.Run.{lift, modify, ◌>>◌, ◌>>=◌}
use auditable_mcp_sdk_ts.Base.Exec.Keeps.{Keeps, keeps_rules, Keeps-then, Keeps-bind, Keeps-lift}
use auditable_mcp_sdk_ts.Json.{Value, get, as_text}
use auditable_mcp_sdk_ts.Fields
use auditable_mcp_sdk_ts.Reasons.{unresolved_attempt}
use auditable_mcp_sdk_ts.Host.Seal.{flag, remember}
use auditable_mcp_sdk_ts.Canonical.{Packages}
use auditable_mcp_sdk_ts.Hashing.{genesis_hash}
use auditable_mcp_sdk_ts.Ledger.{SealedRecord, Ledger, resume_from}
use auditable_mcp_sdk_ts.Ledger.Chain.{IsChain, chain_tail, IsSound}
use auditable_mcp_sdk_ts.Host.State.{Host, Session, World, new_session}
use auditable_mcp_sdk_ts.Host.Handlers.{handle_attempt, record_outcome}
use auditable_mcp_sdk_ts.Host.Sessions.{
  open_session, close_session, close_open, flag_all, unresolved, resume_with, remember_all,
  issue_named, restore_open, flag_unresolved, OpenSession, restored_session, merge_tracker,
}
use auditable_mcp_sdk_ts.Host.Invariant.{Kept, Holds, IsHonest, remember-With}
use auditable_mcp_sdk_ts.Host.Sound.{flag-Kept, handle_attempt-Kept, record_outcome-Kept}

-- The calls of a host, in the order in which its lock lets them through.
pub data Reaches (p : Packages) (h0 : Host) : Host → Type 0 where
  started : Reaches p h0 h0
  attempted :
      {h : Host} (w : World) (event : Value) (expected : Option Text) (deadline : Option ℕ)
      → IsHonest p w.load_tail
      → Reaches p h0 h
      → Reaches p h0 (handle_attempt p w event expected deadline h).1
  concluded :
      {h : Host} (w : World) (event : Option Value) (expected : Option Text)
      → IsHonest p w.load_tail
      → Reaches p h0 h
      → Reaches p h0 (record_outcome p w event expected h).1
  opened : {h : Host} (id : Text) → Reaches p h0 h → Reaches p h0 (open_session id h).1
  closed : {h : Host} (id : Text) → Reaches p h0 h → Reaches p h0 (close_session id h).1

-- The last record of a chain gives the position and the link of the next.
last?-IsChain :
    (p : Packages) (n : ℕ) (link : Text) (r : SealedRecord) (rs : List SealedRecord)
    → IsChain p n link (r ∷ rs)
    → (q : SealedRecord) × (last? (r ∷ rs) ≡ some q)
      × (q.seq + 1 ≡ n + length (r ∷ rs))
      × (q.record_hash ≡ chain_tail link (r ∷ rs))
last?-IsChain p n link r [] c = (r, refl, omega (arith, c.0), refl)
last?-IsChain p n link r (s ∷ rs) c =
    let (q, e, seq, hash) = last?-IsChain p (suc n) r.record_hash s rs c.3 in
    (q, e, omega (arith, seq), hash)

-- `resumeFrom` over the last record of a sound chain stands where the chain ends.
pub resume_from-IsSound :
    (p : Packages) (base : List SealedRecord) (l : Ledger)
    → IsChain p 0 genesis_hash base
    → IsSound p (length base) (chain_tail genesis_hash base) (resume_from (last? base) l)
unfolding resume_from
resume_from-IsSound p [] l c = record { chained = tt; counted = refl; linked = refl }
resume_from-IsSound p (r ∷ rs) l c =
    let (q, e, seq, hash) = last?-IsChain p 0 genesis_hash r rs c in
    rw e (record { chained = tt; counted = omega (arith, seq); linked = hash })

nothing : (id : Text) (r : SealedRecord) → lookup id [] ≡ some r → ⊥
unfolding lookup
nothing id r e = cc

either : {A : Type 0} (P : A → Type 0) (b : Bool) (x y : A) → P x → P y → P (if b then x else y)
either P true x y k l = k
either P false x y k l = l

module _ (p : Packages) (base : List SealedRecord) where
  open_session-Kept : (id : Text) → Keeps (Kept p base) (open_session id)
  unfolding open_session
  open_session-Kept id = record {
    at = λ h k.
        either (λ (x : Result Text × Host). Kept p base x.1) (has id h.issued)
          (err invalid_argument, h)
          (
            ok id,
            record h { issued = add id h.issued; sessions = insert id new_session h.sessions },
          )
          k k;
  }

  pub flag_all-Kept : (ids : List Text) → Keeps (Kept p base) (flag_all ids)
  unfolding flag_all
  flag_all-Kept [] = search keeps_rules
  flag_all-Kept (id ∷ ids) =
      Keeps-then (flag id unresolved_attempt) (flag_all ids)
        (flag-Kept p base id unresolved_attempt) (flag_all-Kept ids)

  close_open-Kept : (id : Text) (o : Option Session) → Keeps (Kept p base) (close_open id o)
  close_open-Kept id none = search keeps_rules
  close_open-Kept id (some s) = record { at = λ h k. (flag_all-Kept (unresolved s)).at _ k }

  close_session-Kept : (id : Text) → Keeps (Kept p base) (close_session id)
  unfolding close_session
  close_session-Kept id = search (keeps_rules, close_open-Kept)

  pub reached-Kept : (h0 h : Host) → Kept p base h0 → Reaches p h0 h → Kept p base h
  reached-Kept h0 h k started = k
  reached-Kept h0 h k (attempted {h = h'} w event expected deadline honest r) =
      (handle_attempt-Kept p base w event expected deadline honest).at h' (reached-Kept h0 h' k r)
  reached-Kept h0 h k (concluded {h = h'} w event expected honest r) =
      (record_outcome-Kept p base w event expected honest).at h' (reached-Kept h0 h' k r)
  reached-Kept h0 h k (opened {h = h'} id r) = (open_session-Kept id).at h' (reached-Kept h0 h' k r)
  reached-Kept h0 h k (closed {h = h'} id r) =
      (close_session-Kept id).at h' (reached-Kept h0 h' k r)

  Holds-append : (r : SealedRecord) (xs ys : List SealedRecord) → Holds r xs → Holds r (xs ++ ys)
  Holds-append r [] ys m = absurd m
  Holds-append r (x ∷ xs) ys (inl e) = inl e
  Holds-append r (x ∷ xs) ys (inr m) = inr (Holds-append r xs ys m)

  remember_one-Kept : (r : SealedRecord) → Holds r base → Keeps (Kept p base) (remember p r)
  remember_one-Kept r m = record {
    at = λ h k.
        ((remember-With p base r).at h
          (record { kept = k; held = Holds-append r base h.ledger.held m })).kept;
  }

  issue_named-Kept : (o : Option Text) → Keeps (Kept p base) (issue_named o)
  issue_named-Kept none = search keeps_rules
  issue_named-Kept (some id) = record { at = λ h k. k }

  restore_open-Kept :
      (records : List SealedRecord) (os : List OpenSession)
      → Keeps (Kept p base) (restore_open p records os)
  unfolding restore_open
  restore_open-Kept records [] = search keeps_rules
  restore_open-Kept records (o ∷ os) =
      let issue = modify (λ h. record h { issued = add o.session_id h.issued }) in
      let install = λ (s : Session).
        modify (λ h. record h {
          sessions = insert o.session_id (merge_tracker o.signers s) h.sessions;
        }) in
      let session = restored_session p o.session_id records new_session in
      let rest = restore_open-Kept records os in
      Keeps-then issue (lift session >>= λ s. install s >> restore_open p records os)
        (record { at = λ h k. k })
        (Keeps-bind (lift session) (λ s. install s >> restore_open p records os)
          (Keeps-lift session)
          (λ s. Keeps-then (install s) (restore_open p records os) (record { at = λ h k. k }) rest))

  remember_all-Kept :
      (rs : List SealedRecord)
      → ((r : SealedRecord) → Holds r rs → Holds r base)
      → Keeps (Kept p base) (remember_all p rs)
  unfolding remember_all
  remember_all-Kept [] inside = search keeps_rules
  remember_all-Kept (r ∷ rs) inside =
      let named = issue_named (as_text (get Fields.session_id r.event)) in
      Keeps-then (remember p r) (named >> remember_all p rs)
        (remember_one-Kept r (inside r (inl refl)))
        (Keeps-then named (remember_all p rs)
          (issue_named-Kept (as_text (get Fields.session_id r.event)))
          (remember_all-Kept rs (λ q m. inside q (inr m))))

  flag_unresolved-Kept :
      (records : List SealedRecord) (ids : List Text)
      → Keeps (Kept p base) (flag_unresolved p records ids)
  unfolding flag_unresolved
  flag_unresolved-Kept records ids = search (keeps_rules, flag_all-Kept)

  -- A host that is started over a store holding a chain from genesis continues that chain.
  pub started-Kept :
      (h : Host) (os : List OpenSession)
      → IsChain p 0 genesis_hash base
      → h.sealed_attempts ≡ []
      → Kept p base (resume_with p base os h).1
  unfolding resume_with
  started-Kept h os c e =
      let opened = map (λ (o : OpenSession). o.session_id) os in
      let restore = restore_open p base os >> flag_unresolved p base opened in
      (Keeps-then (remember_all p base) restore (remember_all-Kept base (λ r m. m)) (
          Keeps-then (restore_open p base os) (flag_unresolved p base opened)
            (restore_open-Kept base os) (flag_unresolved-Kept base opened))).at
        (record h { ledger = resume_from (last? base) h.ledger })
        (record {
          sound = resume_from-IsSound p base h.ledger c;
          recorded = λ id r s. absurd (nothing id r (rw e at s));
        })
