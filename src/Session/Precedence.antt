-- ===== src/Session/Precedence.antt =====
-- The order in which `action` of src/session.ts judges an answer: the first rule that fails decides.
use auditable_mcp_sdk_ts.Base.{
  ℕ, ◌≡◌, refl, ap, ◌∙◌, arith, Bool, true, false, ◌&&◌, not, Option, none, some, List, [], ◌∷◌,
  Text, same_text, is_some, if◌then◌else◌,
}
use auditable_mcp_sdk_ts.Base.Exec.{Result, ok, err, Exec}
use auditable_mcp_sdk_ts.Base.Exec.Run.{pure, >>=-ok, lift, ◌>>=◌, ◌>>◌}
use auditable_mcp_sdk_ts.Json.{Value}
use auditable_mcp_sdk_ts.Reasons.{
  Code, host_unavailable, host_uncountersigned, host_signature_invalid, hash_mismatch,
}
use auditable_mcp_sdk_ts.Canonical.{Packages}
use auditable_mcp_sdk_ts.Hashing.{compute_record_hash, countersignature_payload}
use auditable_mcp_sdk_ts.Transport.{accepted, Acceptance, Countersignature}
use auditable_mcp_sdk_ts.Session.{
  Session, Call, Check, Verification, valid, invalid, unchecked, calls,
}
use auditable_mcp_sdk_ts.Session.Emission.{Action, emit_aborted}
use auditable_mcp_sdk_ts.Session.Acting.{
  answered, abort, abort_if, abort_error, on_verdict, check_countersignature, check_record_hash,
  mark_accepted, on_accept, on_answer,
}

abbrev pub first_failure : List (Bool × Code) → Option Code
first_failure [] = none
first_failure ((true, reason) ∷ rules) = some reason
first_failure ((false, reason) ∷ rules) = first_failure rules

abbrev is_invalid : Verification → Bool
is_invalid invalid = true
is_invalid _ = false

abbrev is_unchecked : Verification → Bool
is_unchecked unchecked = true
is_unchecked _ = false

-- The rules on an accept, given what the verifier found and the recomputed record hash.
abbrev pub rules : {T : Type 0} → Session T → Acceptance → Verification → Text → List (Bool × Code)
rules s r v hash =
    (s.require_countersign && not (is_some r.countersignature), host_uncountersigned)
    ∷ (is_unchecked v, host_unavailable)
    ∷ (is_invalid v, host_signature_invalid)
    ∷ (s.polluted_stop && not (same_text hash r.record_hash), hash_mismatch)
    ∷ []

-- What becomes of an operation: it may be acted on, or it is aborted, with the `aborted` outcome
-- emitted.
abbrev pub verdict :
    {T : Type 0} → Session T → Action → Acceptance → Option Code → Call T → Result Action × Call T
verdict s a r none c = (ok (mark_accepted r a), c)
verdict s a r (some reason) c = (err (abort_error a reason), (emit_aborted s a reason c).1)

module _ {T : Type 0} (p : Packages) (s : Session T) where
  -- What the session's verifier found about the countersignature of an accept, and the state then; an
  -- accept without one, and one that no verifier checks, stand.
  pub data Found (r : Acceptance) (c : Call T) : Verification → Call T → Type 0 where
    uncountersigned : r.countersignature ≡ none → Found r c valid c
    without_verifier : s.countersignature_verifier ≡ none → Found r c valid c
    verifier_asked :
        (t : Countersignature) (check : Check T) (payload : List ℕ) (v : Verification) (after : T)
        → r.countersignature ≡ some t
        → s.countersignature_verifier ≡ some check
        → countersignature_payload p r.seq r.host_ts t.log_id r.previous_hash r.record_hash
          ≡ ok payload
        → check t.host_key_id t.host_signature payload c.world ≡ (ok v, after)
        → Found r c v (record c { world = after })

  Found-lacking :
      (r : Acceptance) (c : Call T) (v : Verification) (c2 : Call T)
      → Found r c v c2
      → is_some r.countersignature ≡ false
      → c ≡ c2
  Found-lacking r c v c2 (uncountersigned e) none_given = refl
  Found-lacking r c v c2 (without_verifier e) none_given = refl
  Found-lacking r c v c2 (verifier_asked t check payload v' after e f g k) none_given =
      absurd (ground (arith, e))

  calls-returned :
      {A B : Type 0} (m : Exec T A) (f : A → Exec (Call T) B) (c : Call T) {x : A} {after : T}
      → m c.world ≡ (ok x, after)
      → (calls m >>= f) c ≡ f x (record c { world = after })
  calls-returned m f c q = >>=-ok (calls m) f c (ap (λ y. (y.0, record c { world = y.1 })) q)

  check_countersignature-asked :
      (a : Action) (r : Acceptance) (t : Countersignature) (check : Check T) (payload : List ℕ)
      (c : Call T) (v : Verification) (after : T)
      → countersignature_payload p r.seq r.host_ts t.log_id r.previous_hash r.record_hash
        ≡ ok payload
      → check t.host_key_id t.host_signature payload c.world ≡ (ok v, after)
      → check_countersignature p s a r (some t) (some check) c
        ≡ on_verdict s a v (record c { world = after })
  unfolding check_countersignature
  check_countersignature-asked a r t check payload c v after g k =
      rw g (calls-returned (check t.host_key_id t.host_signature payload) (on_verdict s a) c k)

  check_countersignature-unasked :
      (a : Action) (r : Acceptance) (o : Option Countersignature) (c : Call T)
      → check_countersignature p s a r o none c ≡ (ok tt, c)
  unfolding check_countersignature
  check_countersignature-unasked a r none c = refl
  check_countersignature-unasked a r (some t) c = refl

  check_countersignature-unsigned :
      (a : Action) (r : Acceptance) (v : Option (Check T)) (c : Call T)
      → check_countersignature p s a r none v c ≡ (ok tt, c)
  unfolding check_countersignature
  check_countersignature-unsigned a r v c = refl

  check_countersignature-Found :
      (a : Action) (r : Acceptance) (c : Call T) (v : Verification) (c2 : Call T)
      → Found r c v c2
      → check_countersignature p s a r r.countersignature s.countersignature_verifier c
        ≡ on_verdict s a v c2
  check_countersignature-Found a r c v c2 (uncountersigned e) =
      ap (λ o. check_countersignature p s a r o s.countersignature_verifier c) e
      ∙ check_countersignature-unsigned a r s.countersignature_verifier c
  check_countersignature-Found a r c v c2 (without_verifier e) =
      ap (λ o. check_countersignature p s a r r.countersignature o c) e
      ∙ check_countersignature-unasked a r r.countersignature c
  check_countersignature-Found a r c v c2 (verifier_asked t check payload v' after e f g k) =
      (λ i. check_countersignature p s a r (e i) (f i) c)
      ∙ check_countersignature-asked a r t check payload c v after g k

  module _ (a : Action) (r : Acceptance) where
    aborts_if :
        (failed : Bool) (reason : Code) (rest : Exec (Call T) Action) (c : Call T)
        → (abort_if s a failed reason >> rest) c
          ≡ (if failed then verdict s a r (some reason) c else rest c)
    unfolding abort emit_aborted
    aborts_if true reason rest c = refl
    aborts_if false reason rest c = refl

    aborts_on :
        (v : Verification) (rest : Exec (Call T) Action) (c : Call T)
        → (on_verdict s a v >> rest) c ≡ (
            if is_unchecked v
            then verdict s a r (some host_unavailable) c
            else if is_invalid v
            then verdict s a r (some host_signature_invalid) c
            else rest c)
    unfolding abort emit_aborted
    aborts_on valid rest c = refl
    aborts_on invalid rest c = refl
    aborts_on unchecked rest c = refl

    mismatched :
        (same : Bool) (c : Call T)
        → (if not same then verdict s a r (some hash_mismatch) c else pure (mark_accepted r a) c)
          ≡ verdict s a r (first_failure ((not same, hash_mismatch) ∷ [])) c
    mismatched true c = refl
    mismatched false c = refl

    aborts_on_hash :
        (attempt : Value) (stop : Bool) (hash : Text) (c : Call T)
        → compute_record_hash p attempt r.seq r.host_ts r.previous_hash ≡ ok hash
        → (check_record_hash p s a attempt r stop >> pure (mark_accepted r a)) c
          ≡ verdict s a r
              (first_failure ((stop && not (same_text hash r.record_hash), hash_mismatch) ∷ []))
              c
    unfolding check_record_hash
    aborts_on_hash attempt false hash c q = refl
    aborts_on_hash attempt true hash c q = rw q (
        aborts_if (not (same_text hash r.record_hash)) hash_mismatch (pure (mark_accepted r a)) c
        ∙ mismatched (same_text hash r.record_hash) c)

    combined :
        (lacks : Bool) (v : Verification) (differs : Bool) (c : Call T)
        → (if lacks
            then verdict s a r (some host_uncountersigned) c
            else if is_unchecked v
            then verdict s a r (some host_unavailable) c
            else if is_invalid v
            then verdict s a r (some host_signature_invalid) c
            else verdict s a r (first_failure ((differs, hash_mismatch) ∷ [])) c)
          ≡ verdict s a r
              (first_failure (
                (lacks, host_uncountersigned)
                ∷ (is_unchecked v, host_unavailable)
                ∷ (is_invalid v, host_signature_invalid)
                ∷ (differs, hash_mismatch)
                ∷ []))
              c
    combined true v differs c = refl
    combined false valid differs c = refl
    combined false invalid differs c = refl
    combined false unchecked differs c = refl

  on_accept-step :
      (a : Action) (attempt : Value) (r : Acceptance) (c c2 : Call T) (v : Verification)
      (hash : Text) (lacks : Bool)
      → Found r c v c2
      → compute_record_hash p attempt r.seq r.host_ts r.previous_hash ≡ ok hash
      → (lacks ≡ true → c ≡ c2)
      → (abort_if s a lacks host_uncountersigned
            >> (check_countersignature p s a r r.countersignature s.countersignature_verifier
                >> (check_record_hash p s a attempt r s.polluted_stop >> pure (mark_accepted r a))))
          c
        ≡ verdict s a r
            (first_failure (
              (lacks, host_uncountersigned)
              ∷ (is_unchecked v, host_unavailable)
              ∷ (is_invalid v, host_signature_invalid)
              ∷ (s.polluted_stop && not (same_text hash r.record_hash), hash_mismatch)
              ∷ []))
            c2
  on_accept-step a attempt r c c2 v hash true found q kept =
      aborts_if a r true host_uncountersigned
        (check_countersignature p s a r r.countersignature s.countersignature_verifier
          >> (check_record_hash p s a attempt r s.polluted_stop >> pure (mark_accepted r a)))
        c
      ∙ ap (verdict s a r (some host_uncountersigned)) (kept refl)
  on_accept-step a attempt r c c2 v hash false found q kept =
      let last = check_record_hash p s a attempt r s.polluted_stop >> pure (mark_accepted r a) in
      ap (λ x. (lift x.0 >> last) x.1) (check_countersignature-Found a r c v c2 found)
      ∙ aborts_on a r v last c2
      ∙ ap
          (λ x.
            if is_unchecked v
            then verdict s a r (some host_unavailable) c2
            else if is_invalid v
            then verdict s a r (some host_signature_invalid) c2
            else x)
          (aborts_on_hash a r attempt s.polluted_stop hash c2 q)
      ∙ combined a r false v (s.polluted_stop && not (same_text hash r.record_hash)) c2

  -- What becomes of an operation whose attempt the host accepted: the first rule that fails, in the
  -- order missing countersignature, countersignature not checked, countersignature not valid, record
  -- hash of another attempt, decides the reason; the `aborted` outcome is emitted with it, and the
  -- abort thrown. Where none fails the operation is returned with the accept. The recomputed hash
  -- must exist.
  pub on_accept-first_failure :
      (a : Action) (attempt : Value) (r : Acceptance) (c c2 : Call T) (v : Verification)
      (hash : Text)
      → Found r c v c2
      → compute_record_hash p attempt r.seq r.host_ts r.previous_hash ≡ ok hash
      → on_answer p s a attempt (answered (accepted r)) c
        ≡ verdict s a r (first_failure (rules s r v hash)) c2
  unfolding on_answer on_accept
  on_accept-first_failure a attempt r c c2 v hash found q =
      on_accept-step a attempt r c c2 v hash
        (s.require_countersign && not (is_some r.countersignature)) found q
        (λ lacks. Found-lacking r c v c2 found (ground arith))
