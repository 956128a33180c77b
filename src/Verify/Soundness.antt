-- ===== src/Verify/Soundness.antt =====
-- `verifyChain` decides the soundness of a chain: it reports a position, a link, a hash or a
-- malformed record exactly when the records are no chain from genesis.
use auditable_mcp_sdk_ts.Base.{
  ℕ, suc, Bool, true, false, ◌&&◌, not, List, [], ◌∷◌, ◌++◌, Text, same_text, same_text_iff, ◌==◌,
  ◌≡◌, refl, ◌∙◌, sym, ap, ◌↔◌, arith,
}
use auditable_mcp_sdk_ts.Base.Exec.{Result, ok, err, not_canonical}
use auditable_mcp_sdk_ts.Base.Exec.Try.{>>=-eq-ok}
use auditable_mcp_sdk_ts.Reasons.{schema_invalid, seq_gap}
use auditable_mcp_sdk_ts.Canonical.{Packages}
use auditable_mcp_sdk_ts.Hashing.{compute_record_hash}
use auditable_mcp_sdk_ts.Ledger.{SealedRecord}
use auditable_mcp_sdk_ts.Ledger.Chain.{IsChain}
use auditable_mcp_sdk_ts.Verify.Inputs.{Issue, Inputs}
use auditable_mcp_sdk_ts.Verify.Step.{
  Progress, issue, issue_if, report, inner_object, link_issues, check_principal,
  check_countersignature, correlate, check_number, check_level2, step, after_hash, step_hashed,
  step_malformed,
}
use auditable_mcp_sdk_ts.Verify.Report.{run_steps}
use auditable_mcp_sdk_ts.Verify.Clean.{
  clean, clean-append, clean-extend, check_principal-clean, check_countersignature-clean,
  correlate-clean, check_number-clean, check_level2-clean,
}

-- What one round finds wrong with the chain, as a test.
abbrev pub hash_fits : SealedRecord → Text → Result Text → Bool
hash_fits r prev (ok h) = same_text r.previous_hash prev && same_text r.record_hash h
hash_fits r prev (err e) = false

abbrev pub prev_after : SealedRecord → Result Text → Text
prev_after r (ok h) = h
prev_after r (err e) = r.record_hash

and-false : (b : Bool) → (b && false) ≡ false
and-false true = refl
and-false false = refl

and_assoc : (a b c : Bool) → ((a && b) && c) ≡ (a && (b && c))
and_assoc true b c = refl
and_assoc false b c = refl

and-true : (b : Bool) → (b && true) ≡ b
and-true true = refl
and-true false = refl

ok-same : (s s' : Progress) → ok s ≡ ok s' → clean s'.issues ≡ clean s.issues
ok-same s s' q = ground arith

clean-link_issues :
    (r : SealedRecord) (prev h : Text)
    → clean (link_issues r prev h) ≡ (same_text r.previous_hash prev && same_text r.record_hash h)
clean-link_issues r prev h = ground arith

ok-fields :
    (s s' : Progress) (h : Text)
    → ok (record s { prev = h }) ≡ ok s'
    → (clean s'.issues ≡ clean s.issues) × (s'.prev ≡ h)
ok-fields s s' h q = ground arith

step_hashed-clean :
    (p : Packages) (inputs : Inputs) (r : SealedRecord) (h : Text) (s : Progress) {s' : Progress}
    → step_hashed p inputs r h s ≡ ok s'
    → (clean s'.issues ≡ (clean s.issues && hash_fits r s.prev (ok h))) × (s'.prev ≡ h)
unfolding step_hashed
step_hashed-clean p inputs r h s {s'} q =
    let s0 = report (link_issues r s.prev h) s in
    let (event, e0, q0) = >>=-eq-ok (inputs.adapter.event_of r.event) _ q in
    let inner = inner_object event in
    let (s1, e1, q1) = >>=-eq-ok (correlate p inputs r inner s0) _ q0 in
    let n = check_number p r inner s1 in
    let (found, e2, q2) = >>=-eq-ok (check_principal inputs r) _ q1 in
    let (s2, e3, q3) = >>=-eq-ok (check_level2 inputs r inner (report found n)) _ q2 in
    let (s3, e4, q4) = >>=-eq-ok (check_countersignature p inputs r true s2) _ q3 in
    let (same, prev) = ok-fields s3 s' h q4 in
    (
      same
          ∙ check_countersignature-clean p inputs r true s2 e4
          ∙ check_level2-clean inputs r inner (report found n) e3
          ∙ clean-extend n.issues found (check_principal-clean inputs r e2)
          ∙ check_number-clean p r inner s1
          ∙ correlate-clean p inputs r inner s0 e1
          ∙ clean-append s.issues (link_issues r s.prev h)
          ∙ ap (λ b. clean s.issues && b) (clean-link_issues r s.prev h),
      prev,
    )

step_malformed-clean :
    (p : Packages) (inputs : Inputs) (r : SealedRecord) (s : Progress) {s' : Progress}
    → step_malformed p inputs r s ≡ ok s'
    → (clean s'.issues ≡ false) × (s'.prev ≡ r.record_hash)
unfolding step_malformed
step_malformed-clean p inputs r s {s'} q =
    let (principal, e0, q0) = >>=-eq-ok (check_principal inputs r) _ q in
    let found = issue r schema_invalid ++ principal in
    let s0 = report found s in
    let (s1, e1, q1) = >>=-eq-ok (check_countersignature p inputs r false s0) _ q0 in
    let (same, prev) = ok-fields s1 s' r.record_hash q1 in
    (
      same
          ∙ check_countersignature-clean p inputs r false s0 e1
          ∙ clean-append s.issues found
          ∙ and-false (clean s.issues),
      prev,
    )

after_hash-clean :
    (p : Packages) (inputs : Inputs) (r : SealedRecord) (s : Progress) (hash : Result Text)
    {s' : Progress}
    → after_hash p inputs r s hash ≡ ok s'
    → (clean s'.issues ≡ (clean s.issues && hash_fits r s.prev hash))
      × (s'.prev ≡ prev_after r hash)
unfolding after_hash
after_hash-clean p inputs r s (ok h) q = step_hashed-clean p inputs r h s q
after_hash-clean p inputs r s (err not_canonical) q =
    let (c, e) = step_malformed-clean p inputs r s q in (c ∙ sym (and-false (clean s.issues)), e)
after_hash-clean p inputs r s (err other) q = cc

clean-seq_gap :
    (xs : List Issue) (b : Bool) (r : SealedRecord)
    → clean (xs ++ issue_if (not b) r seq_gap) ≡ (clean xs && b)
clean-seq_gap xs true r = clean-append xs [] ∙ ap (λ b. clean xs && b) refl
clean-seq_gap xs false r = clean-append xs (issue r seq_gap)

-- One round: what it finds wrong with the chain, and the link that the next record must carry.
pub step-clean :
    (p : Packages) (inputs : Inputs) (index : ℕ) (r : SealedRecord) (s : Progress) {s' : Progress}
    → step p inputs index r s ≡ ok s'
    → let hash = compute_record_hash p r.event r.seq r.host_ts s.prev in
      (clean s'.issues ≡ (clean s.issues && ((r.seq == index) && hash_fits r s.prev hash)))
      × (s'.prev ≡ prev_after r hash)
unfolding step
step-clean p inputs index r s {s'} q =
    let s0 = report (issue_if (not (r.seq == index)) r seq_gap) s in
    let hash = compute_record_hash p r.event r.seq r.host_ts s.prev in
    let (c, e) = after_hash-clean p inputs r s0 hash q in
    (
      c
          ∙ ap (λ b. b && hash_fits r s.prev hash) (clean-seq_gap s.issues (r.seq == index) r)
          ∙ and_assoc (clean s.issues) (r.seq == index) (hash_fits r s.prev hash),
      e,
    )

-- The test on the records, as the loop makes it.
pub fits : Packages → ℕ → Text → List SealedRecord → Bool
fits p n prev [] = true
fits p n prev (r ∷ rs) =
    let hash = compute_record_hash p r.event r.seq r.host_ts prev in
    ((r.seq == n) && hash_fits r prev hash) && fits p (suc n) (prev_after r hash) rs

pub run_steps-clean :
    (p : Packages) (inputs : Inputs) (n : ℕ) (rs : List SealedRecord) (s : Progress) {s' : Progress}
    → run_steps p inputs n rs s ≡ ok s'
    → clean s'.issues ≡ (clean s.issues && fits p n s.prev rs)
unfolding run_steps fits
run_steps-clean p inputs n [] s {s'} q = ok-same s s' q ∙ sym (and-true (clean s.issues))
run_steps-clean p inputs n (r ∷ rs) s {s'} q =
    let (s1, e, q1) = >>=-eq-ok (step p inputs n r s) _ q in
    let (c, prev) = step-clean p inputs n r s e in
    let hash = compute_record_hash p r.event r.seq r.host_ts s.prev in
    let here = (r.seq == n) && hash_fits r s.prev hash in
    run_steps-clean p inputs (suc n) rs s1 q1
    ∙ ap (λ b. b && fits p (suc n) s1.prev rs) c
    ∙ and_assoc (clean s.issues) here (fits p (suc n) s1.prev rs)
    ∙ ap (λ (t : Text). clean s.issues && (here && fits p (suc n) t rs)) prev

and-eq-true : (a b : Bool) → (a && b) ≡ true → (a ≡ true) × (b ≡ true)
and-eq-true a b h = ground arith

-- One record's test, as a statement.
link_fits :
    (r : SealedRecord) (n : ℕ) (prev : Text) (hash : Result Text)
    → (((r.seq == n) && hash_fits r prev hash) ≡ true)
      ↔ ((r.seq ≡ n) × (r.previous_hash ≡ prev) × (hash ≡ ok r.record_hash))
link_fits r n prev (ok h) = (
  (λ t. ground (arith, same_text_iff r.previous_hash prev, same_text_iff r.record_hash h)),
  (λ t. ground (arith, same_text_iff r.previous_hash prev, same_text_iff r.record_hash h)),
)
link_fits r n prev (err e) = ((λ t. ground arith), (λ t. ground arith))

pub prev_after-ok :
    (r : SealedRecord) (hash : Result Text)
    → hash ≡ ok r.record_hash
    → prev_after r hash ≡ r.record_hash
prev_after-ok r hash e = rw e

pub fits-iff-IsChain :
    (p : Packages) (n : ℕ) (prev : Text) (rs : List SealedRecord)
    → (fits p n prev rs ≡ true) ↔ IsChain p n prev rs
unfolding fits
fits-iff-IsChain p n prev [] = ((λ h. tt), (λ c. refl))
fits-iff-IsChain p n prev (r ∷ rs) =
    let hash = compute_record_hash p r.event r.seq r.host_ts prev in
    let here = (r.seq == n) && hash_fits r prev hash in
    let rest = fits p (suc n) (prev_after r hash) rs in
    (
      (λ h.
          let (a, b) = and-eq-true here rest h in
          let (s, l, e) = (link_fits r n prev hash).0 a in
          let c = (fits-iff-IsChain p (suc n) (prev_after r hash) rs).0 b in
          (s, l, (rw s at e), (rw (prev_after-ok r hash e) at c))),
      (λ c.
          let e : hash ≡ ok r.record_hash = rw c.0 c.2 in
          let a = (link_fits r n prev hash).1 (c.0, c.1, e) in
          let b = (fits-iff-IsChain p (suc n) r.record_hash rs).1 c.3 in
          rw (a, prev_after-ok r hash e) b),
    )
