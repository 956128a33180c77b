-- ===== src/Verify/Returns.antt =====
-- When `verifyChain` returns a report.
use auditable_mcp_sdk_ts.Base.{
  ℕ, suc, true, false, List, [], ◌∷◌, Text, ◌≡◌, refl, arith, ◌⊎◌, inl, inr, not, ◌==◌, ◌++◌,
}
use auditable_mcp_sdk_ts.Base.Exec.{Result, ok, err, not_canonical}
use auditable_mcp_sdk_ts.Json.{Value, is_structured}
use auditable_mcp_sdk_ts.Canonical.{Packages, canonicalize, some_or_throw}
use auditable_mcp_sdk_ts.Hashing.{compute_record_hash}
use auditable_mcp_sdk_ts.Ledger.{SealedRecord}
use auditable_mcp_sdk_ts.Verify.Inputs.{Inputs}
use auditable_mcp_sdk_ts.Verify.Accounting.{unaccounted_signer_seq}
use auditable_mcp_sdk_ts.Verify.Step.{
  Progress, check_countersignature, correlate, step_malformed, step_hashed, after_hash, step,
  inner_object, link_issues, report, check_level2, check_principal, check_number, issue, issue_if,
}
use auditable_mcp_sdk_ts.Reasons.{schema_invalid, seq_gap}
use auditable_mcp_sdk_ts.Verify.Report.{run_steps, verify_chain, start, events_of}
use auditable_mcp_sdk_ts.Verify.Readable.{
  Returns, Returns-bind, HasText, IsPayable, ArePayable, IsReadable, AreReadable, CheckersReturn,
}
use auditable_mcp_sdk_ts.Verify.Checked.{
  unaccounted-Returns, correlate-Returns, check_principal-Returns, check_level2-Returns,
  check_countersignature-Returns,
}

-- The hash of a record exists, or the record has no canonical form: nothing else is thrown.
hash_result :
    (p : Packages) (e : Value) (n : ℕ) (t h : Text)
    → Returns (compute_record_hash p e n t h) ⊎ (compute_record_hash p e n t h ≡ err not_canonical)
unfolding compute_record_hash canonicalize some_or_throw
hash_result p e n t h = ground arith

-- The events of records that can be read.
events_of-Returns :
    (inputs : Inputs) (records : List SealedRecord)
    → AreReadable inputs.adapter records
    → Returns (events_of inputs records)
unfolding events_of
events_of-Returns inputs [] reads = (_, refl)
events_of-Returns inputs (r ∷ rs) reads =
    Returns-bind (inputs.adapter.event_of r.event) _ reads.0.event_returns (λ event.
      Returns-bind (events_of inputs rs) _ (events_of-Returns inputs rs reads.1)
        (λ events. (_, refl)))

module _ (p : Packages) (texts : HasText p.to_text) (inputs : Inputs)
    (checks : CheckersReturn inputs) where
  step_hashed-Returns :
      (r : SealedRecord) (h : Text) (s : Progress)
      → IsReadable inputs.adapter r.event
      → IsPayable p r
      → Returns (step_hashed p inputs r h s)
  unfolding step_hashed
  step_hashed-Returns r h s reads pays =
      let linked = report (link_issues r s.prev h) s in
      Returns-bind (inputs.adapter.event_of r.event) _ reads.event_returns (λ event.
        let inner = inner_object event in
        Returns-bind (correlate p inputs r inner linked) _
          (correlate-Returns p texts inputs r inner linked reads)
          (λ s1.
            Returns-bind (check_principal inputs r) _ (check_principal-Returns inputs r reads)
              (λ found.
                let numbered = report found (check_number p r inner s1) in
                Returns-bind (check_level2 inputs r inner numbered) _
                  (check_level2-Returns inputs r inner numbered checks)
                  (λ s2.
                    Returns-bind (check_countersignature p inputs r true s2) _
                      (check_countersignature-Returns p inputs r true s2 checks pays)
                      (λ s3. (_, refl))))))

  step_malformed-Returns :
      (r : SealedRecord) (s : Progress)
      → IsReadable inputs.adapter r.event
      → IsPayable p r
      → Returns (step_malformed p inputs r s)
  unfolding step_malformed
  step_malformed-Returns r s reads pays =
      Returns-bind (check_principal inputs r) _ (check_principal-Returns inputs r reads)
        (λ principal.
          let found = report (issue r schema_invalid ++ principal) s in
          Returns-bind (check_countersignature p inputs r false found) _
            (check_countersignature-Returns p inputs r false found checks pays) (λ s2. (_, refl)))

  after_hash-Returns :
      (r : SealedRecord) (s : Progress) (hash : Result Text)
      → Returns hash ⊎ (hash ≡ err not_canonical)
      → IsReadable inputs.adapter r.event
      → IsPayable p r
      → Returns (after_hash p inputs r s hash)
  unfolding after_hash
  after_hash-Returns r s (ok h) made reads pays = step_hashed-Returns r h s reads pays
  after_hash-Returns r s (err not_canonical) made reads pays = step_malformed-Returns r s reads pays
  after_hash-Returns r s (err other) (inl (h, e)) reads pays = absurd cc
  after_hash-Returns r s (err other) (inr e) reads pays = absurd cc

  step-Returns :
      (n : ℕ) (r : SealedRecord) (s : Progress)
      → IsReadable inputs.adapter r.event
      → IsPayable p r
      → Returns (step p inputs n r s)
  unfolding step
  step-Returns n r s reads pays =
      after_hash-Returns r (report (issue_if (not (r.seq == n)) r seq_gap) s)
        (compute_record_hash p r.event r.seq r.host_ts s.prev)
        (hash_result p r.event r.seq r.host_ts s.prev) reads pays

  run_steps-Returns :
      (rs : List SealedRecord) (n : ℕ) (s : Progress)
      → AreReadable inputs.adapter rs
      → ArePayable p rs
      → Returns (run_steps p inputs n rs s)
  unfolding run_steps
  run_steps-Returns [] n s reads pays = (s, refl)
  run_steps-Returns (r ∷ rs) n s reads pays =
      Returns-bind (step p inputs n r s) _ (step-Returns n r s reads.0 pays.0)
        (λ s'. run_steps-Returns rs (suc n) s' reads.1 pays.1)

  -- `verifyChain` returns a report, whatever is wrong with the chain of the records, where the adapter's
  -- accessors return on each record's event, the checkers return, the expected principal is no object,
  -- every object has a primitive form, and the bytes that the countersignature of each record covers
  -- exist.
  pub verify_chain-Returns :
      (records : List SealedRecord)
      → is_structured inputs.expected_principal ≡ false
      → AreReadable inputs.adapter records
      → ArePayable p records
      → Returns (verify_chain p inputs records)
  unfolding verify_chain
  verify_chain-Returns records plain reads pays = rw plain (
      Returns-bind (run_steps p inputs 0 records start) _
        (run_steps-Returns records 0 start reads pays)
        (λ s.
          Returns-bind (events_of inputs records) _ (events_of-Returns inputs records reads)
            (λ events.
              Returns-bind (unaccounted_signer_seq p.to_text events) _
                (unaccounted-Returns p texts events) (λ gaps. (_, refl)))))
