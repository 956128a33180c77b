-- ===== src/Verify/Throws.antt =====
-- A record on which `verifyChain` throws: its hash can be recomputed, and the bytes that its
-- countersignature covers do not exist.
use auditable_mcp_sdk_ts.Base.{
  ℕ, Bool, ◌||◌, true, false, not, some, List, ◌∷◌, Text, ◌≡◌, refl, ◌==◌, arith,
}
use auditable_mcp_sdk_ts.Base.Exec.{Result, ok, err, Error, not_canonical}
use auditable_mcp_sdk_ts.Base.Exec.Try.{◌>>=◌}
use auditable_mcp_sdk_ts.Json.{Value, is_structured, obj, member, end, str}
use auditable_mcp_sdk_ts.Fields
use auditable_mcp_sdk_ts.Reasons.{seq_gap}
use auditable_mcp_sdk_ts.Canonical.{Packages, canonicalize, has_lone_surrogate}
use auditable_mcp_sdk_ts.Canonical.Surrogates.{lone_surrogate}
use auditable_mcp_sdk_ts.Hashing.{
  compute_record_hash, countersignature_payload, genesis_hash, seq_value,
}
use auditable_mcp_sdk_ts.Ledger.{SealedRecord}
use auditable_mcp_sdk_ts.Verify.Inputs.{Inputs}
use auditable_mcp_sdk_ts.Verify.Step.{
  full, triple_of, check_signature, check_countersignature, correlate, check_principal,
  check_number, check_level2, step_hashed, after_hash, step, inner_object, link_issues, report,
  issue_if,
}
use auditable_mcp_sdk_ts.Verify.Report.{run_steps, verify_chain, start}
use auditable_mcp_sdk_ts.Verify.Readable.{HasText, Returns, IsReadable, CheckersReturn}
use auditable_mcp_sdk_ts.Verify.Checked.{
  correlate-Returns, check_principal-Returns, check_level2-Returns,
}

throws-bind {ℓ κ} :
    {A : Type ℓ} {B : Type κ} (m : Result A) (f : A → Result B) (e : Error)
    → m ≡ err e
    → (m >>= f) ≡ err e
throws-bind (ok a) f e q = cc
throws-bind (err d) f e q = cc

passes-bind {ℓ κ} :
    {A : Type ℓ} {B : Type κ} (m : Result A) (f : A → Result B) (e : Error)
    → Returns m
    → ((a : A) → f a ≡ err e)
    → (m >>= f) ≡ err e
passes-bind (ok a) f e r k = k a
passes-bind (err d) f e (a, q) k = absurd cc

lone-throws :
    (p : Packages) (v : Value) → has_lone_surrogate v ≡ true → canonicalize p v ≡ err not_canonical
unfolding canonicalize
lone-throws p v lone = ground arith

or_middle : (a b c : Bool) → b ≡ true → ((a || b) || c) ≡ true
or_middle a b c e = ground arith

or_last : (a b : Bool) → b ≡ true → (a || b) ≡ true
or_last a b e = ground arith

payload-throws :
    (p : Packages) (n : ℕ) (t log_id h k : Text)
    → lone_surrogate log_id ≡ true
    → countersignature_payload p n t log_id h k ≡ err not_canonical
unfolding countersignature_payload
payload-throws p n t log_id h k lone =
    throws-bind
      (canonicalize p (
        obj (
          member Fields.host_ts (str t) (
            member Fields.log_id (str log_id) (
              member Fields.previous_hash (str h)
                (member Fields.record_hash (str k) (member Fields.seq (seq_value n) end)))))))
      _ not_canonical
      (lone-throws p _ (unfold has_lone_surrogate in or_last _ _ (or_middle _ _ _ lone)))

module _ (p : Packages) (inputs : Inputs) (texts : HasText p.to_text) where
  check_signature-throws :
      (r : SealedRecord) (s key log_id : Text) (checker : Text → Text → List ℕ → Result Bool)
      → inputs.countersignature_checker ≡ some checker
      → lone_surrogate log_id ≡ true
      → check_signature p inputs r true (full s key log_id) ≡ err not_canonical
  unfolding check_signature
  check_signature-throws r s key log_id checker given lone = rw given (
      throws-bind (countersignature_payload p r.seq r.host_ts log_id r.previous_hash r.record_hash)
        _ not_canonical
        (payload-throws p r.seq r.host_ts log_id r.previous_hash r.record_hash lone))

  -- `verifyChain` throws the serializer's error on records whose first has a hash that can be recomputed,
  -- all three members of a countersignature, and a lone surrogate in its `log_id`, where a checker for
  -- countersignatures is given, the expected principal is no object, every object has a primitive form,
  -- and the adapter's accessors and the checkers return.
  pub verify_chain-throws :
      (r : SealedRecord) (rs : List SealedRecord) (hash s key log_id : Text)
      (checker : Text → Text → List ℕ → Result Bool)
      → is_structured inputs.expected_principal ≡ false
      → IsReadable inputs.adapter r.event
      → CheckersReturn inputs
      → compute_record_hash p r.event r.seq r.host_ts genesis_hash ≡ ok hash
      → triple_of r.host_signature r.host_key_id r.log_id ≡ full s key log_id
      → inputs.countersignature_checker ≡ some checker
      → lone_surrogate log_id ≡ true
      → verify_chain p inputs (r ∷ rs) ≡ err not_canonical
  unfolding verify_chain run_steps step step_hashed check_countersignature after_hash
  verify_chain-throws r rs hash s key log_id checker plain reads checks hashed triple given lone =
      let s0 = report (issue_if (not (r.seq == 0)) r seq_gap) start in
      let linked = report (link_issues r genesis_hash hash) s0 in
      rw (plain, hashed, triple, check_signature-throws r s key log_id checker given lone)
        (throws-bind _ _ not_canonical (
          throws-bind _ _ not_canonical (
            passes-bind (inputs.adapter.event_of r.event) _ not_canonical reads.event_returns
              (λ event.
                let inner = inner_object event in
                passes-bind (correlate p inputs r inner linked) _ not_canonical
                  (correlate-Returns p texts inputs r inner linked reads)
                  (λ s1.
                    passes-bind (check_principal inputs r) _ not_canonical
                      (check_principal-Returns inputs r reads)
                      (λ found.
                        let numbered = report found (check_number p r inner s1) in
                        passes-bind (check_level2 inputs r inner numbered) _ not_canonical
                          (check_level2-Returns inputs r inner numbered checks) (λ s2. refl)))))))
