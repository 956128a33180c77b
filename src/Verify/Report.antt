-- ===== src/Verify/Report.antt =====
-- `verifyChain` and `verifyLedger` of src/verify.ts.
use auditable_mcp_sdk_ts.Base.{
  ℕ, suc, ◌+◌, Bool, true, false, ◌&&◌, ◌||◌, not, Option, none, some, List, [], ◌∷◌, ◌++◌, Text,
  same_text, ◌==◌, is_some, if◌then◌else◌, length, map, ltb,
}
use auditable_mcp_sdk_ts.Base.Exec.{Result, ok, invalid_argument}
use auditable_mcp_sdk_ts.Base.Exec.Try.{◌>>=◌, ◌>>◌, throw_if}
use auditable_mcp_sdk_ts.Json.{Value, get, is_object, is_structured, as_text}
use auditable_mcp_sdk_ts.Fields
use auditable_mcp_sdk_ts.Reasons.{Code, schema_invalid, signer_seq_gap, digest_mismatch}
use auditable_mcp_sdk_ts.Canonical.{Packages}
use auditable_mcp_sdk_ts.Hashing.{genesis_hash}
use auditable_mcp_sdk_ts.Models.{shape, or_else}
use auditable_mcp_sdk_ts.Models.Earlier.{first_sealed_validation_error, known_versions}
use auditable_mcp_sdk_ts.Ledger.{SealedRecord}
use auditable_mcp_sdk_ts.Verify.Inputs.{
  Issue, Inputs, Report, Check, countersignature, level_2_signature,
}
use auditable_mcp_sdk_ts.Verify.Accounting.{unaccounted_signer_seq, Gap}
use auditable_mcp_sdk_ts.Verify.Step.{Progress, step}

abbrev pub start : Progress
start = record {
  issues = [];
  attempted = [];
  numbered = [];
  prev = genesis_hash;
  countersignature_unchecked = false;
  l2_unchecked = false;
}

unfoldable pub run_steps : Packages → Inputs → ℕ → List SealedRecord → Progress → Result Progress
unfolding step
run_steps p inputs index [] s = ok s
run_steps p inputs index (r ∷ rs) s = do
  s' ← step p inputs index r s
  run_steps p inputs (suc index) rs s'

abbrev pub whole_ledger : Code → Issue
whole_ledger kind = record { seq = none; kind = kind }

abbrev pub gap_issue : Gap → Issue
gap_issue gap = whole_ledger signer_seq_gap

unfoldable pub digest_issues : Option Text → Text → List Issue
digest_issues none computed = []
digest_issues (some anchored) computed =
    if same_text anchored computed then [] else whole_ledger digest_mismatch ∷ []

abbrev pub no_issues : List Issue → Bool
no_issues [] = true
no_issues (i ∷ is) = false

abbrev pub unchecked_of : Progress → List Check
unchecked_of s =
    (if s.countersignature_unchecked then countersignature ∷ [] else [])
    ++ (if s.l2_unchecked then level_2_signature ∷ [] else [])

abbrev nothing_unchecked : List Check → Bool
nothing_unchecked [] = true
nothing_unchecked (c ∷ cs) = false

abbrev pub report_of : ℕ → Progress → List Issue → Report
report_of count s issues = record {
  is_ok = no_issues issues;
  count = count;
  computed_digest = s.prev;
  issues = issues;
  unchecked = unchecked_of s;
  complete = no_issues issues && nothing_unchecked (unchecked_of s);
}

-- `records.map((record) => adapter.eventOf(record.event))`
unfoldable pub events_of : Inputs → List SealedRecord → Result (List (Option Value))
events_of inputs [] = ok []
events_of inputs (r ∷ rs) = do
  event ← inputs.adapter.event_of r.event
  events ← events_of inputs rs
  ok (event ∷ events)

unfoldable pub verify_chain : Packages → Inputs → List SealedRecord → Result Report
unfolding run_steps events_of unaccounted_signer_seq digest_issues
verify_chain p inputs records = do
  throw_if (is_structured inputs.expected_principal) invalid_argument
  s ← run_steps p inputs 0 records start
  events ← events_of inputs records
  gaps ← unaccounted_signer_seq p.to_text events
  ok (
      report_of (length records) s
        (s.issues ++ (map gap_issue gaps ++ digest_issues inputs.anchored_digest s.prev)))

-- `KNOWN_SPEC_VERSIONS.indexOf(version) + 1`: 0 for a version that is not known.
unfoldable pub rank_in : ℕ → List Text → Text → ℕ
rank_in n [] v = 0
rank_in n (t ∷ ts) v = if same_text t v then n else rank_in (n + 1) ts v

unfoldable pub version_rank : Option Value → ℕ
unfolding rank_in known_versions get
version_rank inner = elim (if is_object inner then inner else none) [
  | none ↦ 0
  | some e ↦ elim (as_text (get Fields.spec_version e)) [
    | none ↦ 0
    | some v ↦ rank_in 1 known_versions v
  ]
]

-- `reported.has(seq)`
unfoldable pub reported : List Issue → ℕ → Bool
reported [] n = false
reported (i ∷ is) n =
    elim i.kind [ schema_invalid ↦ elim i.seq [ none ↦ false | some m ↦ m == n ] | _ ↦ false ]
    || reported is n

-- The loop of `verifyLedger`; `latest` is one more than in the source.
unfoldable pub schema_issues : Inputs → List Issue → ℕ → List SealedRecord → Result (List Issue)
unfolding version_rank reported first_sealed_validation_error
schema_issues inputs known latest [] = ok []
schema_issues inputs known latest (r ∷ rs) = do
  inner ← inputs.adapter.event_of r.event
  let rank = version_rank inner
  let structural =
      or_else (first_sealed_validation_error inner)
        (if not (rank == 0) && ltb rank latest then some shape else none)
  rest ← schema_issues inputs known (if ltb latest rank then rank else latest) rs
  ok (
      if is_some structural && not (reported known r.seq)
      then record { seq = some r.seq; kind = schema_invalid } ∷ rest
      else rest)

unfoldable pub with_schema_issues : Report → List Issue → Report
with_schema_issues rep [] = rep
with_schema_issues rep (i ∷ is) = record rep {
  is_ok = false;
  issues = rep.issues ++ i ∷ is;
  complete = false;
}

unfoldable pub verify_ledger : Packages → Inputs → List SealedRecord → Result Report
unfolding verify_chain schema_issues with_schema_issues
verify_ledger p inputs records = do
  rep ← verify_chain p inputs records
  more ← schema_issues inputs rep.issues 0 records
  ok (with_schema_issues rep more)
