-- ===== src/Storage/Tests.antt =====
-- A store with a record in one of its partitions.
use auditable_mcp_sdk_ts.Base.{
  ◌≡◌, refl, [], ◌∷◌, lit, lookup, insert, last?, length, is_some, ◌==◌,
}
use auditable_mcp_sdk_ts.Base.{none}
use auditable_mcp_sdk_ts.Json.{obj, end}
use auditable_mcp_sdk_ts.Ledger.{SealedRecord}
use auditable_mcp_sdk_ts.Storage.{
  Store, Spec, Reachable, empty_store, appended, append, load_tail, extended, Refines,
  Reachable-Refines, append-load_tail,
}

abbrev first_record : SealedRecord
first_record = record {
  event = obj end;
  seq = 0;
  host_ts = lit "t";
  previous_hash = lit "h";
  record_hash = lit "g";
  host_signature = none;
  host_key_id = none;
  log_id = none;
}

abbrev one_record : Store
one_record = (lit "p", first_record ∷ []) ∷ []

abbrev expected : Spec
expected = extended (lit "p") first_record (λ q. [])

one_record-Reachable : Reachable one_record expected
unfolding append lookup insert
one_record-Reachable = appended (lit "p") first_record empty_store refl

Reachable-Refines_example : Refines one_record expected
Reachable-Refines_example = Reachable-Refines one_record expected one_record-Reachable

append-load_tail_example :
    (is_some (append (lit "p") first_record one_record)
      ≡ (first_record.seq == length (expected (lit "p"))))
    × (load_tail (lit "p") one_record ≡ last? (expected (lit "p")))
append-load_tail_example =
    append-load_tail one_record expected (lit "p") first_record one_record-Reachable
