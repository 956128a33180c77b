-- ===== src/Storage.antt =====
-- src/storage/memory.ts: the store in memory, a list of records for each partition.
mod Tests
use auditable_mcp_sdk_ts.Base.{
  ℕ, ◌+◌, ◌≡◌, refl, ap, ◌∙◌, arith, Bool, true, false, not, Option, none, some, List, [], ◌∷◌,
  ◌++◌, Text, text_eq, same_text, ◌==◌, if◌then◌else◌, lookup, insert, lookup-insert, last?,
  last?-append, length, length-append, is_some, same_text_iff,
}
use auditable_mcp_sdk_ts.Ledger.{SealedRecord}

abbrev pub Store : Type 0
Store = List (Text × List SealedRecord)

abbrev pub or_empty : Option (List SealedRecord) → List SealedRecord
or_empty none = []
or_empty (some rs) = rs

-- `records.length === 0 ? 0 : records[records.length - 1].seq + 1`
abbrev pub next_position : Option SealedRecord → ℕ
next_position none = 0
next_position (some r) = r.seq + 1

-- `append`; `none` where it throws a `RepositoryError`.
unfoldable pub append : Text → SealedRecord → Store → Option Store
append partition r s =
    let records = or_empty (lookup partition s) in
    if not (r.seq == next_position (last? records))
    then none
    else some (insert partition (records ++ r ∷ []) s)

-- `loadTail`
unfoldable pub load_tail : Text → Store → Option SealedRecord
load_tail partition s = last? (or_empty (lookup partition s))

-- `readAll`
unfoldable pub read_all : Text → Store → List SealedRecord
read_all partition s = or_empty (lookup partition s)

-- What the store promises: each partition is a list that only grows at its end.
abbrev pub Spec : Type 0
Spec = Text → List SealedRecord

abbrev pub extended : Text → SealedRecord → Spec → Spec
extended partition r spec q = if same_text partition q then spec q ++ r ∷ [] else spec q

-- The store holds what the specification does, each record at its own position.
pub record Refines (s : Store) (spec : Spec) : Type 0 where
  pub reads : (q : Text) → read_all q s ≡ spec q
  pub positioned : (q : Text) → next_position (last? (spec q)) ≡ length (spec q)

pub data Reachable : Store → Spec → Type 0 where
  empty_store : Reachable [] (λ q. [])
  appended :
      {s s' : Store} {spec : Spec} (partition : Text) (r : SealedRecord)
      → Reachable s spec
      → append partition r s ≡ some s'
      → Reachable s' (extended partition r spec)

read_all-insert :
    (partition q : Text) (rs : List SealedRecord) (s : Store)
    → read_all q (insert partition rs s) ≡ (if same_text partition q then rs else read_all q s)
unfolding read_all
read_all-insert partition q rs s =
    ap or_empty (lookup-insert partition q rs s) ∙ chosen (same_text partition q)
  where
    chosen :
        (b : Bool)
        → or_empty (if b then some rs else lookup q s) ≡ (if b then rs else or_empty (lookup q s))
    chosen true = refl
    chosen false = refl

append-some :
    (partition : Text) (r : SealedRecord) (s s' : Store)
    → append partition r s ≡ some s'
    → (r.seq ≡ next_position (load_tail partition s))
      × (s' ≡ insert partition (read_all partition s ++ r ∷ []) s)
unfolding append load_tail read_all
append-some partition r s s' q = ground arith

positioned_if :
    (b : Bool) (rs : List SealedRecord) (r : SealedRecord)
    → next_position (last? rs) ≡ length rs
    → (b ≡ true → r.seq ≡ length rs)
    → next_position (last? (if b then rs ++ r ∷ [] else rs))
      ≡ length (if b then rs ++ r ∷ [] else rs)
positioned_if true rs r h fits =
    ap next_position (last?-append rs r) ∙ omega (arith, fits refl, length-append rs (r ∷ []))
positioned_if false rs r h fits = h

read_if :
    (partition q : Text) (r : SealedRecord) (s : Store) (spec : Spec) (b : Bool)
    → same_text partition q ≡ b
    → ((x : Text) → read_all x s ≡ spec x)
    → (if b then read_all partition s ++ r ∷ [] else read_all q s)
      ≡ (if b then spec q ++ r ∷ [] else spec q)
read_if partition q r s spec true e reads =
    let one = (same_text_iff partition q).0 e in
    ap (λ x. read_all x s ++ r ∷ []) one ∙ ap (λ rs. rs ++ r ∷ []) (reads q)
read_if partition q r s spec false e reads = reads q

tail_of : (s : Store) (spec : Spec) (q : Text) → Refines s spec → load_tail q s ≡ last? (spec q)
unfolding load_tail read_all
tail_of s spec q f = ap last? (f.reads q)

-- After any appends, some of them refused, the store holds for each partition the records that were
-- appended to it, in order and at their positions, and nothing of another partition.
pub Reachable-Refines : (s : Store) (spec : Spec) → Reachable s spec → Refines s spec
unfolding read_all lookup
Reachable-Refines s spec empty_store = record { reads = λ q. refl; positioned = λ q. refl }
Reachable-Refines s' after (appended {s} {spec = spec} partition r before q) =
    let f = Reachable-Refines s spec before in
    let (fits, is) = append-some partition r s s' q in
    let place = fits ∙ ap next_position (tail_of s spec partition f) ∙ f.positioned partition in
    record {
      reads = λ x.
          ap (read_all x) is
          ∙ read_all-insert partition x (read_all partition s ++ r ∷ []) s
          ∙ read_if partition x r s spec (same_text partition x) refl f.reads;
      positioned = λ x.
          positioned_if (same_text partition x) (spec x) r (f.positioned x)
            (λ same. place ∙ ap (λ y. length (spec y)) ((same_text_iff partition x).0 same));
    }

append-fits :
    (partition : Text) (r : SealedRecord) (s : Store)
    → is_some (append partition r s) ≡ (r.seq == next_position (load_tail partition s))
unfolding append load_tail
append-fits partition r s = fitting (r.seq == next_position (last? (or_empty (lookup partition s))))
  where
    fitting :
        (b : Bool)
        → is_some (
            if not b
            then none
            else some (insert partition (or_empty (lookup partition s) ++ r ∷ []) s))
          ≡ b
    fitting true = refl
    fitting false = refl

-- An append succeeds exactly at the next position of its partition, and the tail that is loaded is the
-- last record appended to it.
pub append-load_tail :
    (s : Store) (spec : Spec) (partition : Text) (r : SealedRecord)
    → Reachable s spec
    → (is_some (append partition r s) ≡ (r.seq == length (spec partition)))
      × (load_tail partition s ≡ last? (spec partition))
append-load_tail s spec partition r run =
    let f = Reachable-Refines s spec run in
    let tail = tail_of s spec partition f in
    (
      append-fits partition r s
          ∙ ap (λ t. r.seq == next_position t) tail
          ∙ ap (λ n. r.seq == n) (f.positioned partition),
      tail,
    )
