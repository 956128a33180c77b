-- ===== src/Verify/Accounting.antt =====
-- `unaccountedSignerSeq` of src/verify.ts.
use auditable_mcp_sdk_ts.Base.{
  ℕ, Bool, true, false, ◌&&◌, not, Option, none, some, List, [], ◌∷◌, ◌++◌, Text, lit, same_text,
  leb, if◌then◌else◌, has, add, lookup, insert, texts_eq, map,
}
use auditable_mcp_sdk_ts.Base.Exec.{Result, ok}
use auditable_mcp_sdk_ts.Base.Exec.Try.{◌>>=◌}
use auditable_mcp_sdk_ts.Json.{
  Value, ToText, Number, integer, pos, get, is_text, is_object, as_text, as_number, string_of,
}
use auditable_mcp_sdk_ts.Fields
use auditable_mcp_sdk_ts.Canonical.{max_safe_integer}
use auditable_mcp_sdk_ts.Models.{attempted, aborted}
use auditable_mcp_sdk_ts.Verify.Inputs.{operation_key, is_session_scoped}
use auditable_mcp_sdk_ts.Verify.Runs.{missing_runs, sort, account}

pub record Group : Type 0 where
  pub key_id : Text
  pub session_id : Text
  pub values : List ℕ
  pub refusals : List ℕ

-- `UnaccountedSignerSeq`
pub record Gap : Type 0 where
  pub key_id : Text
  pub session_id : Text
  pub first : ℕ
  pub last : ℕ

abbrev pub Groups : Type 0
Groups = List (List Text × Group)

-- `REFUSAL_REASONS.includes(s)`
unfoldable pub is_refusal_reason : Text → Bool
is_refusal_reason s =
    if same_text s (lit "host-rejected") then true else same_text s (lit "host-unavailable")

-- The source evaluates `String(reason)` only for an aborted outcome.
unfoldable pub is_refusal : ToText → Value → Result Bool
unfolding get aborted is_refusal_reason string_of
is_refusal t event = elim (is_text aborted (get Fields.outcome event)) [
  | true ↦ do reason ← string_of t (get Fields.reason event); ok (is_refusal_reason reason)
  | false ↦ ok false
]

-- `typeof v === 'number' && Number.isSafeInteger(v) && v >= 0`
abbrev pub natural_of : Option Number → Option ℕ
natural_of (some (integer (pos n))) = if leb n max_safe_integer then some n else none
natural_of _ = none

abbrev pub empty_group : Text → Text → Group
empty_group key session = record { key_id = key; session_id = session; values = []; refusals = [] }

abbrev pub group_or : Option Group → Group → Group
group_or none g = g
group_or (some g) _ = g

abbrev pub count_in : ℕ → Bool → Group → Group
count_in n refusal g = record g {
  values = g.values ++ n ∷ [];
  refusals = if refusal then g.refusals ++ n ∷ [] else g.refusals;
}

unfoldable pub group_event : Value → Bool → Groups → Groups
unfolding get lookup insert
group_event event refusal groups = elim (as_text (get Fields.key_id event)) [
  | none ↦ groups
  | some key ↦ elim (as_text (get Fields.session_id event)) [
    | none ↦ groups
    | some session ↦ elim (natural_of (as_number (get Fields.signer_seq event))) [
      | none ↦ groups
      | some n ↦
          let name = key ∷ session ∷ [] in
          insert name (count_in n refusal (group_or (lookup name groups) (empty_group key session)))
            groups
    ]
  ]
]

-- The loop over the listed events, with the attempts sealed so far.
unfoldable pub group_events : ToText → List (List Text) → Groups → List Value → Result Groups
unfolding operation_key is_refusal has add get attempted group_event
group_events t sealed groups [] = ok groups
group_events t sealed groups (event ∷ events) = do
  operation ← operation_key t (get Fields.session_id event) (get Fields.id event)
  refused ← is_refusal t event
  let sealed' =
      if is_text attempted (get Fields.outcome event) then add operation sealed else sealed
  group_events t sealed' (group_event event (refused && not (has operation sealed)) groups) events

abbrev pub gap_of : Group → ℕ × ℕ → Gap
gap_of g (first, last) = record {
  key_id = g.key_id;
  session_id = g.session_id;
  first = first;
  last = last;
}

unfoldable pub group_gaps : Group → List Gap
unfolding missing_runs sort account
group_gaps g = map (gap_of g) (account (sort g.refusals) (missing_runs g.values))

unfoldable pub gaps_of : Groups → List Gap
unfolding group_gaps
gaps_of [] = []
gaps_of ((name, g) ∷ groups) = group_gaps g ++ gaps_of groups

-- `listed`: the objects that are events of v0.3 or later.
unfoldable pub listed : List (Option Value) → List Value
unfolding is_session_scoped
listed [] = []
listed (none ∷ events) = listed events
listed (some event ∷ events) =
    let rest = listed events in
    if is_object (some event) && is_session_scoped event then event ∷ rest else rest

unfoldable pub unaccounted_signer_seq : ToText → List (Option Value) → Result (List Gap)
unfolding group_events gaps_of listed
unaccounted_signer_seq t events = do
  groups ← group_events t [] [] (listed events)
  ok (gaps_of groups)
