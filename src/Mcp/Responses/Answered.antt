-- ===== src/Mcp/Responses/Answered.antt =====
-- A retry settles each attempt of its round with the host's own answer, or with `unavailable`.
use auditable_mcp_sdk_ts.Base.{
  Bool-cases, inl, inr, ◌&&◌, ◌||◌, not, is_some, has, add, text_eq, has-add_self, has-add_ne, Bool,
  ◌≢◌, false, ap, ◌∙◌, same_text_iff, true, ◌≡◌, refl, arith, Option, none, some, List, [], ◌∷◌,
  Text, same_text, list_beq, if◌then◌else◌,
}
use auditable_mcp_sdk_ts.Fields
use auditable_mcp_sdk_ts.Base.Regex.{matches}
use auditable_mcp_sdk_ts.Json.{Value, Members, member, end, obj, str, get, find_member}
use auditable_mcp_sdk_ts.Transport.{Response, unavailable}
use auditable_mcp_sdk_ts.Models.Patterns.{session_id_regex, uuid_regex}
use auditable_mcp_sdk_ts.Models.Schema.{
  strict_object, all_known, known_name, fields_hold, text_matching,
}
use auditable_mcp_sdk_ts.Models.Responses.{
  attempt_response_schema, audit_request_meta_schema, responses_schema, responses_hold,
  responses_name,
}
use auditable_mcp_sdk_ts.Json.Objects.{assign, find_member-assign}
use auditable_mcp_sdk_ts.Mcp.Responses.{
  settle_pending, is_accepted, settle_awaiting, accept_retry, assign_responses, retry_responses,
  names_session, response_value, request_meta, response_or_unavailable,
}
use auditable_mcp_sdk_ts.Mcp.Responses.Sent.{AllSent, none_sent, also_sent, reads_back}

-- A member that is assigned fits, and leaves the others as they were.
hold-assign :
    (id : Text) (v : Value) (ms : Members)
    → matches uuid_regex id ≡ true
    → attempt_response_schema v ≡ true
    → responses_hold ms ≡ true
    → responses_hold (assign id v ms) ≡ true
unfolding responses_hold assign
hold-assign id v end u f h = rw (u, f) refl
hold-assign id v (member k w ms) u f h = ground (arith, hold-assign id v ms u f)

all_hold :
    (rs : List (Text × Response)) (ms : Members)
    → AllSent rs
    → responses_hold ms ≡ true
    → responses_hold (assign_responses rs ms) ≡ true
unfolding assign_responses
all_hold [] ms none_sent h = h
all_hold ((id, r) ∷ rs) ms (also_sent u i is) h =
    all_hold rs (assign id (response_value r) ms) is
      (hold-assign id (response_value r) ms u (reads_back r i).0 h)

-- The last answer under an id, or else the response `r`.
abbrev pub last_answer : Text → Response → List (Text × Response) → Response
last_answer id r [] = r
last_answer id r ((k, answer) ∷ rs) = last_answer id (if same_text k id then answer else r) rs

all_read :
    (id : Text) (rs : List (Text × Response)) (ms : Members)
    → AllSent rs
    → response_or_unavailable (find_member id (assign_responses rs ms))
      ≡ last_answer id (response_or_unavailable (find_member id ms)) rs
unfolding assign_responses
all_read id [] ms none_sent = refl
all_read id ((k, r) ∷ rs) ms (also_sent u i is) =
    let found : response_or_unavailable (find_member id (assign k (response_value r) ms))
        ≡ (if same_text k id then r else response_or_unavailable (find_member id ms)) =
      ap response_or_unavailable (find_member-assign k id (response_value r) ms)
      ∙ ground (arith, (reads_back r i).1) in
    all_read id rs (assign k (response_value r) ms) is ∙ ap (λ d. last_answer id d rs) found

fits_meta :
    (session : Text) (rs : List (Text × Response))
    → matches session_id_regex session ≡ true
    → AllSent rs
    → audit_request_meta_schema (request_meta session rs) ≡ true
unfolding audit_request_meta_schema responses_schema responses_hold request_meta strict_object
    all_known known_name fields_hold text_matching find_member same_text list_beq
fits_meta session rs u is = rw (u, all_hold rs end is refl) refl

session_of-request_meta :
    (session : Text) (rs : List (Text × Response))
    → get Fields.session_id (request_meta session rs) ≡ some (str session)
unfolding get find_member same_text list_beq request_meta
session_of-request_meta session rs = refl

responses_of-request_meta :
    (session : Text) (rs : List (Text × Response))
    → get responses_name (request_meta session rs) ≡ some (obj (assign_responses rs end))
unfolding get find_member same_text list_beq request_meta
responses_of-request_meta session rs = refl

names_other :
    (call : Option Text) (session : Text)
    → call ≢ some session
    → names_session call (some session) ≡ false
names_other none session other = refl
names_other (some s) session other = ground (arith, same_text_iff session s)

-- What attempts come to be settled with, where `answer` is their answer by id: the first settlement
-- of each stands.
abbrev pub settled_by :
    (Text → Response) → List (Text × Option Response) → List (Text × Option Response)
settled_by answer [] = []
settled_by answer ((id, pending) ∷ rest) =
    (id, (settle_pending (answer id) pending).0) ∷ settled_by answer rest

-- The attempt `id` was not settled before, and `answer` accepts it.
abbrev pub newly_accepted : (Text → Response) → Text → List (Text × Option Response) → Bool
newly_accepted answer id [] = false
newly_accepted answer id ((k, pending) ∷ rest) =
    (same_text k id && (not (is_some pending) && is_accepted (answer k)))
    || newly_accepted answer id rest

has_after :
    (id k : Text) (b : Bool) (ids : List Text)
    → has id (if b then add k ids else ids) ≡ (has id ids || (same_text k id && b))
has_after id k false ids = ground arith
has_after id k true ids = elim (Bool-cases (same_text k id)) [
  | inl same ↦ ground (arith, same_text_iff k id, has-add_self id ids)
  | inr other ↦ ground (arith, same_text_iff k id, has-add_ne id k ids)
]

or_assoc : (a b c : Bool) → ((a || b) || c) ≡ (a || (b || c))
or_assoc a b c = ground arith

none_accepted :
    (id : Text) (awaiting : List (Text × Option Response))
    → newly_accepted (λ k. unavailable) id awaiting ≡ false
none_accepted id [] = refl
none_accepted id ((k, none) ∷ rest) = ground (arith, none_accepted id rest)
none_accepted id ((k, some r) ∷ rest) = ground (arith, none_accepted id rest)

module _ (responses : Members) (answer : Text → Response)
    (answers : (id : Text) → response_or_unavailable (find_member id responses) ≡ answer id) where
  settle_awaiting-settled :
      (awaiting : List (Text × Option Response)) (ids : List Text)
      → (settle_awaiting responses awaiting ids).0 ≡ settled_by answer awaiting
  unfolding settle_awaiting
  settle_awaiting-settled [] ids = refl
  settle_awaiting-settled ((id, none) ∷ rest) ids =
      let ids' =
        if is_accepted (response_or_unavailable (find_member id responses))
        then add id ids
        else ids in
      λ i. (id, some (answers id i)) ∷ settle_awaiting-settled rest ids' i
  settle_awaiting-settled ((id, some earlier) ∷ rest) ids =
      ap (λ l. (id, some earlier) ∷ l) (settle_awaiting-settled rest ids)

  settle_awaiting-accepted :
      (id : Text) (awaiting : List (Text × Option Response)) (ids : List Text)
      → has id (settle_awaiting responses awaiting ids).1
        ≡ (has id ids || newly_accepted answer id awaiting)
  unfolding settle_awaiting
  settle_awaiting-accepted id [] ids = ground arith
  settle_awaiting-accepted id ((k, none) ∷ rest) ids =
      let ids' =
        if is_accepted (response_or_unavailable (find_member k responses))
        then add k ids
        else ids in
      settle_awaiting-accepted id rest ids'
      ∙ ap (λ b. b || newly_accepted answer id rest)
          (has_after id k (is_accepted (response_or_unavailable (find_member k responses))) ids)
      ∙ rw (answers k) (
          or_assoc (has id ids) (same_text k id && is_accepted (answer k))
            (newly_accepted answer id rest))
  settle_awaiting-accepted id ((k, some earlier) ∷ rest) ids =
      settle_awaiting-accepted id rest ids ∙ ground arith

module _ (session : Text) (rs : List (Text × Response)) where
  retried_with :
      (call : Option Text) (b : Bool)
      → matches session_id_regex session ≡ true
      → AllSent rs
      → names_session call (some session) ≡ b
      → retry_responses call (some (request_meta session rs))
        ≡ (if b then assign_responses rs end else end)
  unfolding retry_responses
  retried_with call b u is e =
      rw
        (
          fits_meta session rs u is,
          session_of-request_meta session rs,
          responses_of-request_meta session rs,
          e,
        )
        refl

  -- What a retry of this session does to the attempts of a call.
  own_answers :
      (id : Text)
      → matches session_id_regex session ≡ true
      → AllSent rs
      → response_or_unavailable
          (find_member id (retry_responses (some session) (some (request_meta session rs))))
        ≡ last_answer id unavailable rs
  unfolding find_member
  own_answers id u is =
      ap (λ ms. response_or_unavailable (find_member id ms))
        (retried_with (some session) true u is ((same_text_iff session session).1 refl))
      ∙ all_read id rs end is

  no_answers :
      (id : Text) (other : Option Text)
      → matches session_id_regex session ≡ true
      → AllSent rs
      → other ≢ some session
      → response_or_unavailable
          (find_member id (retry_responses other (some (request_meta session rs))))
        ≡ unavailable
  unfolding find_member
  no_answers id other u is away =
      ap (λ ms. response_or_unavailable (find_member id ms))
        (retried_with other false u is (names_other other session away))

  -- A retry that carries a session's id and well-formed answers, each assigned under a UUID, settles
  -- the attempts that its round awaits, and no others. In a call of that session each is settled with
  -- the last answer under its id, or with `unavailable` where none is; in a call of another session, or
  -- of none, each with `unavailable`. An attempt that was settled before keeps its settlement. The
  -- accepted ids are those that were accepted before, and the awaited ones that this retry was the
  -- first to settle, with an accept; a retry of another session adds none.
  pub accept_retry-request_meta :
      (awaiting : List (Text × Option Response)) (ids : List Text) (id : Text) (other : Option Text)
      → matches session_id_regex session ≡ true
      → AllSent rs
      → other ≢ some session
      → ((accept_retry (some session) (some (request_meta session rs)) awaiting ids).0
          ≡ settled_by (λ k. last_answer k unavailable rs) awaiting)
        × (has id (accept_retry (some session) (some (request_meta session rs)) awaiting ids).1
            ≡ (has id ids || newly_accepted (λ k. last_answer k unavailable rs) id awaiting))
        × ((accept_retry other (some (request_meta session rs)) awaiting ids).0
            ≡ settled_by (λ k. unavailable) awaiting)
        × (has id (accept_retry other (some (request_meta session rs)) awaiting ids).1 ≡ has id ids)
  unfolding accept_retry
  accept_retry-request_meta awaiting ids id other u is away =
      let mine = retry_responses (some session) (some (request_meta session rs)) in
      let theirs = retry_responses other (some (request_meta session rs)) in
      let answer = λ (k : Text). last_answer k unavailable rs in
      let refusal = λ (k : Text). unavailable in
      let own = λ (k : Text). own_answers k u is in
      let none_own = λ (k : Text). no_answers k other u is away in
      (
        settle_awaiting-settled mine answer own awaiting ids,
        settle_awaiting-accepted mine answer own id awaiting ids,
        settle_awaiting-settled theirs refusal none_own awaiting ids,
        settle_awaiting-accepted theirs refusal none_own id awaiting ids
            ∙ ground (arith, none_accepted id awaiting),
      )
