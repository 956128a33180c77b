-- ===== src/Mcp/Tests.antt =====
-- A token and a declaration, and what is read back of them.
use auditable_mcp_sdk_ts.Base.{
  Option, false, has, text_eq, same_text, list_beq, List, [], ◌∷◌, Text, none, ℕ, zero, suc, ◌<◌,
  ◌≡◌, refl, arith, true, some, lit,
}
use auditable_mcp_sdk_ts.Hashing.{replicate}
use auditable_mcp_sdk_ts.Base.Regex.{matches, derive, nullable}
use auditable_mcp_sdk_ts.Transport.{Acceptance, Response, accepted, rejected, unavailable}
use auditable_mcp_sdk_ts.Reasons.{replay_detected}
use auditable_mcp_sdk_ts.Models.Patterns.{
  session_id_regex, uuid_regex, datetime_regex, chain_hash_regex, signature_regex,
}
use auditable_mcp_sdk_ts.Models.Schema.{non_empty_text}
use auditable_mcp_sdk_ts.Mcp.Responses.{request_meta, accept_retry}
use auditable_mcp_sdk_ts.Mcp.Responses.Sent.{
  IsAcceptance, sent_accept, sent_reject, replay_detected_ok, is_triple, AllSent, none_sent,
  also_sent,
}
use auditable_mcp_sdk_ts.Mcp.Responses.Answered.{accept_retry-request_meta}
use auditable_mcp_sdk_ts.Json.{obj, end, find_member}
use auditable_mcp_sdk_ts.Models.{l2, host}
use auditable_mcp_sdk_ts.Crypto.Base64.{all_of, url_character}
use auditable_mcp_sdk_ts.Crypto.Base64.Laws.{AllBelow, none_below, also_below}
use auditable_mcp_sdk_ts.Host.State.{Capability}
use auditable_mcp_sdk_ts.Samples.{packages, session_a, id_a, id_b}
use auditable_mcp_sdk_ts.Mcp.Affinity.{is_instance_id, mint_round_token, instance_of_token}
use auditable_mcp_sdk_ts.Mcp.Affinity.Tokens.{
  instance_of_token-mint_round_token, instance_of_token-IsToken, IsToken,
}
use auditable_mcp_sdk_ts.Mcp.Declaration.{capability_of, declare, extensions_of}
use auditable_mcp_sdk_ts.Mcp.Declaration.Declared.{capability_of-declare}

abbrev random : List ℕ
random = replicate 32 9

replicate-below : (n b : ℕ) → b < 256 → AllBelow 256 (replicate n b)
replicate-below zero b small = none_below
replicate-below (suc n) b small = also_below small (replicate-below n b small)

a1_is_instance : is_instance_id (lit "a1") ≡ true
unfolding is_instance_id all_of url_character
a1_is_instance = refl

instance_of_token-mint_round_token_example :
    instance_of_token (mint_round_token (lit "a1") random) ≡ some (lit "a1")
instance_of_token-mint_round_token_example =
    instance_of_token-mint_round_token (lit "a1") random a1_is_instance
      (replicate-below 32 9 (omega arith)) refl

instance_of_token-IsToken_example : IsToken (lit "a1") (mint_round_token (lit "a1") random)
instance_of_token-IsToken_example =
    instance_of_token-IsToken (mint_round_token (lit "a1") random) (lit "a1")
      instance_of_token-mint_round_token_example

abbrev own : Capability
own = record { spec_version = lit "auditable-mcp/0.4"; level = l2; countersign = host }

capability_of-declare_example :
    (capability_of packages.to_text (obj (declare packages.to_text end own)) ≡ some own)
    × (find_member
          (lit "x")
          (extensions_of packages.to_text (obj (declare packages.to_text end own)))
        ≡ find_member (lit "x") (extensions_of packages.to_text (obj end)))
    × (find_member (lit "x") (declare packages.to_text end own) ≡ find_member (lit "x") end)
capability_of-declare_example =
    capability_of-declare packages.to_text end b'a' (lit "uditable-mcp/0.4") l2 host (lit "x")
      (λ e. cc) (λ e. cc)

abbrev sealed_answer : Acceptance
sealed_answer = record {
  seq = 4;
  record_hash = replicate 64 b'a';
  host_ts = lit "2026-01-02T03:04:05Z";
  previous_hash = replicate 64 b'0';
  countersignature =
      some (record { host_signature = lit "c2ln"; host_key_id = lit "host-1"; log_id = lit "log" });
}

abbrev answers : List (Text × Response)
answers =
    (id_a, rejected replay_detected)
    ∷ (id_b, accepted sealed_answer)
    ∷ (id_a, accepted sealed_answer)
    ∷ []

-- The second was settled before the retry came.
abbrev awaiting : List (Text × Option Response)
awaiting = (id_a, none) ∷ (id_b, some unavailable) ∷ []

sealed_answer-IsAcceptance : IsAcceptance sealed_answer
unfolding matches derive nullable chain_hash_regex datetime_regex signature_regex non_empty_text
sealed_answer-IsAcceptance = record {
  safe = refl;
  hashed = refl;
  timed = refl;
  linked = refl;
  signed = is_triple refl refl refl;
}

answers-AllSent : AllSent answers
unfolding matches derive nullable uuid_regex session_id_regex
answers-AllSent = also_sent refl (sent_reject replay_detected_ok) (
    also_sent refl (sent_accept sealed_answer-IsAcceptance)
      (also_sent refl (sent_accept sealed_answer-IsAcceptance) none_sent))

session_a_fits : matches session_id_regex session_a ≡ true
unfolding matches derive nullable session_id_regex
session_a_fits = refl

accept_retry-request_meta_example :
    ((accept_retry (some session_a) (some (request_meta session_a answers)) awaiting []).0
      ≡ (id_a, some (accepted sealed_answer)) ∷ (id_b, some unavailable) ∷ [])
    × (has id_a
          (accept_retry (some session_a) (some (request_meta session_a answers)) awaiting []).1
        ≡ true)
    × ((accept_retry none (some (request_meta session_a answers)) awaiting []).0
        ≡ (id_a, some unavailable) ∷ (id_b, some unavailable) ∷ [])
    × (has id_a (accept_retry none (some (request_meta session_a answers)) awaiting []).1 ≡ false)
unfolding same_text list_beq has
accept_retry-request_meta_example =
    accept_retry-request_meta session_a answers awaiting [] id_a none session_a_fits answers-AllSent
      (λ e. cc)
