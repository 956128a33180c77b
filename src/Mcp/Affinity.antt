-- ===== src/Mcp/Affinity.antt =====
-- src/mcp/affinity.ts: round tokens, which name the instance that issued them, and the affinity header.
pub mod Tokens
use auditable_mcp_sdk_ts.Base.{
  ℕ, ◌+◌, Bool, true, false, ◌&&◌, ◌||◌, not, Option, none, some, List, [], ◌∷◌, ◌++◌, Text, lit,
  same_text, leb, ◌==◌, if◌then◌else◌, length,
}
use auditable_mcp_sdk_ts.Crypto.Base64.{all_of, url_character, bytes_to_base64url}

-- `ROUND_TOKEN_PREFIX`
abbrev pub round_token_prefix : Text
round_token_prefix = lit "amcp."

-- `isInstanceId`: `INSTANCE_PATTERN` is one to 64 characters of the URL alphabet.
unfoldable pub is_instance_id : Text → Bool
is_instance_id instance_name =
    leb 1 (length instance_name)
    && (leb (length instance_name) 64 && all_of url_character instance_name)

-- `newInstanceId`, of 16 random bytes
unfoldable pub new_instance_id : List ℕ → Text
new_instance_id random = bytes_to_base64url random

-- `mintRoundToken`, of 32 random bytes
unfoldable pub mint_round_token : Text → List ℕ → Text
mint_round_token instance_name random =
    round_token_prefix ++ (instance_name ++ (b'.' ∷ bytes_to_base64url random))

-- `token.slice(prefix.length)` where `token.startsWith(prefix)`
unfoldable pub after_prefix : Text → Text → Option Text
after_prefix [] token = some token
after_prefix (u ∷ us) [] = none
after_prefix (u ∷ us) (v ∷ vs) = let rest = after_prefix us vs in if u == v then rest else none

abbrev pub extend : ℕ → Option (Text × Text) → Option (Text × Text)
extend u none = none
extend u (some (before, after)) = some (u ∷ before, after)

-- The texts before and after the first dot.
unfoldable pub split_at_dot : Text → Option (Text × Text)
split_at_dot [] = none
split_at_dot (u ∷ us) =
    let rest = split_at_dot us in if u == b'.' then some ([], us) else extend u rest

-- `ROUND_TOKEN_RANDOM_LENGTH` and `ROUND_TOKEN_RANDOM_PATTERN`
unfoldable pub is_random_part : Text → Bool
is_random_part random = (length random == 43) && all_of url_character random

abbrev pub instance_of_parts : Option (Text × Text) → Option Text
instance_of_parts none = none
instance_of_parts (some (instance_name, random)) =
    if not (is_instance_id instance_name) || not (is_random_part random)
    then none
    else some instance_name

abbrev pub instance_of_rest : Option Text → Option Text
instance_of_rest none = none
instance_of_rest (some rest) = instance_of_parts (split_at_dot rest)

-- `instanceOfToken`
unfoldable pub instance_of_token : Text → Option Text
instance_of_token token = instance_of_rest (after_prefix round_token_prefix token)

-- `AFFINITY_HEADER`
abbrev pub affinity_header : Text
affinity_header = lit "Auditable-Mcp-Session"

-- `toLowerCase` on a header's name, which is ASCII
abbrev lower_unit : ℕ → ℕ
lower_unit u = if leb b'A' u && leb u b'Z' then u + 32 else u

unfoldable pub to_lower : Text → Text
to_lower [] = []
to_lower (u ∷ us) = lower_unit u ∷ to_lower us

-- The headers under any other name.
unfoldable pub other_headers : List (Text × Text) → List (Text × Text)
other_headers [] = []
other_headers ((name, value) ∷ headers) =
    let rest = other_headers headers in
    if same_text (to_lower name) (to_lower affinity_header) then rest else (name, value) ∷ rest

-- `withAffinityHeader`
unfoldable pub with_affinity_header : List (Text × Text) → Text → List (Text × Text)
with_affinity_header headers session = other_headers headers ++ (affinity_header, session) ∷ []
