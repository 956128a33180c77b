-- ===== src/Crypto/Base64.antt =====
-- src/crypto/base64.ts: standard base64 and strict base64url over bytes, which are numbers below 256.
pub mod Laws
use auditable_mcp_sdk_ts.Base.{
  ℕ, zero, suc, ◌+◌, ◌-◌, ◌*◌, ◌/◌, ◌%◌, Bool, true, false, ◌&&◌, ◌||◌, not, ltb, leb, ◌==◌, Option,
  none, some, List, [], ◌∷◌, ◌++◌, map, Text, same_text, if◌then◌else◌, length,
}
use auditable_mcp_sdk_ts.Json.{Value, str}

-- The character of six bits in the alphabet of RFC 4648 §4.
unfoldable pub character : ℕ → ℕ
character n =
    if ltb n 26
    then n + b'A'
    else if ltb n 52
    then n + 71
    else if ltb n 62
    then n - 4
    else if n == 62
    then b'+'
    else b'/'

abbrev between : ℕ → ℕ → ℕ → Bool
between low high c = leb low c && leb c high

-- The six bits that a character stands for.
unfoldable pub sextet : ℕ → Option ℕ
sextet c =
    if between b'A' b'Z' c
    then some (c - b'A')
    else if between b'a' b'z' c
    then some (c - 71)
    else if between b'0' b'9' c
    then some (c + 4)
    else if c == b'+'
    then some 62
    else if c == b'/'
    then some 63
    else none

-- `btoa`: three bytes make four characters, and the last group is padded.
unfoldable pub bytes_to_base64 : List ℕ → Text
unfolding character
bytes_to_base64 [] = []
bytes_to_base64 (a ∷ []) = character (a / 4) ∷ character ((a % 4) * 16) ∷ b'=' ∷ b'=' ∷ []
bytes_to_base64 (a ∷ b ∷ []) =
    character (a / 4) ∷ character ((a % 4) * 16 + b / 16) ∷ character ((b % 16) * 4) ∷ b'=' ∷ []
bytes_to_base64 (a ∷ b ∷ c ∷ rest) =
    character (a / 4)
    ∷ character ((a % 4) * 16 + b / 16)
    ∷ character ((b % 16) * 4 + c / 64)
    ∷ character (c % 64)
    ∷ bytes_to_base64 rest

abbrev pub prepend {ℓ} : {A : Type ℓ} → A → Option (List A) → Option (List A)
prepend x none = none
prepend x (some xs) = some (x ∷ xs)

abbrev pub read_sextet : Option ℕ → Option (List ℕ) → Option (List ℕ)
read_sextet none rest = none
read_sextet (some n) rest = prepend n rest

unfoldable pub sextets : Text → Option (List ℕ)
sextets [] = some []
sextets (c ∷ cs) = read_sextet (sextet c) (sextets cs)

-- Four groups of six bits are three bytes; bits that fill no byte are dropped.
unfoldable pub from_sextets : List ℕ → Option (List ℕ)
from_sextets [] = some []
from_sextets (w ∷ []) = none
from_sextets (w ∷ x ∷ []) = some ((w * 4 + x / 16) ∷ [])
from_sextets (w ∷ x ∷ y ∷ []) = some ((w * 4 + x / 16) ∷ ((x % 16) * 16 + y / 4) ∷ [])
from_sextets (w ∷ x ∷ y ∷ z ∷ rest) =
    let bytes = from_sextets rest in
    prepend (w * 4 + x / 16) (prepend ((x % 16) * 16 + y / 4) (prepend ((y % 4) * 64 + z) bytes))

abbrev empty : Text → Bool
empty [] = true
empty (c ∷ cs) = false

-- `.replace(/=+$/, '')`
unfoldable pub without_padding : Text → Text
without_padding [] = []
without_padding (c ∷ cs) =
    let rest = without_padding cs in if c == b'=' && empty rest then [] else c ∷ rest

abbrev pub decoded : Option (List ℕ) → Option (List ℕ)
decoded none = none
decoded (some ns) = from_sextets ns

-- `atob` on the texts it is called on: characters other than white space, padded by at most two `=`
-- to a multiple of four. It throws on a character outside the alphabet.
unfoldable pub atob : Text → Option (List ℕ)
unfolding sextet sextets from_sextets without_padding
atob text = decoded (sextets (without_padding text))

unfoldable pub all_of : (ℕ → Bool) → Text → Bool
all_of test [] = true
all_of test (c ∷ cs) = test c && all_of test cs

abbrev alphanumeric : ℕ → Bool
alphanumeric c = between b'A' b'Z' c || (between b'a' b'z' c || between b'0' b'9' c)

abbrev standard_character : ℕ → Bool
standard_character c = alphanumeric c || (c == b'+' || c == b'/')

unfoldable pub url_character : ℕ → Bool
url_character c = alphanumeric c || (c == b'_' || c == b'-')

-- At most two `=` at the end: `={0,2}$`
abbrev at_most_two : Text → Bool
at_most_two [] = true
at_most_two (c ∷ []) = c == b'='
at_most_two (c ∷ d ∷ []) = (c == b'=') && (d == b'=')
at_most_two _ = false

-- `STANDARD_BASE64`
unfoldable pub standard_base64 : Text → Bool
standard_base64 [] = true
standard_base64 (c ∷ cs) =
    let rest = standard_base64 cs in at_most_two (c ∷ cs) || (standard_character c && rest)

-- `base64ToBytes`; `none` where it throws a `TypeError`.
unfoldable pub base64_to_bytes : Text → Option (List ℕ)
unfolding standard_base64 atob
base64_to_bytes text =
    if not (length text % 4 == 0) || not (standard_base64 text) then none else atob text

-- `.replace(/\+/g, '-').replace(/\//g, '_')`
unfoldable pub to_url : ℕ → ℕ
to_url c = if c == b'+' then b'-' else if c == b'/' then b'_' else c

-- `.replace(/-/g, '+').replace(/_/g, '/')`
unfoldable pub from_url : ℕ → ℕ
from_url c = if c == b'-' then b'+' else if c == b'_' then b'/' else c

unfoldable pub bytes_to_base64url : List ℕ → Text
unfolding without_padding bytes_to_base64 to_url
bytes_to_base64url bytes = without_padding (map to_url (bytes_to_base64 bytes))

abbrev pub padding : ℕ → Text
padding zero = []
padding (suc n) = b'=' ∷ padding n

unfoldable pub padded : Text → Text
unfolding from_url
padded value = map from_url value ++ padding ((4 - length value % 4) % 4)

abbrev pub same_encoding : Text → Option (List ℕ) → Option (List ℕ)
same_encoding value none = none
same_encoding value (some raw) = if same_text (bytes_to_base64url raw) value then some raw else none

-- `base64urlToBytes`
unfoldable pub base64url_to_bytes : Value → Option (List ℕ)
unfolding all_of url_character atob padded bytes_to_base64url
base64url_to_bytes (str value) =
    if not (all_of url_character value) || (length value % 4 == 1)
    then none
    else same_encoding value (atob (padded value))
base64url_to_bytes _ = none
