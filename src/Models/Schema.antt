-- ===== src/Models/Schema.antt =====
-- What the program uses of its schema language: a strict object is a list of members, each with a
-- test and the mark whether it may be missing; a member of any other name is refused.
use auditable_mcp_sdk_ts.Base.{
  Bool, true, false, ◌&&◌, ◌||◌, Option, none, some, List, [], ◌∷◌, Text, same_text, leb,
}
use auditable_mcp_sdk_ts.Base.Regex.{Regex, matches}
use auditable_mcp_sdk_ts.Json.{
  Value, bool, num, str, obj, Members, end, member, integer, pos, find_member,
}
use auditable_mcp_sdk_ts.Canonical.{max_safe_integer}

pub data Presence : Type 0 where
  required optional : Presence

pub record Field : Type 0 where
  pub name : Text
  pub presence : Presence
  pub test : Value → Bool

-- `z.string()`
unfoldable pub any_text : Value → Bool
any_text (str s) = true
any_text _ = false

-- `z.string().min(1)`
unfoldable pub non_empty_text : Value → Bool
non_empty_text (str (u ∷ us)) = true
non_empty_text _ = false

-- `z.string().regex(r)`
unfoldable pub text_matching : Regex → Value → Bool
text_matching r (str s) = matches r s
text_matching r _ = false

abbrev pub one_of_texts : List Text → Text → Bool
one_of_texts [] s = false
one_of_texts (t ∷ ts) s = same_text t s || one_of_texts ts s

-- `z.enum([…])`, and `z.literal(t)` for one text
unfoldable pub text_among : List Text → Value → Bool
text_among ts (str s) = one_of_texts ts s
text_among ts _ = false

-- `z.boolean()`
unfoldable pub any_bool : Value → Bool
any_bool (bool b) = true
any_bool _ = false

-- `z.int().min(0).max(MAX_SAFE_INTEGER)`
unfoldable pub safe_natural : Value → Bool
safe_natural (num (integer (pos n))) = leb n max_safe_integer
safe_natural _ = false

-- `z.record(z.string(), z.unknown())`
unfoldable pub any_object : Value → Bool
any_object (obj ms) = true
any_object _ = false

unfoldable pub known_name : List Field → Text → Bool
known_name [] k = false
known_name (f ∷ fs) k = same_text f.name k || known_name fs k

unfoldable pub all_known : List Field → Members → Bool
unfolding known_name
all_known fs end = true
all_known fs (member k v ms) = known_name fs k && all_known fs ms

abbrev field_holds : Presence → (Value → Bool) → Option Value → Bool
field_holds required test none = false
field_holds optional test none = true
field_holds _ test (some v) = test v

unfoldable pub fields_hold : List Field → Members → Bool
unfolding find_member
fields_hold [] ms = true
fields_hold (f ∷ fs) ms = field_holds f.presence f.test (find_member f.name ms) && fields_hold fs ms

-- `z.strictObject({…})`
unfoldable pub strict_object : List Field → Value → Bool
unfolding all_known fields_hold
strict_object fs (obj ms) = all_known fs ms && fields_hold fs ms
strict_object fs _ = false
