-- ===== src/Base/Strings.antt =====
-- JavaScript strings: sequences of UTF-16 code units. A literal is written through `lit`, which is
-- the units of an ASCII text.
use Prim.Native.Char.{code}
use Prim.Native.String.{String}
use Prim.Native.Nat.{ℕ}
use mathlib.Core.Path.{◌≡◌}
use mathlib.Core.Bool.{Bool, true}
use mathlib.Core.Logic.{◌↔◌}
use mathlib.Core.List.{List, [], ◌∷◌}
use auditable_mcp_sdk_ts.Base.Tests.{Eq, ◌==◌, ==_iff, list_beq, list_beq_iff}

abbrev pub Text : Type 0
Text = List ℕ

abbrev pub lit : String → Text
lit String.[] = []
lit (String.◌∷◌ c s) = code c ∷ lit s

-- `===` on strings
unfoldable pub same_text : Text → Text → Bool
unfolding list_beq
same_text = list_beq ◌==◌

instance abbrev pub nat_eq : Eq ℕ
nat_eq = record { beq = ◌==◌; beq_iff = ==_iff }

pub same_text_iff : (s t : Text) → (same_text s t ≡ true) ↔ (s ≡ t)
unfolding same_text
same_text_iff s t = list_beq_iff nat_eq s t

instance abbrev pub text_eq : Eq Text
text_eq = record { beq = same_text; beq_iff = same_text_iff }

pub same_texts_iff : (s t : List Text) → (list_beq same_text s t ≡ true) ↔ (s ≡ t)
same_texts_iff s t = list_beq_iff text_eq s t

-- Keys built from several strings by `JSON.stringify`, which is injective on lists of strings.
instance abbrev pub texts_eq : Eq (List Text)
texts_eq = record { beq = list_beq same_text; beq_iff = same_texts_iff }
