-- ===== src/Samples.antt =====
-- Concrete stand-ins for the packages, which meet the laws that the theorems assume of them: an
-- injective serializer, and a digest that keeps the text and marks it. The witnesses run on these.
pub mod Encoding
pub mod Bytes
use auditable_mcp_sdk_ts.Base.{
  ℕ, ◌≡◌, ◌≢◌, refl, ◌∙◌, sym, ap, List, [], ◌∷◌, ◌++◌, Text, lit, Option, none, some, arith,
}
use auditable_mcp_sdk_ts.Base.{Bool, true, false}
use auditable_mcp_sdk_ts.Json.{ToText, Value, Members, str, bool, obj, member, end}
use auditable_mcp_sdk_ts.Fields
use auditable_mcp_sdk_ts.Host.State.{Options, World, verified, stored, load_error}
use auditable_mcp_sdk_ts.Canonical.{Packages, sha256_hex}
use auditable_mcp_sdk_ts.Hashing.{preimage, genesis_hash}
use auditable_mcp_sdk_ts.Hashing.Laws.{HashLaws}
use Encoding.{encode, number_tag, encode-inj}

abbrev pub plain_text : ToText
plain_text = record {
  number_text = number_tag;
  bigint_text = λ n. lit "0";
  json_number = number_tag;
  object_text = λ v. some (lit "[object Object]");
}

abbrev pub packages : Packages
packages = record {
  to_text = plain_text;
  jcs = λ v. some (encode v []);
  encode_utf8 = λ s. s;
  sha256 = λ s. s;
  bytes_to_hex = λ s. 1 ∷ s;
}

marked_inj : (s t : Text) → sha256_hex packages s ≡ sha256_hex packages t → s ≡ t
unfolding sha256_hex
marked_inj s t e = cc

marked_ne : (s : Text) → sha256_hex packages s ≢ genesis_hash
unfolding sha256_hex genesis_hash
marked_ne s e = ground arith

some_inj : (s t : Text) → some s ≡ some t → s ≡ t
some_inj s t e = cc

preimage-inj :
    (e e' : Value) (n n' : ℕ) (t t' h h' : Text)
    → preimage e n t h ≡ preimage e' n' t' h'
    → (e ≡ e') × (n ≡ n') × (t ≡ t') × (h ≡ h')
unfolding preimage
preimage-inj e e' n n' t t' h h' q = ground arith

preimage_parts :
    (e e' : Value) (n n' : ℕ) (t t' h h' c : Text)
    → packages.jcs (preimage e n t h) ≡ some c
    → packages.jcs (preimage e' n' t' h') ≡ some c
    → (packages.jcs e ≡ packages.jcs e') × (n ≡ n') × (t ≡ t') × (h ≡ h')
preimage_parts e e' n n' t t' h h' c a b =
    let same = encode-inj (preimage e n t h) (preimage e' n' t' h') (some_inj _ _ (a ∙ sym b)) in
    let q = preimage-inj e e' n n' t t' h h' same in
    (ap (λ (v : Value). packages.jcs v) q.0, q.1, q.2, q.3)

pub packages-HashLaws : HashLaws packages
packages-HashLaws = record {
  sha256_inj = λ v w s t a b c d. marked_inj s t;
  sha256_ne = marked_ne;
  jcs_preimage = preimage_parts;
}

abbrev pub session_a : Text
session_a = lit "123e4567-e89b-42d3-a456-426614174000"

abbrev pub id_a : Text
id_a = lit "00000000-0000-4000-8000-000000000001"

abbrev pub id_b : Text
id_b = lit "00000000-0000-4000-8000-000000000002"

abbrev pub target_members : Members
target_members =
    member Fields.kind (str (lit "database")) (member Fields.ref (str (lit "analytics")) end)

-- An event of the session `session_a`, with the members in `rest` besides.
abbrev pub event_with : Text → Text → Members → Value
event_with id outcome rest = obj (
    member Fields.id (str id) (
      member Fields.spec_version (str (lit "auditable-mcp/0.4")) (
        member Fields.ts (str (lit "2026-01-02T03:04:05.678Z")) (
          member Fields.session_id (str session_a) (
            member Fields.action_type (str (lit "db.query")) (
              member Fields.mutates (bool false) (
                member Fields.egress (bool false) (
                  member Fields.target_resource (obj target_members)
                    (member Fields.outcome (str outcome) rest)))))))))

abbrev pub attempt_a : Value
attempt_a = event_with id_a (lit "attempted") end

abbrev pub success_a : Value
success_a = event_with id_a (lit "success") end

abbrev pub refusal_b : Value
refusal_b = event_with id_b (lit "aborted") (member Fields.reason (str (lit "host-rejected")) end)

abbrev pub level1 : Options
level1 = record {
  spec_version = none;
  level = none;
  countersign = none;
  has_verifier = false;
  countersigner = none;
  log_id = none;
  has_repository = false;
}

abbrev pub world : World
world = record {
  date_now = 0;
  now = lit "2026-01-02T03:04:06.000Z";
  verify = λ event. verified;
  sign = λ payload. some (lit "c2ln");
  append = λ r. stored;
  load_tail = load_error;
}
