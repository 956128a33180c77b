-- ===== src/Mcp/Declaration.antt =====
-- src/mcp/declaration.ts: declaring the extension in a capabilities object, and reading a declaration;
-- with `auditCapabilitySchema` of src/models.ts.
pub mod Declared
use auditable_mcp_sdk_ts.Base.{
  ℕ, suc, Bool, true, false, Option, none, some, List, [], ◌∷◌, Text, lit, same_text, if◌then◌else◌,
}
use auditable_mcp_sdk_ts.Json.{
  Value, str, arr, obj, Items, nil, cons, Members, end, member, ToText, integer, pos, get, as_text,
  find_member,
}
use auditable_mcp_sdk_ts.Json.Objects.{assign}
use auditable_mcp_sdk_ts.Fields
use auditable_mcp_sdk_ts.Models.{Level, l1, l2, Countersign, uncountersigned, host, needed}
use auditable_mcp_sdk_ts.Models.Schema.{non_empty_text, text_among, strict_object}
use auditable_mcp_sdk_ts.Host.State.{Capability}

-- `EXTENSION_ID` and `EXTENSIONS_MEMBER`
abbrev pub extension_id : Text
extension_id = lit "com.timberlandchapel/auditable-mcp"

abbrev pub extensions_member : Text
extensions_member = lit "extensions"

abbrev pub level_text : Level → Text
level_text l1 = lit "L1"
level_text l2 = lit "L2"

abbrev pub countersign_text : Countersign → Text
countersign_text uncountersigned = lit "none"
countersign_text host = lit "host"

-- `AuditCapability` as an object; its `attempt` has one value.
abbrev pub capability_value : Capability → Value
capability_value c = obj (
    member Fields.spec_version (str c.spec_version) (
      member Fields.level (str (level_text c.level)) (
        member Fields.attempt (str (lit "request"))
          (member Fields.countersign (str (countersign_text c.countersign)) end))))

-- `auditCapabilitySchema`
unfoldable pub audit_capability_schema : Value → Bool
audit_capability_schema = strict_object (
    needed Fields.spec_version non_empty_text
    ∷ needed Fields.level (text_among (lit "L1" ∷ lit "L2" ∷ []))
    ∷ needed Fields.attempt (text_among (lit "request" ∷ []))
    ∷ needed Fields.countersign (text_among (lit "none" ∷ lit "host" ∷ []))
    ∷ [])

abbrev level_of : Text → Level
level_of t = if same_text t (lit "L2") then l2 else l1

abbrev countersign_of : Text → Countersign
countersign_of t = if same_text t (lit "host") then host else uncountersigned

abbrev or_empty : Option Text → Text
or_empty none = []
or_empty (some t) = t

-- What a value that the schema admits is read as.
abbrev pub read_capability : Value → Capability
read_capability v = record {
  spec_version = or_empty (as_text (get Fields.spec_version v));
  level = level_of (or_empty (as_text (get Fields.level v)));
  countersign = countersign_of (or_empty (as_text (get Fields.countersign v)));
}

-- The members of an array as an object: its indices.
unfoldable pub indexed : ToText → ℕ → Items → Members
indexed t n nil = end
indexed t n (cons v vs) = member (t.number_text (integer (pos n))) v (indexed t (suc n) vs)

abbrev pub object_members : ToText → Option Value → Members
object_members t (some (obj ms)) = ms
object_members t (some (arr vs)) = indexed t 0 vs
object_members t _ = end

-- `extensionsOf`
unfoldable pub extensions_of : ToText → Value → Members
extensions_of t capabilities = object_members t (get extensions_member capabilities)

-- `declare`, and what `declareInto` writes: the audit extension beside the others.
unfoldable pub declare : ToText → Members → Capability → Members
declare t capabilities c =
    assign extensions_member
      (obj (assign extension_id (capability_value c) (extensions_of t (obj capabilities))))
      capabilities

abbrev pub parsed_capability : Option Value → Option Capability
parsed_capability none = none
parsed_capability (some v) = if audit_capability_schema v then some (read_capability v) else none

-- `capabilityOf`
unfoldable pub capability_of : ToText → Value → Option Capability
capability_of t capabilities =
    parsed_capability (find_member extension_id (extensions_of t capabilities))
