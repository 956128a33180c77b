-- ===== src/Mcp/Declaration/Declared.antt =====
-- A declaration of src/mcp/declaration.ts is read back, and leaves the rest of the capabilities alone.
use auditable_mcp_sdk_ts.Base.{
  ℕ, ◌≡◌, ◌≢◌, refl, ap, ◌∙◌, arith, false, some, ◌∷◌, Text, same_text, same_text_iff, list_beq,
}
use auditable_mcp_sdk_ts.Json.{Value, obj, Members, ToText, get, find_member}
use auditable_mcp_sdk_ts.Json.Objects.{assign, find_member-assign, find_member-assign_self}
use auditable_mcp_sdk_ts.Models.{Level, l1, l2, Countersign, uncountersigned, host}
use auditable_mcp_sdk_ts.Models.Schema.{
  strict_object, all_known, known_name, fields_hold, non_empty_text, text_among,
}
use auditable_mcp_sdk_ts.Host.State.{Capability}
use auditable_mcp_sdk_ts.Mcp.Declaration.{
  extension_id, extensions_member, capability_value, audit_capability_schema, object_members,
  extensions_of, declare, parsed_capability, capability_of,
}

read_back :
    (u : ℕ) (us : Text) (l : Level) (c : Countersign)
    → parsed_capability
        (some (capability_value (record { spec_version = u ∷ us; level = l; countersign = c })))
      ≡ some (record { spec_version = u ∷ us; level = l; countersign = c })
unfolding audit_capability_schema strict_object all_known known_name fields_hold non_empty_text
    text_among find_member get same_text list_beq
read_back u us l1 uncountersigned = refl
read_back u us l1 host = refl
read_back u us l2 uncountersigned = refl
read_back u us l2 host = refl

get-declared :
    (t : ToText) (capabilities : Members) (c : Capability)
    → extensions_of t (obj (declare t capabilities c))
      ≡ assign extension_id (capability_value c) (extensions_of t (obj capabilities))
unfolding extensions_of declare get
get-declared t capabilities c = ap (object_members t) (
    find_member-assign_self extensions_member
      (obj (
        assign extension_id (capability_value c)
          (object_members t (find_member extensions_member capabilities))))
      capabilities)

unlike : (k j : Text) → j ≢ k → same_text k j ≡ false
unlike k j other = ground (arith, same_text_iff k j)

kept :
    (k j : Text) (v : Value) (ms : Members)
    → j ≢ k
    → find_member j (assign k v ms) ≡ find_member j ms
kept k j v ms other = find_member-assign k j v ms ∙ rw (unlike k j other) refl

kept_in :
    (t : ToText) (capabilities : Members) (c : Capability) (other : Text)
    → other ≢ extensions_member
    → find_member other (declare t capabilities c) ≡ find_member other capabilities
unfolding declare
kept_in t capabilities c other away =
    kept extensions_member other
      (obj (assign extension_id (capability_value c) (extensions_of t (obj capabilities))))
      capabilities away

-- A capability with a version that is declared among any capabilities is the one that a peer reads
-- back; every other extension, and every other capability, stays as it was.
pub capability_of-declare :
    (t : ToText) (capabilities : Members) (u : ℕ) (us : Text) (l : Level) (c : Countersign)
    (other : Text)
    → other ≢ extension_id
    → other ≢ extensions_member
    → (capability_of t (
          obj
            (declare t capabilities (record { spec_version = u ∷ us; level = l; countersign = c })))
        ≡ some (record { spec_version = u ∷ us; level = l; countersign = c }))
      × (find_member other (
            extensions_of t (
              obj (
                declare t capabilities
                  (record { spec_version = u ∷ us; level = l; countersign = c }))))
          ≡ find_member other (extensions_of t (obj capabilities)))
      × (find_member other
            (declare t capabilities (record { spec_version = u ∷ us; level = l; countersign = c }))
          ≡ find_member other capabilities)
unfolding capability_of
capability_of-declare t capabilities u us l c other not_ours not_extensions =
    let cap : Capability = record { spec_version = u ∷ us; level = l; countersign = c } in
    let there = get-declared t capabilities cap in
    let rest = extensions_of t (obj capabilities) in
    (
      ap (λ ms. parsed_capability (find_member extension_id ms)) there
          ∙ ap parsed_capability (find_member-assign_self extension_id (capability_value cap) rest)
          ∙ read_back u us l c,
      ap (find_member other) there ∙ kept extension_id other (capability_value cap) rest not_ours,
      kept_in t capabilities cap other not_extensions,
    )
