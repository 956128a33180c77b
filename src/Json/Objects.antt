-- ===== src/Json/Objects.antt =====
-- Copies of objects with a member removed or set: `{ ...o, [name]: v }`.
use auditable_mcp_sdk_ts.Base.{
  ◌≡◌, refl, ◌∙◌, arith, some, Text, same_text, same_text_iff, if◌then◌else◌,
}
use auditable_mcp_sdk_ts.Json.{Value, Members, end, member, find_member}

-- The members other than `name`.
unfoldable pub without : Text → Members → Members
without name end = end
without name (member k v ms) =
    let rest = without name ms in if same_text k name then rest else member k v rest

-- `{ ...event, [name]: v }`
unfoldable pub assign : Text → Value → Members → Members
assign name v end = member name v end
assign name v (member k w ms) =
    let rest = assign name v ms in if same_text k name then member k v ms else member k w rest

pub find_member-assign :
    (k j : Text) (v : Value) (ms : Members)
    → find_member j (assign k v ms) ≡ (if same_text k j then some v else find_member j ms)
unfolding find_member assign
find_member-assign k j v end = refl
find_member-assign k j v (member i w ms) =
    ground
      (arith, same_text_iff k j, same_text_iff i k, same_text_iff i j, find_member-assign k j v ms)

pub find_member-assign_self :
    (k : Text) (v : Value) (ms : Members) → find_member k (assign k v ms) ≡ some v
find_member-assign_self k v ms = find_member-assign k k v ms ∙ rw ((same_text_iff k k).1 refl) refl

pub without-assign :
    (k : Text) (v : Value) (ms : Members) → without k (assign k v ms) ≡ without k ms
unfolding without assign
without-assign k v end = ground (arith, same_text_iff k k)
without-assign k v (member i w ms) = ground (arith, same_text_iff i k, without-assign k v ms)
