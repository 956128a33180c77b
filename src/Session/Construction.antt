-- ===== src/Session/Construction.antt =====
-- The constructors of `AmcpSession` and `SessionNumbering` of src/session.ts.
use auditable_mcp_sdk_ts.Base.{
  ℕ, Bool, true, false, ◌&&◌, ◌||◌, not, Option, none, some, Text, leb, is_some, if◌then◌else◌,
}
use auditable_mcp_sdk_ts.Base.Regex.{matches}
use auditable_mcp_sdk_ts.Base.Exec.{Result, ok, err, usage, invalid_argument}
use auditable_mcp_sdk_ts.Base.Exec.Try.{◌>>◌, throw_if}
use auditable_mcp_sdk_ts.Json.{Number, integer, pos}
use auditable_mcp_sdk_ts.Canonical.{max_safe_integer}
use auditable_mcp_sdk_ts.Models.Patterns.{session_id_regex}
use auditable_mcp_sdk_ts.Session.{Sign, Check, Outside, Session}

-- The constructor's options.
pub record Options (T : Type 0) : Type 0 where
  pub signer : Option (Sign T)
  pub polluted_stop : Option Bool
  pub countersignature_verifier : Option (Check T)
  pub require_countersign : Option Bool

-- The constructor of `SessionNumbering`: `Number.isSafeInteger(start) && start >= 0`.
unfoldable pub new_numbering : Number → Result ℕ
new_numbering (integer (pos n)) = if leb n max_safe_integer then ok n else err invalid_argument
new_numbering _ = err invalid_argument

abbrev or_default : Option Bool → Bool → Bool
or_default none d = d
or_default (some b) d = b

abbrev pub switched_off : Option Bool → Bool
switched_off (some false) = true
switched_off _ = false

-- The constructor of `AmcpSession`.
unfoldable pub new_session : {T : Type 0} → Outside T → Text → Options T → Result (Session T)
new_session outside session_id o = do
  let required = or_default o.require_countersign false
  throw_if (not (matches session_id_regex session_id)) usage
  throw_if (required && not (is_some o.countersignature_verifier)) invalid_argument
  throw_if (switched_off o.polluted_stop && is_some o.signer) invalid_argument
  throw_if (switched_off o.polluted_stop && required) invalid_argument
  ok (record {
    outside = outside;
    session_id = session_id;
    signer = o.signer;
    polluted_stop = or_default o.polluted_stop (is_some o.signer || required);
    countersignature_verifier = o.countersignature_verifier;
    require_countersign = required;
  })
