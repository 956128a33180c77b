-- ===== src/Session/Lifecycle.antt =====
-- The end of an operation: `AuditedAction` of src/session.ts and src/with-audit.ts.
use auditable_mcp_sdk_ts.Base.{true, Option, none, some, Text, if◌then◌else◌}
use auditable_mcp_sdk_ts.Base.Exec.{Result, ok, err, Exec}
use auditable_mcp_sdk_ts.Base.Exec.Run.{pure, lift, ◌>>=◌, ◌>>◌}
use auditable_mcp_sdk_ts.Json.{Value}
use auditable_mcp_sdk_ts.Canonical.{Packages}
use auditable_mcp_sdk_ts.Models
use auditable_mcp_sdk_ts.Crypto.SaltedHash.{JsonText}
use auditable_mcp_sdk_ts.Session.{Session, Call}
use auditable_mcp_sdk_ts.Session.Emission.{
  ActionOptions, Action, Mark, success, failed, emit_outcome, best_effort,
}
use auditable_mcp_sdk_ts.Session.Acting.{action}

abbrev first_mark : Option Mark → Option Mark
first_mark none = some success
first_mark (some m) = some m

-- `succeeded()`
unfoldable pub succeeded : Action → Action
succeeded a = record a { outcome = first_mark a.outcome }

-- `failed()`
unfoldable pub mark_failed : Action → Action
mark_failed a = record a { outcome = some failed }

-- `#outcome === 'success' ? SUCCESS : FAILED`
unfoldable pub terminal_outcome : Option Mark → Text
terminal_outcome (some success) = Models.success
terminal_outcome _ = Models.failed

-- `[Symbol.asyncDispose]`, which gives back the operation as it then is.
unfoldable pub dispose : {T : Type 0} → Session T → Action → Exec (Call T) Action
dispose s a = if a.finished then pure a else (do
  best_effort (emit_outcome s a (terminal_outcome a.outcome) none)
  pure (record a { finished = true }))

-- `action.succeeded()` where the handler returned, `action.failed()` where it threw.
abbrev pub settle : {B : Type 0} → Action → Result B → Action
settle a (ok b) = succeeded a
settle a (err e) = mark_failed a

-- The handler of `withAudit`: code outside of the session, which may call the operation's methods.
abbrev pub Handler : Type 0 → Type 0 → Type 0
Handler T B = Exec (Call T × Action) B

-- The `try` of `withAudit`.
unfoldable pub run_handler : {T B : Type 0} → Session T → Handler T B → Action → Exec (Call T) B
run_handler s handler a c =
    let (result, (c', a')) = handler (c, a) in
    (dispose s (settle a' result) >>= λ done. lift result) c'

-- `withAudit`
unfoldable pub with_audit :
    {T B : Type 0}
    → Packages
    → JsonText
    → Session T
    → Text
    → Value
    → ActionOptions
    → Handler T B
    → Exec (Call T) B
with_audit p j s action_type target_resource o handler = do
  a ← action p j s action_type target_resource o
  run_handler s handler a
