-- ===== src/Host/Conclusions.antt =====
-- `recordOutcome` on every path: what becomes of an outcome, and what the host then holds.
use auditable_mcp_sdk_ts.Base.{text_eq}
use auditable_mcp_sdk_ts.Base.Exec.{Exec}
use auditable_mcp_sdk_ts.Base.Exec.Keeps.{Keeps}
use auditable_mcp_sdk_ts.Fields
use auditable_mcp_sdk_ts.Host.State.{Host}
use auditable_mcp_sdk_ts.Host.Marks.{Marks}
use auditable_mcp_sdk_ts.Host.Concluded.{Concluded}
