-- ===== src/Negotiation.antt =====
-- src/capability.ts and src/degradation.ts: how the declarations of a host and a tool fit, and the
-- transport that a call may then use.
pub mod Fit
use auditable_mcp_sdk_ts.Base.{
  ℕ, Bool, true, false, ◌&&◌, Option, none, some, same_text, leb, if◌then◌else◌,
}
use auditable_mcp_sdk_ts.Models.{Level, l1, l2, Countersign, uncountersigned, host}
use auditable_mcp_sdk_ts.Host.State.{Capability, countersigns}

-- `LEVEL_RANK`
unfoldable pub level_rank : Level → ℕ
level_rank l1 = 1
level_rank l2 = 2

-- `COUNTERSIGN_RANK`
unfoldable pub countersign_rank : Countersign → ℕ
countersign_rank uncountersigned = 1
countersign_rank host = 2

-- `NegotiationOutcome`
pub data Outcome : Type 0 where
  negotiated_call undeclared mismatch no_session : Outcome

-- `NegotiationResult`
pub record Negotiation : Type 0 where
  pub tool : Capability
  pub declared : Option Capability
  pub outcome : Outcome
  pub is_negotiated : Bool
  pub version_match : Bool
  pub level_fit : Bool
  pub countersign_fit : Bool

unfoldable pub level_satisfies : Capability → Capability → Bool
unfolding level_rank
level_satisfies tool offered = leb (level_rank offered.level) (level_rank tool.level)

unfoldable pub countersign_satisfies : Capability → Capability → Bool
unfolding countersign_rank
countersign_satisfies offered tool =
    leb (countersign_rank tool.countersign) (countersign_rank offered.countersign)

unfoldable pub negotiate : Option Capability → Capability → Negotiation
unfolding level_satisfies countersign_satisfies
negotiate none tool = record {
  tool = tool;
  declared = none;
  outcome = undeclared;
  is_negotiated = false;
  version_match = false;
  level_fit = false;
  countersign_fit = false;
}
negotiate (some offered) tool =
    let version_match = same_text tool.spec_version offered.spec_version in
    let level_fit = level_satisfies tool offered in
    let countersign_fit = countersign_satisfies offered tool in
    let fits = version_match && (level_fit && countersign_fit) in
    record {
      tool = tool;
      declared = some offered;
      outcome = if fits then negotiated_call else mismatch;
      is_negotiated = fits;
      version_match = version_match;
      level_fit = level_fit;
      countersign_fit = countersign_fit;
    }

-- `Posture`
pub data Posture : Type 0 where
  degraded mandatory : Posture

-- What `transportFor` returns or throws: `UnnegotiatedCallError`, or one of two errors.
pub data Routed (A : Type 0) : Type 0 where
  routed : A → Routed A
  unnegotiated_call : Routed A
  cannot_degrade : Routed A
  no_fallback : Routed A

abbrev pub degrade : {A : Type 0} → Option A → Routed A
degrade none = no_fallback
degrade (some fallback) = routed fallback

abbrev pub by_posture : {A : Type 0} → Negotiation → Option A → Option Posture → Routed A
by_posture n fallback (some mandatory) = unnegotiated_call
by_posture n fallback _ =
    if countersigns n.tool.countersign then cannot_degrade else degrade fallback

unfoldable pub transport_for : {A : Type 0} → Negotiation → A → Option A → Option Posture → Routed A
transport_for n negotiated fallback posture =
    if n.is_negotiated then routed negotiated else by_posture n fallback posture
