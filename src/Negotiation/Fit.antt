-- ===== src/Negotiation/Fit.antt =====
-- When a call goes to the host, and when to the tool's own audit host instead.
use auditable_mcp_sdk_ts.Base.{
  Bool, true, false, ◌&&◌, leb, if◌then◌else◌, Option, none, some, ◌≡◌, ◌≢◌, refl, ◌↔◌, ◌⊎◌, inl,
  inr, arith, same_text, same_text_iff,
}
use auditable_mcp_sdk_ts.Models.{Level, l1, l2, Countersign, uncountersigned, host}
use auditable_mcp_sdk_ts.Host.State.{Capability, countersigns}
use auditable_mcp_sdk_ts.Negotiation.{
  Negotiation, negotiate, level_satisfies, countersign_satisfies, level_rank, countersign_rank,
  Posture, degraded, mandatory, routed, transport_for, by_posture, degrade, cannot_degrade,
}

-- What the host requires of the tool, and the tool of the host.
pub record IsFit (tool offered : Capability) : Type 0 where
  pub version : tool.spec_version ≡ offered.spec_version
  pub level : offered.level ≡ l2 → tool.level ≡ l2
  pub countersign : tool.countersign ≡ host → offered.countersign ≡ host

two_levels : l1 ≢ l2
two_levels e = cc

two_countersigns : uncountersigned ≢ host
two_countersigns e = cc

levels : (a b : Level) → (leb (level_rank b) (level_rank a) ≡ true) ↔ (b ≡ l2 → a ≡ l2)
unfolding level_rank
levels l1 l1 = ((λ e q. q), (λ f. refl))
levels l2 l1 = ((λ e q. refl), (λ f. refl))
levels l2 l2 = ((λ e q. refl), (λ f. refl))
levels l1 l2 = ((λ e. absurd cc), (λ f. absurd (two_levels (f refl))))

signs :
    (a b : Countersign)
    → (leb (countersign_rank a) (countersign_rank b) ≡ true) ↔ (a ≡ host → b ≡ host)
unfolding countersign_rank
signs uncountersigned uncountersigned = ((λ e q. q), (λ f. refl))
signs uncountersigned host = ((λ e q. refl), (λ f. refl))
signs host host = ((λ e q. refl), (λ f. refl))
signs host uncountersigned = ((λ e. absurd cc), (λ f. absurd (two_countersigns (f refl))))

and_all : (a b c : Bool) → ((a && (b && c)) ≡ true) ↔ ((a ≡ true) × (b ≡ true) × (c ≡ true))
and_all a b c = ((λ e. ground arith), (λ e. ground arith))

-- A declared host and a tool negotiate exactly when their versions are one, the tool offers Level 2
-- where the host requires it, and the host countersigns where the tool requires it.
pub negotiate-IsFit :
    (tool offered : Capability)
    → ((negotiate (some offered) tool).is_negotiated ≡ true) ↔ IsFit tool offered
unfolding negotiate level_satisfies countersign_satisfies
negotiate-IsFit tool offered =
    let all =
      and_all (same_text tool.spec_version offered.spec_version) (level_satisfies tool offered)
        (countersign_satisfies offered tool) in
    let same = same_text_iff tool.spec_version offered.spec_version in
    let level = levels tool.level offered.level in
    let sign = signs tool.countersign offered.countersign in
    (
      (λ e.
          let (a, b, c) = all.0 e in
          record { version = same.0 a; level = level.0 b; countersign = sign.0 c }),
      (λ f. all.1 (same.1 f.version, level.1 f.level, sign.1 f.countersign)),
    )

degrades :
    {A : Type 0} (c : Countersign) (fallback : Option A) (t : A)
    → (if countersigns c then cannot_degrade else degrade fallback) ≡ routed t
    → (fallback ≡ some t) × (c ≡ uncountersigned)
degrades host fallback t q = absurd cc
degrades uncountersigned none t q = absurd cc
degrades uncountersigned (some u) t q = (cc, refl)

postured :
    {A : Type 0} (n : Negotiation) (fallback : Option A) (posture : Option Posture) (t : A)
    → by_posture n fallback posture ≡ routed t
    → (fallback ≡ some t) × (n.tool.countersign ≡ uncountersigned) × (posture ≢ some mandatory)
postured n fallback none t q =
    let (a, b) = degrades n.tool.countersign fallback t q in (a, b, λ e. cc)
postured n fallback (some degraded) t q =
    let (a, b) = degrades n.tool.countersign fallback t q in (a, b, λ e. cc)
postured n fallback (some mandatory) t q = absurd cc

routed_to :
    {A : Type 0} (n : Negotiation) (to_host : A) (fallback : Option A) (posture : Option Posture)
    (t : A) (fits : Bool)
    → (if fits then routed to_host else by_posture n fallback posture) ≡ routed t
    → ((fits ≡ true) × (to_host ≡ t))
      ⊎ ((fallback ≡ some t) × (n.tool.countersign ≡ uncountersigned) × (posture ≢ some mandatory))
routed_to n to_host fallback posture t true q = inl (refl, cc)
routed_to n to_host fallback posture t false q = inr (postured n fallback posture t q)

-- A call whose host declared itself and that `transportFor` serves either goes to the host, with which
-- the tool fits, or to the fallback, where the tool requires no countersignature and the posture is not
-- mandatory.
pub transport_for-routed :
    {A : Type 0} (tool offered : Capability) (to_host : A) (fallback : Option A)
    (posture : Option Posture) (t : A)
    → transport_for (negotiate (some offered) tool) to_host fallback posture ≡ routed t
    → (IsFit tool offered × (to_host ≡ t))
      ⊎ ((fallback ≡ some t) × (tool.countersign ≡ uncountersigned) × (posture ≢ some mandatory))
unfolding transport_for
transport_for-routed tool offered to_host fallback posture t q =
    let n = negotiate (some offered) tool in
    elim (routed_to n to_host fallback posture t n.is_negotiated q) [
      | inl (fits, same) ↦ inl ((negotiate-IsFit tool offered).0 fits, same)
      | inr rest ↦ inr (unfold negotiate in rest)
    ]
