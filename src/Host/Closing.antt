-- ===== src/Host/Closing.antt =====
-- `closeSession`: what it flags, and what it leaves.
use auditable_mcp_sdk_ts.Base.{
  Bool, ◌&&◌, ◌||◌, not, List, [], ◌∷◌, Text, ◌≡◌, refl, ◌∙◌, ap, arith, has, lookup, filter,
  is_some, text_eq, if◌then◌else◌, same_text, same_text_iff, Bool-cases, inl, inr,
}
use auditable_mcp_sdk_ts.Reasons.{unresolved_attempt}
use auditable_mcp_sdk_ts.Host.State.{Host, Session, Anomaly}
use auditable_mcp_sdk_ts.Host.Sessions.{unresolved, sort_texts, insert_text}

abbrev pub anomaly_of : Text → Anomaly
anomaly_of id = record { id = id; kind = unresolved_attempt }

has-insert_text :
    (x t : Text) (ts : List Text) → has x (insert_text t ts) ≡ (same_text t x || has x ts)
unfolding has insert_text
has-insert_text x t [] = refl
has-insert_text x t (u ∷ us) = ground (arith, has-insert_text x t us)

pub has-sort_texts : (x : Text) (ts : List Text) → has x (sort_texts ts) ≡ has x ts
unfolding has sort_texts
has-sort_texts x [] = refl
has-sort_texts x (t ∷ ts) = ground (arith, has-insert_text x t (sort_texts ts), has-sort_texts x ts)

filter_step :
    (f : Text → Bool) (x t : Text) (fs ts : List Text) (b : Bool)
    → f t ≡ b
    → has x fs ≡ (has x ts && f x)
    → has x (if b then t ∷ fs else fs) ≡ ((same_text t x || has x ts) && f x)
unfolding has
filter_step f x t fs ts b e rest = elim (Bool-cases (same_text t x)) [
  | inl same ↦ let at : f t ≡ f x = ap f ((same_text_iff t x).0 same) in ground arith
  | inr other ↦ ground arith
]

pub has-filter :
    (f : Text → Bool) (x : Text) (ts : List Text) → has x (filter f ts) ≡ (has x ts && f x)
unfolding has
has-filter f x [] = refl
has-filter f x (t ∷ ts) = filter_step f x t (filter f ts) ts (f t) refl (has-filter f x ts)

pub has-unresolved :
    (x : Text) (s : Session)
    → has x (unresolved s) ≡ (has x s.accepted && not (is_some (lookup x s.terminal)))
unfolding unresolved
has-unresolved x s =
    let open_ids = filter (λ id. not (is_some (lookup id s.terminal))) s.accepted in
    has-sort_texts x open_ids ∙ has-filter (λ id. not (is_some (lookup id s.terminal))) x s.accepted
