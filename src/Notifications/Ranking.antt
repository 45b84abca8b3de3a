-- ===== src/Notifications/Ranking.antt =====
-- Which row of the routing policy of packages/asas-notifications decides about a channel.
use asas.Base.{
  select_where, ℕ, ◌≡◌, ◌⊎◌, inl, inr, refl, sym, subst, String, Bool, true, false, Option, none,
  some, List, [], ◌∷◌, arith, if◌then◌else◌, is_some, All, All-map, Bool-cases,
}
use mathlib.Core.List.{Mem, mem-cons_self, mem-cons_of_mem}
use asas.Notifications.Model.{NotificationChannelPolicy}
use asas.Notifications.Routing.{
  greater, specificity, counted, is_candidate, outranks, most_specific, pick, built_in,
  decide_channel,
}

-- The first of the greatest, of a row and more.
module _ (P : NotificationChannelPolicy → Type 0) where
  pub most_specific-All :
      (best : NotificationChannelPolicy) (rs : List NotificationChannelPolicy)
      → P best
      → All P rs
      → P (most_specific best rs)
  unfolding most_specific
  most_specific-All best [] h hs = h
  most_specific-All best (r ∷ rs) h hs = elim (Bool-cases (outranks r best)) [
    | inl e ↦ rw e (most_specific-All r rs hs.0 hs.1)
    | inr e ↦ rw e (most_specific-All best rs h hs.1)
  ]

pub greater_trans :
    (s o i s' o' i' s'' o'' i'' : ℕ)
    → greater s o i s' o' i' ≡ false
    → greater s' o' i' s'' o'' i'' ≡ false
    → greater s o i s'' o'' i'' ≡ false
unfolding greater
greater_trans s o i s' o' i' s'' o'' i'' h k = ground (arith, h, k)

pub greater-asym :
    (s o i s' o' i' : ℕ) → greater s o i s' o' i' ≡ true → greater s' o' i' s o i ≡ false
unfolding greater
greater-asym s o i s' o' i' h = ground (arith, h)

pub greater_irrefl : (s o i : ℕ) → greater s o i s o i ≡ false
unfolding greater
greater_irrefl s o i = ground arith

abbrev pub level : NotificationChannelPolicy → ℕ
level r = specificity r

abbrev pub own : NotificationChannelPolicy → ℕ
own r = counted (is_some r.org_id)

pub outranks_trans :
    (a b c : NotificationChannelPolicy)
    → outranks a b ≡ false
    → outranks b c ≡ false
    → outranks a c ≡ false
unfolding outranks
outranks_trans a b c =
    greater_trans (level a) (own a) a.id (level b) (own b) b.id (level c) (own c) c.id

pub outranks-asym : (a b : NotificationChannelPolicy) → outranks a b ≡ true → outranks b a ≡ false
unfolding outranks
outranks-asym a b = greater-asym (level a) (own a) a.id (level b) (own b) b.id

pub outranks_irrefl : (a : NotificationChannelPolicy) → outranks a a ≡ false
unfolding outranks
outranks_irrefl a = greater_irrefl (level a) (own a) a.id

-- No row outranks the one that is picked.
abbrev pub IsTop : NotificationChannelPolicy → List NotificationChannelPolicy → Type 0
IsTop best = All (λ k. outranks k best ≡ false)

pub better_new :
    (best r : NotificationChannelPolicy) (rs : List NotificationChannelPolicy)
    → outranks r best ≡ true
    → most_specific best (r ∷ rs) ≡ most_specific r rs
unfolding most_specific
better_new best r rs e = rw e refl

pub better_old :
    (best r : NotificationChannelPolicy) (rs : List NotificationChannelPolicy)
    → outranks r best ≡ false
    → most_specific best (r ∷ rs) ≡ most_specific best rs
unfolding most_specific
better_old best r rs e = rw e refl

pub most_specific-ge :
    (best : NotificationChannelPolicy) (rs : List NotificationChannelPolicy)
    → (outranks best (most_specific best rs) ≡ false) × IsTop (most_specific best rs) rs
most_specific-ge best [] = unfold most_specific in (outranks_irrefl best, tt)
most_specific-ge best (r ∷ rs) = elim (Bool-cases (outranks r best)) [
  | inl e ↦
      let (top, rest) = most_specific-ge r rs in
      subst (λ x. (outranks best x ≡ false) × IsTop x (r ∷ rs)) (sym (better_new best r rs e))
        (outranks_trans best r (most_specific r rs) (outranks-asym r best e) top, (top, rest))
  | inr e ↦
      let (top, rest) = most_specific-ge best rs in
      subst (λ x. (outranks best x ≡ false) × IsTop x (r ∷ rs)) (sym (better_old best r rs e))
        (top, (outranks_trans r best (most_specific best rs) e top, rest))
]

pub All-Mem : (rs : List NotificationChannelPolicy) → All (λ r. Mem r rs) rs
All-Mem [] = tt
All-Mem (r ∷ rs) = (
  mem-cons_self,
  All-map (λ k. Mem k rs) (λ k. Mem k (r ∷ rs)) rs (λ k. mem-cons_of_mem r) (All-Mem rs),
)

pub All-select_where :
    (P : NotificationChannelPolicy → Type 0) (p : NotificationChannelPolicy → Bool)
    (rs : List NotificationChannelPolicy)
    → All P (select_where p rs)
    → All (λ r. p r ≡ true → P r) rs
unfolding select_where
All-select_where P p [] h = tt
All-select_where P p (r ∷ rs) h = elim (Bool-cases (p r)) [
  | inl e ↦ let (hit, rest) = (rw e at h) in ((λ _. hit), All-select_where P p rs rest)
  | inr e ↦ ((λ k. absurd (ground (arith, e, k))), All-select_where P p rs (rw e at h))
]

pub select_where-All :
    (P : NotificationChannelPolicy → Type 0) (p : NotificationChannelPolicy → Bool)
    (rs : List NotificationChannelPolicy)
    → All P rs
    → All (λ r. (p r ≡ true) × P r) (select_where p rs)
unfolding select_where
select_where-All P p [] h = tt
select_where-All P p (r ∷ rs) h = elim (Bool-cases (p r)) [
  | inl e ↦ rw e ((e, h.0), select_where-All P p rs h.1)
  | inr e ↦ rw e (select_where-All P p rs h.1)
]

-- What decides about a channel: no row speaks of it, and the built-in rule holds; or the row that is
-- picked is one that speaks of it, and no such row outranks it.
abbrev pub IsDecidedBy :
    List NotificationChannelPolicy
    → (NotificationChannelPolicy → Bool)
    → Option Bool
    → Option Bool
    → Type 0
IsDecidedBy rows speaks default result =
    (All (λ r. speaks r ≡ false) rows × (result ≡ default))
    ⊎ ((r : NotificationChannelPolicy) × Mem r rows
        × (speaks r ≡ true)
        × All (λ k. speaks k ≡ true → outranks k r ≡ false) rows
        × (result ≡ (if r.enabled then some r.mandatory else none)))

pub decided :
    (rows : List NotificationChannelPolicy) (speaks : NotificationChannelPolicy → Bool)
    (default : Option Bool) (picked : List NotificationChannelPolicy)
    → select_where speaks rows ≡ picked
    → IsDecidedBy rows speaks default (elim (pick picked) [
      | none ↦ default
      | some r ↦ if r.enabled then some r.mandatory else none
    ])
unfolding pick
decided rows speaks default [] e = inl (
  All-map (λ r. speaks r ≡ true → ⊥) (λ r. speaks r ≡ false) rows (λ r h. ground (arith, h))
      (All-select_where (λ _. ⊥) speaks rows (rw e tt)),
  refl,
)
decided rows speaks default (r ∷ rs) e =
    let (mem, speaking) =
      most_specific-All (λ k. (speaks k ≡ true) × Mem k rows) r rs
        (rw e at (select_where-All (λ k. Mem k rows) speaks rows (All-Mem rows))).0
        (rw e at (select_where-All (λ k. Mem k rows) speaks rows (All-Mem rows))).1 in
    inr (
      most_specific r rs,
      speaking,
      mem,
      All-select_where (λ k. outranks k (most_specific r rs) ≡ false) speaks rows
          (rw e (most_specific-ge r rs)),
      refl,
    )

pub decide_channel-IsDecidedBy :
    (rows : List NotificationChannelPolicy) (emails : Bool) (topic importance channel : String)
    → IsDecidedBy rows
        (is_candidate channel topic importance)
        (built_in channel emails)
        (decide_channel rows emails topic importance channel)
unfolding decide_channel
decide_channel-IsDecidedBy rows emails topic importance channel =
    decided rows (is_candidate channel topic importance) (built_in channel emails) _ refl
