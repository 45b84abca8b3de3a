-- ===== src/Notifications/Notified.antt =====
-- For whom a call of `notify` in packages/asas-notifications may write, and what it leaves alone.
use asas.Base.{
  ℕ, ◌≡◌, refl, subst, String, Bool, true, false, Option, some, List, [], ◌∷◌, arith, not, All,
  All-map, Bool-cases, Option-cases, ◌⊎◌, inl, inr,
}
use mathlib.Core.List.{Mem}
use asas.Notifications.Model.{Notification, Tables, Host}
use asas.Notifications.Settings.{topic_known, importance_known}
use asas.Notifications.Emit.{
  Emit, Store, emitted, Axes, EmitError, Settled, settled, unsettled, settle_axes, org_of, distinct,
  addressed, is_actor, visible, blind_record, named, subject,
}
use asas.Notifications.Notify.{route, address, notify}
use asas.Notifications.Folding.{HasUniqueIds}
use asas.Notifications.Telling.{
  All-Mem, All-zip, select_where-holds, MayKnow, IsLetThrough, visible-IsLetThrough, Told, Tells,
  either, nothing-Told, route-Tells,
}

Settled-cases :
    (x : Settled)
    → ((error : EmitError) × (x ≡ unsettled error)) ⊎ ((axes : Axes) × (x ≡ settled axes))
Settled-cases (settled axes) = inr (axes, refl)
Settled-cases (unsettled error) = inl (error, refl)

module _ {U R : Type 0} (host : Host U R) (e : Emit U R) (org : U) where
  -- A visibility filter that adds nobody: whatever holds of all that it is given holds of its answer.
  abbrev pub IsNarrow : Type 0
  IsNarrow =
      (allowed : List U → String → Option U → Option R → List U) (p : U → Bool) (us : List U)
      (t : String) (id : Option U) (r : Option R)
      → host.recipient_filter ≡ some allowed
      → All (λ u. p u ≡ true) us
      → All (λ u. p u ≡ true) (allowed us t id r)

  visible-others :
      IsNarrow → All (λ u. not (is_actor host e e.actor_user_id u) ≡ true) (visible host e)
  unfolding visible addressed
  visible-others narrow =
      let others =
        select_where-holds (λ u. not (is_actor host e e.actor_user_id u))
          (distinct host e e.recipients []) in
      elim (Option-cases host.recipient_filter) [
        | inl q ↦ rw (q, visible) others
        | inr (allowed, q) ↦ elim (Bool-cases (named e.entity_type)) [
          | inl t ↦
              rw (q, visible, t)
                (narrow allowed (λ u. not (is_actor host e e.actor_user_id u)) (addressed host e)
                  (subject host e) e.entity_id e.record_ q others)
          | inr t ↦ rw (q, visible, t) others
        ]
      ]

  visible-MayKnow : IsNarrow → All (MayKnow host e org) (visible host e)
  visible-MayKnow narrow =
      All-zip (λ u. Mem u (visible host e))
        (λ u. (is_actor host e e.actor_user_id u ≡ false) × IsLetThrough host e org u)
        (visible host e) (All-Mem (visible host e))
        (All-zip (λ u. is_actor host e e.actor_user_id u ≡ false) (IsLetThrough host e org)
          (visible host e)
          (All-map (λ u. not (is_actor host e e.actor_user_id u) ≡ true)
            (λ u. is_actor host e e.actor_user_id u ≡ false) (visible host e)
            (λ u h. ground (arith, h)) (visible-others narrow))
          (All-map (λ u. Mem u (visible host e)) (IsLetThrough host e org) (visible host e)
            (visible-IsLetThrough host e org) (All-Mem (visible host e))))

  address-Tells :
      (db : Tables) (now : ℕ) (axes : Axes) (s : Store U)
      → HasUniqueIds s.inbox
      → org_of host e ≡ some org
      → All (MayKnow host e org) (visible host e)
      → Tells host e org s.inbox s.outbox (address host db now e axes s)
  unfolding address
  address-Tells db now axes s ids own may = elim (Bool-cases (blind_record host e)) [
    | inl q ↦ rw (own, address, q) tt
    | inr q ↦ rw (own, address, q) (told_each (visible host e) may)
  ]
    where
      told_each :
          (us : List U)
          → All (MayKnow host e org) us
          → Tells host e org s.inbox s.outbox
              (elim us [ [] ↦ emitted s [] | v ∷ vs ↦ route host db now e axes org (v ∷ vs) s ])
      told_each [] h = nothing-Told host e org s
      told_each (v ∷ vs) h = route-Tells host e org db now axes (v ∷ vs) s ids h

  notify-Tells :
      (db : Tables) (now : ℕ) (s : Store U)
      → HasUniqueIds s.inbox
      → org_of host e ≡ some org
      → All (MayKnow host e org) (visible host e)
      → Tells host e org s.inbox s.outbox (notify host db now e s)
  unfolding notify
  notify-Tells db now s ids own may = elim (Settled-cases (settle_axes host e)) [
    | inl (error, q) ↦ rw (q, notify) tt
    | inr (axes, q) ↦
        let seen = topic_known now db axes.topic s.caches in
        let seen' = importance_known now db axes.importance seen.0 in
        let heard = record s { caches = seen'.0 } in
        rw (q, notify)
          (either host e org (not seen.1) s.inbox s.outbox _ _ tt (
            either host e org (not seen'.1) s.inbox s.outbox _ _ tt (
              either host e org host.suppressed s.inbox s.outbox _ _ (nothing-Told host e org heard)
                (address-Tells db now axes heard ids own may))))
  ]

-- A call of `notify` that returns, where the organisation is settled, the filter adds nobody, and no two
-- rows of the inbox share an id. The rows that were there stay in their order and number, and each is as
-- it was, or it was unread, in the inbox and of that organisation, and is the row of a recipient whom the
-- visibility filter lets through and who is not the actor: then it is under its id and owner, and still
-- unread and in the inbox. The rows added behind them are for such recipients, of that organisation and
-- unread. Deliveries are only added, pending, for other channels than the feed.
pub notify-Told :
    {U R : Type 0} (host : Host U R) (e : Emit U R) (org : U) (db : Tables) (now : ℕ)
    (s s' : Store U) (rows : List Notification)
    → IsNarrow host e org
    → HasUniqueIds s.inbox
    → org_of host e ≡ some org
    → notify host db now e s ≡ emitted s' rows
    → Told host e org s.inbox s.outbox s'
notify-Told host e org db now s s' rows narrow ids own h =
    subst (Tells host e org s.inbox s.outbox) h
      (notify-Tells host e org db now s ids own (visible-MayKnow host e org narrow))
