-- ===== src/Notifications/Telling.antt =====
-- What a call of `notify` in packages/asas-notifications writes, and for whom.
use asas.Base.{
  select_where, ℕ, ◌+◌, ◌≡◌, refl, sym, subst, Option, String, Bool, true, false, some, List, [],
  ◌∷◌, ◌++◌, str_eq, is_some, get_key, sort_by, All, All-map, All-append, All-sort_by, Bool-cases,
  inl, inr, if◌then◌else◌, length,
}
use mathlib.Core.List.{append-nil, Mem, mem-cons_self, mem-cons_of_mem}
use asas.Notifications.Model.{Notification, NotificationDelivery, pending, Tables, Host}
use asas.Notifications.Feed.{Inbox, unread}
use asas.Notifications.Outbox.{Outbox}
use asas.Notifications.Settings.{in_app}
use asas.Notifications.Routing.{resolve_channels}
use asas.Notifications.Emit.{
  Emit, Store, Emitted, raised, emitted, Axes, is_actor, visible, coalesce, new_notification,
  create_each, text_le, addressed, subject, named,
}
use asas.Notifications.Notify.{
  external_of, deliveries_of, fan_out, may_coalesce, insert_rows, write_rows, route,
}
use asas.Notifications.Folding.{
  HasUniqueIds, settled_row, coalesce-keeps, coalesce-All, IsKept, IsKept-refl, coalesce-IsKept,
}

module _ {ℓ} {A : Type ℓ} where
  pub All-Mem : (xs : List A) → All (λ x. Mem x xs) xs
  All-Mem [] = tt
  All-Mem (x ∷ xs) = (
    mem-cons_self,
    All-map (λ k. Mem k xs) (λ k. Mem k (x ∷ xs)) xs (λ k. mem-cons_of_mem x) (All-Mem xs),
  )

  pub All-zip {κ ι} :
      (P : A → Type κ) (Q : A → Type ι) (xs : List A)
      → All P xs
      → All Q xs
      → All (λ x. P x × Q x) xs
  All-zip P Q [] h k = tt
  All-zip P Q (x ∷ xs) h k = ((h.0, k.0), All-zip P Q xs h.1 k.1)

  pub select_where-holds : (p : A → Bool) (xs : List A) → All (λ x. p x ≡ true) (select_where p xs)
  unfolding select_where
  select_where-holds p [] = tt
  select_where-holds p (x ∷ xs) = elim (Bool-cases (p x)) [
    | inl e ↦ rw e (e, select_where-holds p xs)
    | inr e ↦ rw e (select_where-holds p xs)
  ]

external_of-All :
    (resolved : List (String × Bool)) → All (λ c. str_eq c in_app ≡ false) (external_of resolved)
unfolding external_of
external_of-All [] = tt
external_of-All ((c, mandatory) ∷ cs) = elim (Bool-cases (str_eq c in_app)) [
  | inl e ↦ rw e (external_of-All cs)
  | inr e ↦ rw e (e, external_of-All cs)
]

module _ {U R : Type 0} (host : Host U R) (e : Emit U R) (org : U) where
  -- What the host's visibility filter answers has this user, where there is a filter and an entity type.
  abbrev pub IsLetThrough : U → Type 0
  IsLetThrough u =
      (allowed : List U → String → Option U → Option R → List U)
      → host.recipient_filter ≡ some allowed
      → named e.entity_type ≡ true
      → Mem u (allowed (addressed host e) (subject host e) e.entity_id e.record_)

  -- One whom the emit addresses, whom the visibility filter lets through, and who is not the actor.
  abbrev pub MayKnow : U → Type 0
  MayKnow u =
      Mem u (visible host e) × ((is_actor host e e.actor_user_id u ≡ false) × IsLetThrough u)

  pub visible-IsLetThrough : (u : U) → Mem u (visible host e) → IsLetThrough u
  unfolding visible
  visible-IsLetThrough u m allowed q t =
      let same : visible host e
          ≡ allowed (addressed host e) (subject host e) e.entity_id e.record_ =
        rw (q, visible, t) refl in
      subst (λ us. Mem u us) same m

  -- A row for such a recipient, of the emit's organisation, and unread.
  abbrev pub IsFor : Notification → Type 0
  IsFor n =
      (n.org_id ≡ host.text_of org)
      × (unread n ≡ true)
      × ((u : U) × MayKnow u × (n.user_id ≡ host.text_of u))

  -- A pending delivery of the emit's organisation, on a channel other than the feed.
  abbrev pub IsOutgoing : NotificationDelivery → Type 0
  IsOutgoing d =
      (str_eq d.channel in_app ≡ false)
      × (d.org_id ≡ some (host.text_of org))
      × (d.status ≡ pending)
      × (d.attempts ≡ 0)

  create_each-IsFor :
      (now : ℕ) (axes : Axes) (users : List U) (id : ℕ)
      → All MayKnow users
      → All IsFor (create_each host e now axes org users id)
  unfolding create_each new_notification
  create_each-IsFor now axes [] id h = tt
  create_each-IsFor now axes (u ∷ us) id h =
      ((refl, refl, (u, h.0, refl)), create_each-IsFor now axes us (id + 1) h.1)

  deliveries_of-IsOutgoing :
      (n : Notification) (channels : List String) (id : ℕ)
      → n.org_id ≡ host.text_of org
      → All (λ c. str_eq c in_app ≡ false) channels
      → All IsOutgoing (deliveries_of n channels id)
  unfolding deliveries_of
  deliveries_of-IsOutgoing n [] id own h = tt
  deliveries_of-IsOutgoing n (c ∷ cs) id own h =
      ((h.0, (rw own), refl, refl), deliveries_of-IsOutgoing n cs (id + 1) own h.1)

  fan_out-IsOutgoing :
      (ns : List Notification) (channels : List String) (id : ℕ)
      → All IsFor ns
      → All (λ c. str_eq c in_app ≡ false) channels
      → All IsOutgoing (fan_out ns channels id)
  unfolding fan_out
  fan_out-IsOutgoing [] channels id own h = tt
  fan_out-IsOutgoing (n ∷ ns) channels id own h =
      All-append IsOutgoing (deliveries_of n channels id) _
        (deliveries_of-IsOutgoing n channels id own.0.0 h)
        (fan_out-IsOutgoing ns channels (id + length channels) own.1 h)

  -- What a call may have done to the two tables. The rows that were there, in their order: each is as it
  -- was or was folded into, which asks that it was live and is of one who may know; nothing that is
  -- read, archived or of another organisation has changed. What is added is for those who may know.
  pub record Told (old : Inbox) (queue : Outbox) (s' : Store U) : Type 0 where
    pub kept : Inbox
    pub news : List Notification
    pub fanned : Outbox
    pub inbox : s'.inbox ≡ kept ++ news
    pub outbox : s'.outbox ≡ queue ++ fanned
    pub untouched :
        select_where (settled_row host org) kept ≡ select_where (settled_row host org) old
    pub folded_for : IsKept host org MayKnow old kept
    pub told : All IsFor news
    pub outgoing : All IsOutgoing fanned

  abbrev pub Tells : Inbox → Outbox → Emitted U → Type 0
  Tells old queue (raised error) = Unit {0}
  Tells old queue (emitted s' rows) = Told old queue s'

  pub either :
      (b : Bool) (old : Inbox) (queue : Outbox) (x y : Emitted U)
      → Tells old queue x
      → Tells old queue y
      → Tells old queue (if b then x else y)
  either true old queue x y h k = h
  either false old queue x y h k = k

  pub nothing-Told : (s : Store U) → Told s.inbox s.outbox s
  nothing-Told s = record {
    kept = s.inbox;
    news = [];
    fanned = [];
    inbox = sym (append-nil s.inbox);
    outbox = sym (append-nil s.outbox);
    untouched = refl;
    folded_for = IsKept-refl host org MayKnow s.inbox;
    told = tt;
    outgoing = tt;
  }

  insert_rows-Tells :
      (db : Tables) (now : ℕ) (axes : Axes) (external : List String) (users : List U)
      (updated : List Notification) (s : Store U) (folded : Inbox)
      → All (λ c. str_eq c in_app ≡ false) external
      → All MayKnow users
      → select_where (settled_row host org) folded ≡ select_where (settled_row host org) s.inbox
      → IsKept host org MayKnow s.inbox folded
      → Tells s.inbox s.outbox
          (insert_rows host db now e axes org external users updated (record s { inbox = folded }))
  unfolding insert_rows
  insert_rows-Tells db now axes external users updated s folded named_ may same rows =
      let news = create_each host e now axes org users s.next_notification in
      let own = create_each-IsFor now axes users s.next_notification may in
      record {
        kept = folded;
        news = news;
        fanned = fan_out news external s.next_delivery;
        inbox = refl;
        outbox = refl;
        untouched = same;
        folded_for = rows;
        told = own;
        outgoing = fan_out-IsOutgoing news external s.next_delivery own named_;
      }

  write_rows-Tells :
      (db : Tables) (now : ℕ) (axes : Axes) (external : List String) (users : List U) (s : Store U)
      → HasUniqueIds s.inbox
      → All (λ c. str_eq c in_app ≡ false) external
      → All MayKnow users
      → Tells s.inbox s.outbox (write_rows host db now e axes org users external s)
  unfolding write_rows
  write_rows-Tells db now axes external users s ids named_ may =
      elim (Bool-cases (may_coalesce host db now e external)) [
        | inl q ↦
            let folding = coalesce host e now axes org users s.inbox in
            rw q (
              insert_rows-Tells db now axes external folding.2 folding.1 s folding.0 named_
                (coalesce-All host e now axes org MayKnow users s.inbox may)
                (coalesce-keeps host e now axes org users s.inbox ids)
                (coalesce-IsKept host e now axes org MayKnow users s.inbox ids may))
        | inr q ↦ rw q (
            insert_rows-Tells db now axes external users [] s s.inbox named_ may refl
              (IsKept-refl host org MayKnow s.inbox))
      ]

  pub route-Tells :
      (db : Tables) (now : ℕ) (axes : Axes) (users : List U) (s : Store U)
      → HasUniqueIds s.inbox
      → All MayKnow users
      → Tells s.inbox s.outbox (route host db now e axes org users s)
  unfolding route
  route-Tells db now axes users s ids may =
      let resolved = resolve_channels host now db (some org) axes.topic axes.importance s.caches in
      let s' = record s { caches = resolved.0 } in
      elim (Bool-cases (is_some (get_key str_eq in_app resolved.1))) [
        | inl q ↦ rw q (
            write_rows-Tells db now axes (sort_by text_le (external_of resolved.1)) users s' ids
              (All-sort_by text_le (λ c. str_eq c in_app ≡ false) (external_of resolved.1)
                (external_of-All resolved.1))
              may)
        | inr q ↦ rw q (nothing-Told s')
      ]
