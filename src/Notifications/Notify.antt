-- ===== src/Notifications/Notify.antt =====
-- The call of `notify` as a whole: packages/asas-notifications/src/asas_notifications/service.py.
use asas.Base.{
  ℕ, ◌+◌, String, Bool, none, some, List, [], ◌∷◌, ◌++◌, ◌&&◌, not, if◌then◌else◌, str_eq, is_some,
  get_key, sort_by, length, ◌==◌,
}
use asas.Notifications.Model.{Notification, Tables, Host}
use asas.Notifications.Outbox.{Outbox, new_delivery}
use asas.Notifications.Settings.{in_app, topic_known, importance_known}
use asas.Notifications.Routing.{resolve_channels}
use asas.Notifications.Emit.{
  Emit, Store, unknown_topic, unknown_importance, no_org, no_entity, Emitted, raised, emitted, Axes,
  settled, unsettled, settle_axes, action_of, org_of, visible, blind_record, named, coalesce,
  create_each, text_le,
}

-- The enabled channels but the feed, sorted.
unfoldable pub external_of : List (String × Bool) → List String
external_of [] = []
external_of ((c, mandatory) ∷ cs) =
    let rest = external_of cs in if str_eq c in_app then rest else c ∷ rest

unfoldable pub deliveries_of : Notification → List String → ℕ → Outbox
deliveries_of n [] id = []
deliveries_of n (c ∷ cs) id = new_delivery id n.id (some n.org_id) c ∷ deliveries_of n cs (id + 1)

unfoldable pub fan_out : List Notification → List String → ℕ → Outbox
unfolding deliveries_of
fan_out [] channels id = []
fan_out (n ∷ ns) channels id =
    deliveries_of n channels id ++ fan_out ns channels (id + length channels)

module _ {U R : Type 0} (host : Host U R) (db : Tables) (now : ℕ) (e : Emit U R) where
  abbrev pub may_coalesce : List String → Bool
  may_coalesce external =
      e.coalesce_unread
      && (length external == 0)
      && is_some (action_of host e)
      && named e.entity_type
      && is_some e.entity_id

  -- The rows for those who have no row to fold into, with a delivery on each external channel.
  unfoldable pub insert_rows :
      Axes → U → List String → List U → List Notification → Store U → Emitted U
  unfolding create_each fan_out
  insert_rows axes org external users updated s =
      let created = create_each host e now axes org users s.next_notification in
      let fanned = fan_out created external s.next_delivery in
      emitted
        (record s {
          inbox = s.inbox ++ created;
          outbox = s.outbox ++ fanned;
          next_notification = s.next_notification + length created;
          next_delivery = s.next_delivery + length fanned;
        })
        (updated ++ created)

  unfoldable pub write_rows : Axes → U → List U → List String → Store U → Emitted U
  unfolding coalesce insert_rows
  write_rows axes org users external s =
      let (after, updated, remaining) = coalesce host e now axes org users s.inbox in
      if may_coalesce external
      then insert_rows axes org external remaining updated (record s { inbox = after })
      else insert_rows axes org external users [] s

  -- Routing, once somebody is left to tell; without the feed nothing is written.
  unfoldable pub route : Axes → U → List U → Store U → Emitted U
  unfolding resolve_channels external_of write_rows get_key sort_by
  route axes org users s =
      let (caches, resolved) =
        resolve_channels host now db (some org) axes.topic axes.importance s.caches in
      let s' = record s { caches = caches } in
      if is_some (get_key str_eq in_app resolved)
      then write_rows axes org users (sort_by text_le (external_of resolved)) s'
      else emitted s' []

  unfoldable pub address : Axes → Store U → Emitted U
  unfolding org_of visible route
  address axes s = elim (org_of host e) [
    | none ↦ raised no_org
    | some org ↦
        if blind_record host e
        then raised no_entity
        else elim (visible host e) [ [] ↦ emitted s [] | u ∷ us ↦ route axes org (u ∷ us) s ]
  ]

  unfoldable pub notify : Store U → Emitted U
  unfolding settle_axes topic_known importance_known address
  notify s = elim (settle_axes host e) [
    | unsettled error ↦ raised error
    | settled axes ↦
        let (seen, known) = topic_known now db axes.topic s.caches in
        let (seen', known') = importance_known now db axes.importance seen in
        if not known
        then raised unknown_topic
        else if not known'
        then raised unknown_importance
        else if host.suppressed
        then emitted (record s { caches = seen' }) []
        else address axes (record s { caches = seen' })
  ]
