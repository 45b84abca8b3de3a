-- ===== src/Notifications/Emit.antt =====
-- `notify` of packages/asas-notifications/src/asas_notifications/service.py. What a refused emit leaves
-- in the caches of the configuration is left out.
use asas.Base.{
  select_where, ℕ, ◌+◌, leb, String, Bool, true, false, Option, none, some, List, [], ◌∷◌, ◌++◌,
  ◌&&◌, ◌||◌, not, if◌then◌else◌, str_eq, same_text, is_some, first_where, update_where, get_key,
  sort_by, Fields,
}
use Prim.Native.String.{compare}
use Prim.Native.Nat.{Ordering}
use asas.Notifications.Model.{Notification, Host, KindSpec, normalize_id, current_org_id}
use asas.Notifications.Feed.{Inbox, has_id, unread, in_inbox}
use asas.Notifications.Outbox.{Outbox}
use asas.Notifications.Settings.{Caches, default_topic}

-- The arguments of a call.
pub record Emit (U R : Type 0) : Type 0 where
  pub recipients : List (Option U)
  pub action : Option String
  pub topic : Option String
  pub importance : Option String
  pub title : Option String
  pub body : Option String
  pub link : Option String
  pub template : Option String
  pub data_ : Option Fields
  pub actor_user_id : Option U
  pub entity_type : Option String
  pub entity_id : Option U
  pub org_id : Option U
  pub record_ : Option R
  pub locale : Option String
  pub coalesce_unread : Bool
  pub merge_body : Option (Option String → Option String → Option String)
  pub kind : Option String

-- The two tables, the ids that are handed out next, and the caches of the process.
pub record Store (U : Type 0) : Type 0 where
  pub inbox : Inbox
  pub outbox : Outbox
  pub next_notification : ℕ
  pub next_delivery : ℕ
  pub caches : Caches U

pub data EmitError : Type 0 where
  no_importance no_topic no_title unknown_topic unknown_importance no_org no_entity : EmitError

pub data Emitted (U : Type 0) : Type 0 where
  raised : EmitError → Emitted U
  emitted : Store U → List Notification → Emitted U

abbrev pub given {ℓ} : {A : Type ℓ} → Option A → Option A → Option A
given none b = b
given (some a) b = some a

-- A text that is there and not empty.
abbrev pub named : Option String → Bool
named none = false
named (some s) = not (str_eq s "")

-- An emit whose axes are settled.
pub record Axes : Type 0 where
  pub topic : String
  pub importance : String
  pub title : String

pub data Settled : Type 0 where
  settled : Axes → Settled
  unsettled : EmitError → Settled

abbrev pub text_le : String → String → Bool
text_le a b = elim (compare a b) [ Ordering.gt ↦ false | _ ↦ true ]

abbrev pub newer : Notification → Notification → Bool
newer a b = leb b.created_at a.created_at

module _ {U R : Type 0} (host : Host U R) (e : Emit U R) where
  unfoldable pub action_of : Option String
  action_of = given e.action e.kind

  -- The defaults of a kind that was registered, for a call that states no axis.
  unfoldable pub spec_of : Option KindSpec
  unfolding action_of get_key
  spec_of = elim action_of [
    | none ↦ none
    | some a ↦ if is_some e.importance || is_some e.topic then none else get_key str_eq a host.kinds
  ]

  abbrev pub topic_of : Option KindSpec → Option String
  topic_of spec = given e.topic (elim spec [ none ↦ none | some s ↦ some s.topic ])

  abbrev pub importance_of : Option KindSpec → Option String
  importance_of spec = given e.importance (elim spec [ none ↦ none | some s ↦ some s.importance ])

  unfoldable pub settle_axes : Settled
  unfolding spec_of action_of
  settle_axes = elim (importance_of spec_of) [
    | none ↦ unsettled no_importance
    | some importance ↦
        if is_some action_of && not (is_some (topic_of spec_of))
        then unsettled no_topic
        else elim e.title [
          | none ↦ unsettled no_title
          | some title ↦ settled (record {
            topic = elim (topic_of spec_of) [ none ↦ default_topic | some t ↦ t ];
            importance = importance;
            title = title;
          })
        ]
  ]

  -- The explicit organisation, or else that of the request.
  unfoldable pub org_of : Option U
  unfolding current_org_id
  org_of = given e.org_id (current_org_id host)

  abbrev pub is_host : U → U → Bool
  is_host u v = host.same v u

  -- `dict.fromkeys`: each recipient once, in the order of the call.
  unfoldable pub distinct : List (Option U) → List U → List U
  unfolding first_where
  distinct [] seen = seen
  distinct (none ∷ us) seen = distinct us seen
  distinct (some u ∷ us) seen =
      distinct us (if is_some (first_where (is_host u) seen) then seen else seen ++ u ∷ [])

  abbrev pub is_actor : Option U → U → Bool
  is_actor none u = false
  is_actor (some actor) u = str_eq (host.text_of u) (host.text_of actor)

  -- Everybody but the actor.
  unfoldable pub addressed : List U
  unfolding distinct select_where
  addressed = select_where (λ u. not (is_actor e.actor_user_id u)) (distinct e.recipients [])

  abbrev pub subject : String
  subject = elim e.entity_type [ none ↦ "" | some t ↦ t ]

  unfoldable pub visible : List U
  unfolding addressed
  visible = elim host.recipient_filter [
    | none ↦ addressed
    | some allowed ↦
        if named e.entity_type then allowed addressed subject e.entity_id e.record_ else addressed
  ]

  abbrev pub blind_record : Bool
  blind_record = is_some e.record_ && not (named e.entity_type) && is_some host.recipient_filter

  -- A live row that the new event may fold into.
  unfoldable pub folds : U → U → Notification → Bool
  unfolding action_of normalize_id
  folds org user n =
      str_eq n.user_id (host.text_of user)
      && str_eq n.org_id (host.text_of org)
      && same_text n.action action_of
      && same_text n.entity_type e.entity_type
      && same_text n.entity_id (normalize_id host e.entity_id)
      && unread n
      && in_inbox n

  abbrev pub body_of : Option String → Option String
  body_of old = elim e.merge_body [ none ↦ e.body | some merge ↦ merge old e.body ]

  abbrev pub folded : ℕ → Axes → Notification → Notification
  folded now axes n = record n {
    title = axes.title;
    body = body_of n.body;
    data_ = e.data_;
    topic = some axes.topic;
    template = e.template;
    created_at = now;
  }

  -- Folds what it can; the recipients without a live row remain.
  unfoldable pub coalesce : ℕ → Axes → U → List U → Inbox → Inbox × List Notification × List U
  unfolding folds first_where update_where sort_by
  coalesce now axes org [] inbox = (inbox, [], [])
  coalesce now axes org (u ∷ us) inbox = elim (first_where (folds org u) (sort_by newer inbox)) [
    | none ↦
        let (after, updated, remaining) = coalesce now axes org us inbox in
        (after, updated, u ∷ remaining)
    | some n ↦
        let (after, updated, remaining) =
          coalesce now axes org us (update_where (has_id n.id) (folded now axes) inbox) in
        (after, folded now axes n ∷ updated, remaining)
  ]

  abbrev pub locale_for : U → Option String
  locale_for user =
      given e.locale (elim host.locale_of [ none ↦ none | some locale_of ↦ locale_of user ])

  unfoldable pub new_notification : ℕ → Axes → U → U → ℕ → Notification
  unfolding action_of normalize_id
  new_notification now axes org user id = record {
    id = id;
    org_id = host.text_of org;
    user_id = host.text_of user;
    action = action_of;
    topic = some axes.topic;
    importance = axes.importance;
    entity_type = e.entity_type;
    entity_id = normalize_id host e.entity_id;
    title = axes.title;
    body = e.body;
    link = e.link;
    template = e.template;
    data_ = e.data_;
    read_at = none;
    archived_at = none;
    locale = locale_for user;
    created_at = now;
  }

  unfoldable pub create_each : ℕ → Axes → U → List U → ℕ → List Notification
  unfolding new_notification
  create_each now axes org [] id = []
  create_each now axes org (u ∷ us) id =
      new_notification now axes org u id ∷ create_each now axes org us (id + 1)
