-- ===== src/Notifications/Dispatch.antt =====
-- The dispatcher of packages/asas-notifications/src/asas_notifications/service.py: a send, what it leads
-- to, and a pass.
use asas.Base.{
  ℕ, ◌+◌, leb, String, Bool, false, Option, none, some, List, [], ◌∷◌, ◌||◌, not, if◌then◌else◌,
  str_eq, clip, Fields,
}
use asas.Notifications.Model.{Notification, pending, sent, failed, skipped}
use asas.Notifications.Outbox.{max_attempts, Outbox, PassRow, open_pass, claim, Values, finish}

pub record DeliveryPayload : Type 0 where
  pub delivery_id : ℕ
  pub notification_id : ℕ
  pub channel : String
  pub recipient_user_id : String
  pub org_id : String
  pub action : Option String
  pub topic : Option String
  pub importance : String
  pub title : String
  pub body : Option String
  pub link : Option String
  pub data_ : Option Fields
  pub created_at : ℕ
  pub locale : Option String

unfoldable pub payload : PassRow → DeliveryPayload
payload r = record {
  delivery_id = r.delivery.id;
  notification_id = r.delivery.notification_id;
  channel = r.delivery.channel;
  recipient_user_id = r.notification.user_id;
  org_id = r.notification.org_id;
  action = r.notification.action;
  topic = r.notification.topic;
  importance = r.notification.importance;
  title = r.notification.title;
  body = r.notification.body;
  link = r.notification.link;
  data_ = r.notification.data_;
  created_at = r.notification.created_at;
  locale = r.notification.locale;
}

-- How a send ends: it returns, raises SkipDelivery, or raises something else, with the text of it.
pub data Sent : Type 0 where
  returned : Sent
  skips raises : String → Sent

abbrev pub Adapter : Type 0
Adapter = DeliveryPayload → Sent

unfoldable pub no_adapter : Values
no_adapter = record {
  status = skipped;
  attempts = none;
  sent_at = none;
  last_error = some "no adapter registered for channel";
}

-- `str(exc) or None`
abbrev pub or_none : String → Option String
or_none text = if str_eq text "" then none else some text

unfoldable pub outcome : ℕ → ℕ → Sent → Values
outcome now attempts returned = record {
  status = sent;
  attempts = some (attempts + 1);
  sent_at = some now;
  last_error = none;
}
outcome now attempts (skips text) = record {
  status = skipped;
  attempts = none;
  sent_at = none;
  last_error = or_none text;
}
outcome now attempts (raises text) = record {
  status = if leb max_attempts (attempts + 1) then failed else pending;
  attempts = some (attempts + 1);
  sent_at = none;
  last_error = some (clip 500 text);
}

unfoldable pub deliver : (String → Option Adapter) → ℕ → PassRow → Values
unfolding outcome payload no_adapter
deliver adapter_for now r = elim (adapter_for r.delivery.channel) [
  | none ↦ no_adapter
  | some send ↦ outcome now r.delivery.attempts (send (payload r))
]

-- What other sessions commit before the claim and during the send of a row, and the clock.
pub record Turn : Type 0 where
  pub before : Outbox → Outbox
  pub during : Outbox → Outbox
  pub claimed_at : ℕ
  pub sent_at : ℕ

-- The rows of a pass, one after the other; the rows that are sent are recorded.
unfoldable pub dispatch_each :
    (String → Option Adapter) → (ℕ → Turn) → List PassRow → Outbox → Outbox × List PassRow
unfolding claim deliver finish
dispatch_each adapter_for turns [] outbox = (outbox, [])
dispatch_each adapter_for turns (r ∷ rs) outbox =
    let turn = turns r.delivery.id in
    let (tried, won) = claim turn.claimed_at r.delivery.id (turn.before outbox) in
    let values = deliver adapter_for turn.sent_at r in
    let finished = finish r.delivery.id values (turn.during tried) in
    let (after, handled) = dispatch_each adapter_for turns rs (if won then finished else tried) in
    (after, if won then r ∷ handled else handled)

-- A pass that row level security would blind is refused.
unfoldable pub refuse_tenant_blind : Bool → Bool → Bool → Bool → Bool
refuse_tenant_blind bound tenant_pinned postgres active =
    if bound || tenant_pinned || not postgres then false else active

pub data Pass : Type 0 where
  blind : Pass
  passed : Outbox → List PassRow → Pass

-- The tenant's binding as the caller and the database know it: `bind`, `tenant_pinned`, the dialect,
-- and whether the policies apply to this role.
pub record Tenancy : Type 0 where
  pub bound : Bool
  pub pinned : Bool
  pub postgres : Bool
  pub active : Bool

unfoldable pub dispatch_pending :
    Tenancy → (String → Option Adapter) → (ℕ → Turn) → ℕ → ℕ → List Notification → Outbox → Pass
unfolding refuse_tenant_blind open_pass dispatch_each
dispatch_pending t adapter_for turns now limit notifications outbox =
    let (opened, rows) = open_pass now limit notifications outbox in
    let (after, handled) = dispatch_each adapter_for turns rows opened in
    if refuse_tenant_blind t.bound t.pinned t.postgres t.active then blind else passed after handled
