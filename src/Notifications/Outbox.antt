-- ===== src/Notifications/Outbox.antt =====
-- The outbox of packages/asas-notifications/src/asas_notifications/service.py: pending rows, stale claims,
-- the claim of a row and the write of its outcome. Moments are microseconds.
use asas.Base.{
  select_where, ℕ, ◌+◌, ◌*◌, ◌==◌, leb, ltb, take, String, Bool, false, Option, none, some, List,
  [], ◌∷◌, ◌&&◌, ◌||◌, is_some, update_where, count_where, first_where, sort_by,
}
use asas.Notifications.Model.{
  Notification, NotificationDelivery, DeliveryStatus, pending, sending, is_pending, is_sending,
}
use asas.Notifications.Feed.{has_id}

abbrev pub max_attempts : ℕ
max_attempts = 5

abbrev pub stale_claim_seconds : ℕ
stale_claim_seconds = 300

abbrev pub Outbox : Type 0
Outbox = List NotificationDelivery

-- A row as an emit inserts it.
abbrev pub new_delivery : ℕ → ℕ → Option String → String → NotificationDelivery
new_delivery id notification_id org channel = record {
  id = id;
  notification_id = notification_id;
  org_id = org;
  channel = channel;
  status = pending;
  attempts = 0;
  claimed_at = none;
  sent_at = none;
  last_error = none;
}

abbrev pub is_delivery : ℕ → NotificationDelivery → Bool
is_delivery id d = d.id == id

-- `claimed_at < cutoff`, which no NULL is.
abbrev pub older_than_cutoff : ℕ → Option ℕ → Bool
older_than_cutoff now none = false
older_than_cutoff now (some t) = ltb (t + stale_claim_seconds * 1000000) now

abbrev pub is_stale : ℕ → NotificationDelivery → Bool
is_stale now d = is_sending d.status && older_than_cutoff now d.claimed_at

abbrev pub is_due : NotificationDelivery → Bool
is_due d = is_pending d.status && ltb d.attempts max_attempts

unfoldable pub has_pending : ℕ → Outbox → Bool
unfolding first_where
has_pending now outbox = is_some (first_where (λ d. is_due d || is_stale now d) outbox)

abbrev pub unclaimed : NotificationDelivery → NotificationDelivery
unclaimed d = record d { status = pending; claimed_at = none }

unfoldable pub reclaim_stale : ℕ → Outbox → Outbox
unfolding update_where
reclaim_stale now outbox = update_where (is_stale now) unclaimed outbox

-- A delivery with the notification that it joins.
pub record PassRow : Type 0 where
  pub delivery : NotificationDelivery
  pub notification : Notification

unfoldable pub joined : List Notification → Outbox → List PassRow
unfolding first_where
joined notifications [] = []
joined notifications (d ∷ ds) =
    let rest = joined notifications ds in
    elim (first_where (has_id d.notification_id) notifications) [
      | none ↦ rest
      | some n ↦ (record { delivery = d; notification = n }) ∷ rest
    ]

abbrev pub by_id : NotificationDelivery → NotificationDelivery → Bool
by_id a b = leb a.id b.id

-- The first transaction of a pass.
unfoldable pub open_pass : ℕ → ℕ → List Notification → Outbox → Outbox × List PassRow
unfolding reclaim_stale joined sort_by select_where
open_pass now limit notifications outbox =
    let reclaimed = reclaim_stale now outbox in
    (reclaimed, take limit (joined notifications (sort_by by_id (select_where is_due reclaimed))))

abbrev pub claimable : ℕ → NotificationDelivery → Bool
claimable id d = is_delivery id d && is_pending d.status

abbrev pub claimed : ℕ → NotificationDelivery → NotificationDelivery
claimed now d = record d { status = sending; claimed_at = some now }

-- The rows-affected CAS.
unfoldable pub claim : ℕ → ℕ → Outbox → Outbox × Bool
unfolding update_where count_where
claim now id outbox =
    (update_where (claimable id) (claimed now) outbox, count_where (claimable id) outbox == 1)

-- The columns that a finish writes; a column that is not named keeps its value.
pub record Values : Type 0 where
  pub status : DeliveryStatus
  pub attempts : Option ℕ
  pub sent_at : Option ℕ
  pub last_error : Option String

abbrev pub or_kept {ℓ} : {A : Type ℓ} → Option A → A → A
or_kept none old = old
or_kept (some new) old = new

abbrev pub or_kept_moment : Option ℕ → Option ℕ → Option ℕ
or_kept_moment none old = old
or_kept_moment (some t) old = some t

abbrev pub written : Values → NotificationDelivery → NotificationDelivery
written v d = record d {
  status = v.status;
  attempts = or_kept v.attempts d.attempts;
  sent_at = or_kept_moment v.sent_at d.sent_at;
  last_error = v.last_error;
  claimed_at = none;
}

unfoldable pub finish : ℕ → Values → Outbox → Outbox
unfolding update_where
finish id v outbox = update_where (is_delivery id) (written v) outbox
