-- ===== src/Notifications/Feed.antt =====
-- The feed, read state and archive state of
-- packages/asas-notifications/src/asas_notifications/service.py.
use asas.Base.{
  select_where, ℕ, ◌-◌, ◌*◌, ◌==◌, leb, ltb, take, String, Bool, true, Option, none, some, List, [],
  ◌∷◌, ◌&&◌, ◌||◌, not, if◌then◌else◌, str_eq, is_some, update_where, count_where, first_where,
  sort_by,
}
use asas.Notifications.Model.{Notification, Host, current_org_id}

pub data FeedState : Type 0 where
  open_ archived any : FeedState

abbrev pub Inbox : Type 0
Inbox = List Notification

abbrev pub unread : Notification → Bool
unread n = not (is_some n.read_at)

abbrev pub in_inbox : Notification → Bool
in_inbox n = not (is_some n.archived_at)

abbrev pub of_org : Option String → String → Bool
of_org none org_id = true
of_org (some o) org_id = str_eq org_id o

module _ {ℓ} {A : Type ℓ} where
  -- The rows that a condition selects, in the table's order.
  unfoldable pub offset : ℕ → List A → List A
  offset n [] = []
  offset n (x ∷ xs) = elim n [ ℕ.zero ↦ x ∷ xs | ℕ.suc m ↦ offset m xs ]

-- ORDER BY created_at DESC, id DESC: `a` stands before `b`.
abbrev pub before : Notification → Notification → Bool
before a b = ltb b.created_at a.created_at || (a.created_at == b.created_at && leb b.id a.id)

abbrev pub in_state : FeedState → Notification → Bool
in_state open_ n = in_inbox n
in_state archived n = not (in_inbox n)
in_state any n = true

abbrev pub has_id : ℕ → Notification → Bool
has_id id n = n.id == id

abbrev pub seen_at : ℕ → Notification → Notification
seen_at now n = record n { read_at = some now }

abbrev pub filed_at : ℕ → Notification → Notification
filed_at now n = record n { archived_at = some now }

abbrev pub restored : Notification → Notification
restored n = record n { archived_at = none }

module _ {U R : Type 0} (host : Host U R) where
  -- The org of the request, as it is stored.
  unfoldable pub org_condition : Option String
  unfolding current_org_id
  org_condition = elim (current_org_id host) [ none ↦ none | some o ↦ some (host.text_of o) ]

  -- The condition on which each query for a recipient is built.
  unfoldable pub recipient_conditions : U → Notification → Bool
  unfolding org_condition
  recipient_conditions user n =
      str_eq n.user_id (host.text_of user) && of_org org_condition n.org_id

  unfoldable pub unread_count : U → Inbox → ℕ
  unfolding count_where recipient_conditions
  unread_count user inbox =
      count_where (λ n. recipient_conditions user n && unread n && in_inbox n) inbox

  abbrev pub feed_conditions : U → FeedState → Bool → Notification → Bool
  feed_conditions user state unread_only n =
      recipient_conditions user n && in_state state n && (if unread_only then unread n else true)

  -- One page and the filtered total.
  unfoldable pub list_feed : U → FeedState → Bool → ℕ → ℕ → Inbox → List Notification × ℕ
  unfolding select_where sort_by offset count_where
  list_feed user state unread_only page page_size inbox =
      let conditions = feed_conditions user state unread_only in
      (
        take page_size
            (offset ((page - 1) * page_size) (sort_by before (select_where conditions inbox))),
        count_where conditions inbox,
      )

  -- The recipient's own row, of the org of the request.
  unfoldable pub owned : U → ℕ → Inbox → Option Notification
  unfolding first_where recipient_conditions
  owned user id inbox = elim (first_where (has_id id) inbox) [
    | none ↦ none
    | some n ↦ if recipient_conditions user n then some n else none
  ]

  -- A write of one owned row, if there is something to write.
  unfoldable pub touch :
      (Notification → Bool)
      → (Notification → Notification)
      → U
      → ℕ
      → Inbox
      → Inbox × Option Notification
  unfolding owned update_where
  touch due write user id inbox = elim (owned user id inbox) [
    | none ↦ (inbox, none)
    | some n ↦
        if due n then (update_where (has_id id) write inbox, some (write n)) else (inbox, some n)
  ]

  unfoldable pub mark_read : ℕ → U → ℕ → Inbox → Inbox × Option Notification
  unfolding touch
  mark_read now user id inbox = touch unread (seen_at now) user id inbox

  unfoldable pub mark_all_read : ℕ → U → Inbox → Inbox × ℕ
  unfolding recipient_conditions update_where count_where
  mark_all_read now user inbox =
      let due = λ (n : Notification). recipient_conditions user n && unread n in
      (update_where due (seen_at now) inbox, count_where due inbox)

  unfoldable pub archive : ℕ → U → ℕ → Inbox → Inbox × Option Notification
  unfolding touch
  archive now user id inbox = touch in_inbox (filed_at now) user id inbox

  unfoldable pub unarchive : U → ℕ → Inbox → Inbox × Option Notification
  unfolding touch
  unarchive user id inbox = touch (λ n. not (in_inbox n)) restored user id inbox

  unfoldable pub archive_read : ℕ → U → Inbox → Inbox × ℕ
  unfolding recipient_conditions update_where count_where
  archive_read now user inbox =
      let due = λ (n : Notification). recipient_conditions user n && not (unread n) && in_inbox n in
      (update_where due (filed_at now) inbox, count_where due inbox)
