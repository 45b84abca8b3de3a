-- ===== src/Notifications/Examples.antt =====
-- The theorems on packages/asas-notifications at concrete tables, and tests.
use asas.Base.{
  ℕ, ◌+◌, ◌*◌, ◌≤◌, ◌≡◌, refl, String, Bool, true, false, none, some, List, [], ◌∷◌, ◌&&◌, arith,
  str_eq, ◌==◌, count_where, length, IsSortedBy, map,
}
use asas.Notifications.Model.{Notification, Tables, Host, is_sent}
use asas.Notifications.Feed.{
  Inbox, open_, before, feed_conditions, list_feed, has_id, mark_read, mark_all_read, archive,
  unarchive, archive_read, unread_count, recipient_conditions,
}
use asas.Notifications.Inbox.{others, others_untouched}
use asas.Notifications.Pages.{pages, list_feed-pages}
use asas.Notifications.Outbox.{new_delivery, is_delivery, claim, finish}
use asas.Notifications.Dispatch.{returned, outcome}
use asas.Notifications.Deliveries.{
  Flight, World, Step, Run, here, next, IsSoundWorld, Run-IsSoundWorld, is_flight,
}
use asas.Notifications.Leases.{Punctual}
use asas.Notifications.Once.{empty_world, delivered_once}
use asas.Notifications.Settings.{Caches, emails_by_default}
use asas.Notifications.Routing.{resolve_channels}
use asas.Notifications.Emit.{Emit, Store, raised, emitted, org_of}
use asas.Notifications.Notify.{notify}
use asas.Notifications.Telling.{Told}
use asas.Notifications.Folding.{HasUniqueIds}
use asas.Notifications.Notified.{notify-Told}

-- Identities are texts, in the request of member "m" of organisation "o".
abbrev host : Host String String
host = record {
  text_of = λ u. u;
  same = str_eq;
  context = some (some "m", some "o");
  locale_of = none;
  recipient_filter = none;
  kinds = [];
  suppressed = false;
}

abbrev row : ℕ → String → ℕ → Notification
row id user at = record {
  id = id;
  org_id = "o";
  user_id = user;
  action = some "job.publish";
  topic = some "general";
  importance = "high";
  entity_type = some "job";
  entity_id = some "7";
  title = "A job";
  body = none;
  link = none;
  template = none;
  data_ = none;
  read_at = none;
  archived_at = none;
  locale = none;
  created_at = at;
}

abbrev inbox : Inbox
inbox = row 1 "m" 10 ∷ row 2 "n" 20 ∷ row 3 "m" 30 ∷ []

one_row : count_where (has_id 3) inbox ≤ 1
unfolding count_where
one_row = omega arith

others_untouched_example :
    (others host "m" (mark_read host 40 "m" 3 inbox).0 ≡ others host "m" inbox)
    × (others host "m" (mark_all_read host 40 "m" inbox).0 ≡ others host "m" inbox)
    × (others host "m" (archive host 40 "m" 3 inbox).0 ≡ others host "m" inbox)
    × (others host "m" (unarchive host "m" 3 inbox).0 ≡ others host "m" inbox)
    × (others host "m" (archive_read host 40 "m" inbox).0 ≡ others host "m" inbox)
others_untouched_example = others_untouched host "m" inbox 40 3 one_row

-- The badge of "m", and what is left of it.
badge : unread_count host "m" inbox ≡ 2
unfolding unread_count
badge = refl

badge_cleared : unread_count host "m" (mark_read host 40 "m" 3 inbox).0 ≡ 1
unfolding unread_count mark_read
badge_cleared = refl

two_rows : (list_feed host "m" open_ true 1 1 inbox).1 ≤ 2 * 1
unfolding list_feed recipient_conditions
two_rows = omega arith

list_feed-pages_example :
    ((p : Notification → Bool)
      → count_where p (pages host "m" open_ true inbox 1 2)
        ≡ count_where (λ n. feed_conditions host "m" open_ true n && p n) inbox)
    × IsSortedBy before (pages host "m" open_ true inbox 1 2)
    × (length (pages host "m" open_ true inbox 1 2) ≡ (list_feed host "m" open_ true 1 1 inbox).1)
list_feed-pages_example = list_feed-pages host "m" open_ true inbox 1 2 two_rows

first_page : (list_feed host "m" open_ true 1 1 inbox).0 ≡ row 3 "m" 30 ∷ []
unfolding list_feed recipient_conditions
first_page = refl

-- One delivery, claimed and sent.
abbrev queued : World
queued = record empty_world { outbox = new_delivery 5 3 (some "o") "email" ∷ [] }

abbrev flight : Flight
flight = record { id = 5; attempts = 0 }

won : (claim 50 5 queued.outbox).1 ≡ true
unfolding claim
won = refl

abbrev taken : World
taken = record queued { outbox = (claim 50 5 queued.outbox).0; flights = flight ∷ [] }

Run-taken : Run Punctual empty_world taken
unfolding count_where
Run-taken =
    next (next here (Step.emits 5 3 (some "o") "email" refl))
      (Step.claims flight 50 (omega arith) won)

-- Marked sent, and in nobody's hands.
abbrev done : World
done = record taken {
  outbox = finish 5 (outcome 60 0 returned) taken.outbox;
  flights = [];
  delivered = 5 ∷ [];
}

Run-done : Run Punctual empty_world done
Run-done = next Run-taken (Step.finishes [] [] flight 60 returned refl)

delivered_once_example :
    (count_where (is_flight 5) done.flights + count_where (λ i. i == 5) done.delivered ≤ 1)
    × (count_where (λ i. i == 5) done.delivered
        ≤ count_where (λ d. is_delivery 5 d && is_sent d.status) done.outbox)
delivered_once_example = delivered_once done 5 Run-done

Run-IsSoundWorld_example : IsSoundWorld done
Run-IsSoundWorld_example = Run-IsSoundWorld Punctual empty_world done Run-done (tt, tt)

-- The seeded rungs, a topic, and a rule of organisation "o" that mutes the mail of the topic.
abbrev db : Tables
db = record {
  topics = (record { org_id = none; key = "general" }) ∷ [];
  importances =
      (record { org_id = none; key = "low"; emails_by_default = false })
      ∷ (record { org_id = none; key = "high"; emails_by_default = true })
      ∷ [];
  policies =
      (record {
        id = 1;
        org_id = some "o";
        topic = some "general";
        importance = none;
        channel = "email";
        enabled = false;
        mandatory = false;
      })
      ∷ [];
}

abbrev cold : Caches String
cold = record { topics = none; all_importances = none; org_importances = []; policies = [] }

-- The rule holds for its organisation and not for another.
muted : (resolve_channels host 70 db (some "o") "general" "high" cold).1 ≡ ("in_app", false) ∷ []
unfolding resolve_channels
muted = refl

mailed :
    (resolve_channels host 70 db (some "p") "general" "high" cold).1
    ≡ ("in_app", false) ∷ ("email", false) ∷ []
unfolding resolve_channels
mailed = refl

abbrev store : Store String
store = record {
  inbox = inbox;
  outbox = [];
  next_notification = 4;
  next_delivery = 1;
  caches = cold;
}

-- An ambient event on the job, by "m": it folds into the live row of "n".
abbrev event : Emit String String
event = record {
  recipients = some "m" ∷ some "n" ∷ some "q" ∷ none ∷ some "n" ∷ [];
  action = some "job.publish";
  topic = some "general";
  importance = some "low";
  title = some "News";
  body = none;
  link = none;
  template = none;
  data_ = none;
  actor_user_id = some "m";
  entity_type = some "job";
  entity_id = some "7";
  org_id = none;
  record_ = none;
  locale = none;
  coalesce_unread = true;
  merge_body = none;
  kind = none;
}

-- What it leaves: three rows as before but for the folded one, and a new one for "q".
abbrev told_store : Store String
told_store = elim (notify host db 80 event store) [ raised error ↦ store | emitted s rows ↦ s ]

abbrev told_rows : List Notification
told_rows = elim (notify host db 80 event store) [ raised error ↦ [] | emitted s rows ↦ rows ]

told_call : notify host db 80 event store ≡ emitted told_store told_rows
unfolding notify
told_call = refl

ids_of : map (λ n. n.id) told_rows ≡ 2 ∷ 4 ∷ []
unfolding notify
ids_of = refl

unique_rows : HasUniqueIds inbox
unfolding count_where
unique_rows id = ground arith

event_org : org_of host event ≡ some "o"
unfolding org_of
event_org = refl

notify-Told_example : Told host event "o" inbox [] told_store
notify-Told_example =
    notify-Told host event "o" db 80 store told_store told_rows
      (λ allowed p us t id r q h. absurd (ground (arith, q))) unique_rows event_org told_call
