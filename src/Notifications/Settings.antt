-- ===== src/Notifications/Settings.antt =====
-- The configuration that packages/asas-notifications/src/asas_notifications/service.py reads through its
-- caches. Moments are microseconds.
use asas.Base.{
  select_where, ℕ, ◌+◌, ◌*◌, ltb, String, Bool, true, false, Option, none, some, List, map, ◌&&◌,
  not, if◌then◌else◌, str_eq, same_text, is_some, first_where, get_key, put_key,
}
use asas.Notifications.Model.{NotificationImportance, NotificationChannelPolicy, Tables}

abbrev pub config_ttl_seconds : ℕ
config_ttl_seconds = 60

abbrev pub in_app : String
in_app = "in_app"

abbrev pub default_topic : String
default_topic = "general"

-- What was read, and when.
abbrev pub Entry : Type 0 → Type 0
Entry A = ℕ × A

pub record Caches (U : Type 0) : Type 0 where
  pub topics : Option (Entry (List String))
  pub all_importances : Option (Entry (List NotificationImportance))
  pub org_importances : List (String × Entry (List NotificationImportance))
  pub policies : List (Option U × Entry (List NotificationChannelPolicy))

unfoldable pub fresh : {A : Type 0} → ℕ → Option (Entry A) → Bool
fresh now none = false
fresh now (some (read_at, rows)) = ltb now (read_at + config_ttl_seconds * 1000000)

-- A read through a cache: what is cached, if it is fresh and no refresh is asked, or else the table.
unfoldable pub through_cache : {A : Type 0} → ℕ → Bool → Option (Entry A) → A → Entry A
unfolding fresh
through_cache now refresh none rows = (now, rows)
through_cache now refresh (some entry) rows =
    if not refresh && fresh now (some entry) then entry else (now, rows)

abbrev pub topic_keys : Tables → List String
topic_keys db = map (λ t. t.key) db.topics

abbrev pub is_key : String → String → Bool
is_key key k = str_eq k key

abbrev pub member : String → List String → Bool
member key keys = is_some (first_where (is_key key) keys)

abbrev pub has_key : String → NotificationImportance → Bool
has_key key r = str_eq r.key key

abbrev pub of_platform_or : String → Option String → Bool
of_platform_or org none = true
of_platform_or org (some o) = str_eq o org

abbrev pub emails_of : Option NotificationImportance → Bool
emails_of none = false
emails_of (some r) = r.emails_by_default

abbrev pub or_else : {A : Type 0} → Option A → Option A → Option A
or_else none b = b
or_else (some a) b = some a

-- The organisation's own row of a rung, or else the platform's; a rung without a row is quiet.
unfoldable pub default_of : Option String → String → List NotificationImportance → Bool
unfolding first_where
default_of org key rows = emails_of (
    or_else (first_where (λ r. has_key key r && is_some r.org_id && same_text r.org_id org) rows)
      (first_where (λ r. has_key key r && not (is_some r.org_id)) rows))

module _ {U : Type 0} where
  unfoldable pub all_topic_keys : ℕ → Tables → Bool → Caches U → Caches U × List String
  unfolding through_cache
  all_topic_keys now db refresh caches =
      let entry = through_cache now refresh caches.topics (topic_keys db) in
      (record caches { topics = some entry }, entry.1)

  -- A miss reads again.
  unfoldable pub topic_known : ℕ → Tables → String → Caches U → Caches U × Bool
  unfolding all_topic_keys first_where
  topic_known now db topic caches =
      let (caches', keys) = all_topic_keys now db false caches in
      let (caches'', again) = all_topic_keys now db true caches' in
      if member topic keys then (caches', true) else (caches'', member topic again)

  -- The catalogue, whole, or the platform's rows and those of one organisation.
  unfoldable pub importance_rows :
      ℕ → Tables → Bool → Option String → Caches U → Caches U × List NotificationImportance
  unfolding through_cache select_where get_key put_key
  importance_rows now db refresh none caches =
      let entry = through_cache now refresh caches.all_importances db.importances in
      (record caches { all_importances = some entry }, entry.1)
  importance_rows now db refresh (some org) caches =
      let entry =
        through_cache now refresh (get_key str_eq org caches.org_importances)
          (select_where (λ r. of_platform_or org r.org_id) db.importances) in
      (record caches { org_importances = put_key str_eq org entry caches.org_importances }, entry.1)

  unfoldable pub importance_known : ℕ → Tables → String → Caches U → Caches U × Bool
  unfolding importance_rows first_where
  importance_known now db key caches =
      let (caches', rows) = importance_rows now db false none caches in
      let (caches'', again) = importance_rows now db true none caches' in
      if is_some (first_where (has_key key) rows)
      then (caches', true)
      else (caches'', is_some (first_where (has_key key) again))

  -- A rung that the cached rows lack is read again.
  unfoldable pub emails_by_default :
      ℕ → Tables → Option String → String → Caches U → Caches U × Bool
  unfolding importance_rows default_of first_where
  emails_by_default now db org key caches =
      let (caches', rows) = importance_rows now db false org caches in
      let (caches'', again) = importance_rows now db true org caches' in
      if is_some (first_where (has_key key) rows)
      then (caches', default_of org key rows)
      else (caches'', default_of org key again)
