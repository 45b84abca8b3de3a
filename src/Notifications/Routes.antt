-- ===== src/Notifications/Routes.antt =====
-- :Which channels packages/asas-notifications routes an emit to, and what its caches may hide.
use asas.Base.{
  ℕ, ◌≡◌, String, true, List, [], ◌∷◌, ◌++◌, arith, if◌then◌else◌, is_some, first_where,
}
use mathlib.Core.Logic.Or
use asas.Notifications.Model.{NotificationChannelPolicy, Tables}
use asas.Notifications.Settings.{
  Caches, topic_keys, member, topic_known, all_topic_keys, importance_known, importance_rows,
  has_key, through_cache,
}

abbrev with_channel : NotificationChannelPolicy → List String → List String
with_channel r names = if member r.channel names then names else names ++ r.channel ∷ []

pub known_fresh :
    {U : Type 0} (now : ℕ) (db : Tables) (key : String) (caches : Caches U)
    → (member key (topic_keys db) ≡ true → (topic_known now db key caches).1 ≡ true)
      × (is_some (first_where (has_key key) db.importances) ≡ true
          → (importance_known now db key caches).1 ≡ true)
unfolding topic_known all_topic_keys importance_known importance_rows through_cache
known_fresh now db key caches = ((λ h. ground (arith, h)), (λ h. ground (arith, h)))
