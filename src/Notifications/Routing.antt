-- ===== src/Notifications/Routing.antt =====
-- The routing policy of packages/asas-notifications/src/asas_notifications/service.py.
use asas.Base.{
  select_where, ℕ, ◌+◌, ◌==◌, ltb, String, Bool, true, false, Option, none, some, List, [], ◌∷◌,
  ◌++◌, ◌&&◌, ◌||◌, not, if◌then◌else◌, str_eq, is_some, get_key, put_key,
}
use asas.Notifications.Model.{NotificationChannelPolicy, Tables, Host, normalize_id}
use asas.Notifications.Settings.{in_app, Caches, through_cache, member, emails_by_default}

-- A row that states a coordinate must state this one.
abbrev pub agrees : Option String → String → Bool
agrees none value = true
agrees (some stated) value = str_eq stated value

unfoldable pub is_candidate : String → String → String → NotificationChannelPolicy → Bool
is_candidate channel topic importance r =
    str_eq r.channel channel && agrees r.topic topic && agrees r.importance importance

abbrev pub counted : Bool → ℕ
counted b = if b then 1 else 0

abbrev pub specificity : NotificationChannelPolicy → ℕ
specificity r = counted (is_some r.topic) + counted (is_some r.importance)

-- Python's order of triples.
unfoldable pub greater : ℕ → ℕ → ℕ → ℕ → ℕ → ℕ → Bool
greater s o i s' o' i' = ltb s' s || (s == s' && (ltb o' o || (o == o' && ltb i' i)))

-- More coordinates, then an organisation's row over the platform's, then the newer id.
unfoldable pub outranks : NotificationChannelPolicy → NotificationChannelPolicy → Bool
unfolding greater
outranks a b =
    greater (specificity a) (counted (is_some a.org_id)) a.id (specificity b)
      (counted (is_some b.org_id)) b.id

abbrev pub better :
    NotificationChannelPolicy → NotificationChannelPolicy → NotificationChannelPolicy
better best r = if outranks r best then r else best

-- `max(…, key=…)`: the first of the greatest.
unfoldable pub most_specific :
    NotificationChannelPolicy → List NotificationChannelPolicy → NotificationChannelPolicy
unfolding outranks
most_specific best [] = best
most_specific best (r ∷ rs) = most_specific (better best r) rs

unfoldable pub pick : List NotificationChannelPolicy → Option NotificationChannelPolicy
unfolding most_specific
pick [] = none
pick (r ∷ rs) = some (most_specific r rs)

-- Without a row the feed always, and the mail where the rung says so.
abbrev pub built_in : String → Bool → Option Bool
built_in channel emails =
    if str_eq channel in_app
    then some false
    else if str_eq channel "email" && emails
    then some false
    else none

-- Whether a channel is enabled, and then whether it is mandatory.
unfoldable pub decide_channel :
    List NotificationChannelPolicy → Bool → String → String → String → Option Bool
unfolding pick select_where is_candidate
decide_channel rows emails topic importance channel =
    elim (pick (select_where (is_candidate channel topic importance) rows)) [
      | none ↦ built_in channel emails
      | some r ↦ if r.enabled then some r.mandatory else none
    ]

unfoldable pub channel_names : List NotificationChannelPolicy → List String → List String
channel_names [] names = names
channel_names (r ∷ rs) names =
    channel_names rs (if member r.channel names then names else names ++ r.channel ∷ [])

unfoldable pub decide_each :
    List NotificationChannelPolicy → Bool → String → String → List String → List (String × Bool)
unfolding decide_channel
decide_each rows emails topic importance [] = []
decide_each rows emails topic importance (c ∷ cs) =
    let rest = decide_each rows emails topic importance cs in
    elim (decide_channel rows emails topic importance c) [
      | none ↦ rest
      | some mandatory ↦ (c, mandatory) ∷ rest
    ]

module _ {U R : Type 0} (host : Host U R) where
  abbrev pub same_org : Option U → Option U → Bool
  same_org none none = true
  same_org (some a) (some b) = host.same a b
  same_org none (some b) = false
  same_org (some a) none = false

  -- `org_id IS NULL OR org_id = …`, where nothing equals a NULL.
  abbrev pub of_platform_or_org : Option String → Option String → Bool
  of_platform_or_org org none = true
  of_platform_or_org none (some o) = false
  of_platform_or_org (some org) (some o) = str_eq o org

  unfoldable pub policy_rows :
      ℕ → Tables → Option U → Caches U → Caches U × List NotificationChannelPolicy
  unfolding through_cache select_where get_key put_key normalize_id
  policy_rows now db org caches =
      let entry =
        through_cache now false (get_key same_org org caches.policies)
          (select_where (λ r. of_platform_or_org (normalize_id host org) r.org_id) db.policies) in
      (record caches { policies = put_key same_org org entry caches.policies }, entry.1)

  -- The catalogue of rungs is read only where no row decides about the mail.
  unfoldable pub resolve_channels :
      ℕ → Tables → Option U → String → String → Caches U → Caches U × List (String × Bool)
  unfolding policy_rows emails_by_default pick select_where is_candidate channel_names decide_each
  resolve_channels now db org topic importance caches =
      let (caches', rows) = policy_rows now db org caches in
      let (caches'', emails) =
        emails_by_default now db (normalize_id host org) importance caches' in
      let undecided =
        not (is_some (pick (select_where (is_candidate "email" topic importance) rows))) in
      (
        if undecided then caches'' else caches',
        decide_each rows emails topic importance (channel_names rows (in_app ∷ "email" ∷ [])),
      )
