-- ===== src/RateLimit/Levels.antt =====
-- What a call of packages/asas-ratelimit leaves of each key's tokens, pruning included.
use asas.Base.{
  ℕ, ◌+◌, ◌-◌, ◌*◌, ◌≤◌, ◌≡◌, ◌↔◌, refl, sym, ◌∙◌, subst, String, Bool, true, false, ◌&&◌, Option,
  none, some, List, [], ◌∷◌, arith, ltb, leb, str_eq, if◌then◌else◌, length, get_key, put_key,
  keep_if, get_key-put_key, HasDistinctKeys, put_key-HasDistinctKeys, get_key-keep_none,
  keep_if-HasDistinctKeys, Bool-cases, Option-cases, inl, inr, eq_iff,
}
use native.Mathlib.Nat.{mul-le-mul_right}
use asas.RateLimit.Allow.{
  Rule, Bucket, Key, same_key, Limiter, max_buckets, rate, token, full, refilled, stays, prune,
  topped, bucket_or_full, take_token,
}

pub same_key_iff : (a b : Key) → (same_key a b ≡ true) ↔ (a ≡ b)
same_key_iff (a, b) (c, d) = ground (arith, eq_iff a c, eq_iff b d)

abbrev pub Buckets : Type 0
Buckets = List (Key × Bucket)

-- The units that a key has at a moment.
abbrev pub level : Rule → Key → Buckets → ℕ → ℕ
level r key m now = topped r now (get_key same_key key m)

module _ (rules : List (String × Rule)) (r : Rule) (key : Key) (now : ℕ)
    (known : get_key str_eq key.0 rules ≡ some r) where
  -- An entry that is pruned is a full one, which an absent entry stands for.
  pub keep-level_here :
      (w : Bucket) (m : Buckets)
      → get_key same_key key m ≡ none
      → level r key (keep_if (stays rules now) ((key, w) ∷ m)) now ≡ level r key ((key, w) ∷ m) now
  unfolding get_key keep_if
  keep-level_here w m free =
      let self = (same_key_iff key key).1 refl in
      let gone = get_key-keep_none same_key (stays rules now) key m free in
      elim (Bool-cases (ltb (refilled r w now) (full r))) [
        | inl e ↦ ground (arith, known, self, e)
        | inr e ↦ ground (arith, known, self, e, gone)
      ]

  pub keep-level :
      (m : Buckets)
      → HasDistinctKeys same_key m
      → level r key (keep_if (stays rules now) m) now ≡ level r key m now
  unfolding get_key keep_if
  keep-level [] h = refl
  keep-level ((j, w) ∷ m) h = elim (Bool-cases (same_key j key)) [
    | inl e ↦
        let here = (same_key_iff j key).0 e in
        subst
          (λ (x : Key).
            level r key (keep_if (stays rules now) ((x, w) ∷ m)) now ≡ level r key ((x, w) ∷ m) now)
          (sym here)
          (keep-level_here w m (subst (λ (x : Key). get_key same_key x m ≡ none) here h.0))
    | inr e ↦ ground (arith, e, keep-level m h.1)
  ]

  pub prune-level :
      (m : Buckets)
      → HasDistinctKeys same_key m
      → level r key (prune rules now m) now ≡ level r key m now
  unfolding prune
  prune-level m h = ground (arith, keep-level m h)

pub prune-HasDistinctKeys :
    (rules : List (String × Rule)) (now : ℕ) (m : Buckets)
    → HasDistinctKeys same_key m
    → HasDistinctKeys same_key (prune rules now m)
unfolding prune
prune-HasDistinctKeys rules now m h = elim (Bool-cases (leb (length m) max_buckets)) [
  | inl e ↦ rw e h
  | inr e ↦ rw e (keep_if-HasDistinctKeys same_key (stays rules now) m h)
]

-- What a write of `key'` does to the level of `key`.
pub put-level :
    (r : Rule) (key key' : Key) (b : Bucket) (m : Buckets) (now : ℕ)
    → level r key (put_key same_key key' b m) now
      ≡ (if same_key key' key then topped r now (some b) else level r key m now)
put-level r key key' b m now = ground (arith, get_key-put_key same_key same_key_iff key' key b m)

pub split_refill :
    (now later stamp k : ℕ)
    → now ≤ later
    → (later - stamp) * k ≤ (later - now) * k + (now - stamp) * k
split_refill now later stamp k h =
    let le : later - stamp ≤ (later - now) + (now - stamp) = omega arith in
    omega (arith, mul-le-mul_right k le)

-- A bucket just written holds what was written.
pub topped_now :
    (r : Rule) (t now : ℕ)
    → t ≤ full r
    → topped r now (some (record { tokens = t; stamp = now })) ≡ t
topped_now r t now h = grind arith

pub topped-le-full : (r : Rule) (now : ℕ) (o : Option Bucket) → topped r now o ≤ full r
topped-le-full r now o = omega arith

-- The units that a call takes from a key.
abbrev pub cost : Rule → Key → Key → Bool → ℕ
cost r key key' allowed = if same_key key' key && allowed then token r else 0

module _ (s : Limiter) (r : Rule) (key : Key) (now : ℕ)
    (known : get_key str_eq key.0 s.rules ≡ some r)
    (distinct : HasDistinctKeys same_key s.buckets) where
  pub after_put :
      (r' : Rule) (key' : Key) (b : Bucket)
      → level r key (prune s.rules now (put_key same_key key' b s.buckets)) now
        ≡ (if same_key key' key then topped r now (some b) else level r key s.buckets now)
  after_put r' key' b =
      prune-level s.rules r key now known (put_key same_key key' b s.buckets)
        (put_key-HasDistinctKeys same_key same_key_iff key' b s.buckets distinct)
      ∙ put-level r key key' b s.buckets now

  -- A call takes a token's units from its own key if it is admitted, and else nothing.
  pub take_token_self :
      level r key (take_token s r key now).0.buckets now
        + (if (take_token s r key now).1.0 then token r else 0)
      ≡ level r key s.buckets now
  unfolding take_token
  take_token_self =
      let t = topped r now (get_key same_key key s.buckets) in
      let self = (same_key_iff key key).1 refl in
      let few = topped-le-full r now (get_key same_key key s.buckets) in
      elim (Bool-cases (leb (token r) t)) [
        | inl e ↦
            let enough : token r ≤ t = ground (arith, e) in
            rw (e, if◌then◌else◌)
              (rw (after_put r key (record { tokens = t - token r; stamp = now }), self)
                (omega (arith, topped_now r (t - token r) now (omega (arith, few)), enough)))
        | inr e ↦
            rw (e, if◌then◌else◌)
              (rw (put-level r key key (record { tokens = t; stamp = now }) s.buckets now, self)
                (omega (arith, topped_now r t now few)))
      ]

  -- A call leaves every other key's units as they were, pruning included.
  pub take_token-other :
      (r' : Rule) (key' : Key)
      → same_key key' key ≡ false
      → level r key (take_token s r' key' now).0.buckets now ≡ level r key s.buckets now
  unfolding take_token
  take_token-other r' key' other =
      let t = topped r' now (get_key same_key key' s.buckets) in
      elim (Bool-cases (leb (token r') t)) [
        | inl e ↦
            rw (e, if◌then◌else◌)
              (rw (after_put r' key' (record { tokens = t - token r'; stamp = now }), other) refl)
        | inr e ↦
            rw (e, if◌then◌else◌)
              (rw (put-level r key key' (record { tokens = t; stamp = now }) s.buckets now, other)
                refl)
      ]

pub take_token-HasDistinctKeys :
    (s : Limiter) (r : Rule) (key : Key) (now : ℕ)
    → HasDistinctKeys same_key s.buckets
    → HasDistinctKeys same_key (take_token s r key now).0.buckets
unfolding take_token
take_token-HasDistinctKeys s r key now h =
    let t = topped r now (get_key same_key key s.buckets) in
    elim (Bool-cases (leb (token r) t)) [
      | inl e ↦
          rw (e, if◌then◌else◌)
            (prune-HasDistinctKeys s.rules now
              (put_key same_key key (record { tokens = t - token r; stamp = now }) s.buckets)
              (put_key-HasDistinctKeys same_key same_key_iff key _ s.buckets h))
      | inr e ↦
          rw (e, if◌then◌else◌) (put_key-HasDistinctKeys same_key same_key_iff key _ s.buckets h)
    ]

pub take_token-rules :
    (s : Limiter) (r : Rule) (key : Key) (now : ℕ)
    → ((take_token s r key now).0.rules ≡ s.rules)
      × ((take_token s r key now).0.enabled ≡ s.enabled)
unfolding take_token
take_token-rules s r key now = ground arith

-- Time passing adds at most the refill of the time passed.
pub level-later :
    (r : Rule) (key : Key) (m : Buckets) (now later : ℕ)
    → now ≤ later
    → level r key m later ≤ level r key m now + (later - now) * rate r
level-later r key m now later h = elim (Option-cases (get_key same_key key m)) [
  | inl e ↦ rw (e, bucket_or_full) (omega arith)
  | inr (b, e) ↦ rw (e, bucket_or_full) (omega (arith, split_refill now later b.stamp (rate r) h))
]
