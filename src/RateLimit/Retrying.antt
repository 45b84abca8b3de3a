-- ===== src/RateLimit/Retrying.antt =====
-- When packages/asas-ratelimit admits a key again that it denied.
use asas.Base.{
  ℕ, ◌-◌, ◌*◌, ◌≤◌, ◌≡◌, ◌⊎◌, refl, sym, subst, String, Bool, true, false, none, some, List, [],
  ◌∷◌, arith, get_key, put_key, Bool-cases, inl, inr, pos_part, All, leb, length, keep_if,
  HasDistinctKeys, get_key-keep_none, put_key-HasDistinctKeys, if◌then◌else◌,
}
use native.Mathlib.Nat.{mul-le-mul_right}
use asas.RateLimit.Allow.{
  Rule, Bucket, Key, same_key, Limiter, rate, token, full, Wait, topped, blocks, capacity, prune,
  max_buckets, stays, take_token, allow, bucket_or_full,
}
use asas.RateLimit.Levels.{same_key_iff, Buckets, level, put-level}
use asas.RateLimit.Accounts.{
  Call, call_key, Enforces, take_token-Enforces, allow-Accounts, allow-cases,
}

allow-enforced :
    (s : Limiter) (r : Rule) (key : Key) (now : ℕ)
    → Enforces s r key
    → allow s key.0 key.1 now ≡ take_token s r key now
unfolding allow
allow-enforced s r key now e = ground (arith, e.is_on, e.known, e.open_)

full-ge-token : (r : Rule) → blocks r ≡ false → token r ≤ full r
full-ge-token r h =
    let some_room : 1 ≤ pos_part (capacity r) = ground (arith, h) in
    omega (arith, mul-le-mul_right (token r) some_room)

-- What a denied call leaves.
denied_leaves :
    (s : Limiter) (r : Rule) (key : Key) (now : ℕ)
    → (take_token s r key now).1.0 ≡ false
    → ((take_token s r key now).0.buckets
        ≡ put_key same_key key
            (record { tokens = topped r now (get_key same_key key s.buckets); stamp = now })
            s.buckets)
      × ((take_token s r key now).1.1 ≡ record {
        numerator = token r - topped r now (get_key same_key key s.buckets);
        denominator = rate r;
      })
unfolding take_token
denied_leaves s r key now h = ground arith

admits :
    (s : Limiter) (r : Rule) (key : Key) (now : ℕ)
    → token r ≤ level r key s.buckets now
    → (take_token s r key now).1.0 ≡ true
unfolding take_token
admits s r key now h = ground arith

level-put_self :
    (r : Rule) (key : Key) (b : Bucket) (m : Buckets) (later : ℕ)
    → level r key (put_key same_key key b m) later ≡ topped r later (some b)
level-put_self r key b m later =
    rw (put-level r key key b m later, (same_key_iff key key).1 refl) refl

-- An entry is kept as it is or goes.
keep-get :
    (p : Key → Bucket → Bool) (key : Key) (m : Buckets)
    → HasDistinctKeys same_key m
    → (get_key same_key key (keep_if p m) ≡ none)
      ⊎ (get_key same_key key (keep_if p m) ≡ get_key same_key key m)
unfolding get_key keep_if
keep-get p key [] h = inl refl
keep-get p key ((j, w) ∷ m) h = elim (Bool-cases (p j w)) [
  | inl kept ↦ elim (Bool-cases (same_key j key)) [
    | inl e ↦ rw (kept, e) (inr refl)
    | inr e ↦ rw (kept, e) (keep-get p key m h.1)
  ]
  | inr gone ↦ elim (Bool-cases (same_key j key)) [
    | inl e ↦
        let here = (same_key_iff j key).0 e in
        rw gone (
          inl (
            get_key-keep_none same_key p key m
              (subst (λ (x : Key). get_key same_key x m ≡ none) here h.0)))
    | inr e ↦ rw (gone, e) (keep-get p key m h.1)
  ]
]

module _ (r : Rule) (key : Key) (later : ℕ) where
  -- The key has a token at the moment.
  abbrev IsReady : Buckets → Type 0
  IsReady m = token r ≤ level r key m later

  prune-IsReady :
      (rules : List (String × Rule)) (now : ℕ) (m : Buckets)
      → blocks r ≡ false
      → HasDistinctKeys same_key m
      → IsReady m
      → IsReady (prune rules now m)
  unfolding prune
  prune-IsReady rules now m open_ distinct ready = elim (Bool-cases (leb (length m) max_buckets)) [
    | inl e ↦ rw e ready
    | inr e ↦ rw e (elim (keep-get (stays rules now) key m distinct) [
      | inl gone ↦ rw (gone, bucket_or_full) (omega (arith, full-ge-token r open_))
      | inr kept ↦ rw kept ready
    ])
  ]

  take_token-IsReady :
      (s : Limiter) (r' : Rule) (key' : Key) (now : ℕ)
      → Enforces s r key
      → same_key key' key ≡ false
      → IsReady s.buckets
      → IsReady (take_token s r' key' now).0.buckets
  unfolding take_token
  take_token-IsReady s r' key' now e other ready =
      let t = topped r' now (get_key same_key key' s.buckets) in
      let put : (b : Bucket) → IsReady (put_key same_key key' b s.buckets) =
        λ b. rw (put-level r key key' b s.buckets later, other) ready in
      elim (Bool-cases (leb (token r') t)) [
        | inl q ↦
            let b : Bucket = record { tokens = t - token r'; stamp = now } in
            rw (q, if◌then◌else◌)
              (prune-IsReady s.rules now (put_key same_key key' b s.buckets) e.open_
                (put_key-HasDistinctKeys same_key same_key_iff key' b s.buckets e.distinct) (put b))
        | inr q ↦ rw (q, if◌then◌else◌) (put (record { tokens = t; stamp = now }))
      ]

  allow-IsReady :
      (s : Limiter) (c : Call)
      → Enforces s r key
      → same_key (call_key c) key ≡ false
      → IsReady s.buckets
      → IsReady (allow s c.rule_name c.key c.at).0.buckets
  allow-IsReady s c e other ready = elim (allow-cases s c e.is_on) [
    | inl (missing, q) ↦ rw q ready
    | inr (r', found, inl q) ↦ rw q ready
    | inr (r', found, inr q) ↦ rw q (take_token-IsReady s r' (call_key c) c.at e other ready)
  ]

-- The limiter after a sequence of calls.
abbrev pub after_calls : Limiter → List Call → Limiter
after_calls s [] = s
after_calls s (c ∷ cs) = after_calls (allow s c.rule_name c.key c.at).0 cs

-- Calls of other keys do not take away what the key will have.
ready_admitted :
    (s : Limiter) (r : Rule) (key : Key) (later : ℕ) (cs : List Call)
    → Enforces s r key
    → All (λ c. same_key (call_key c) key ≡ false) cs
    → IsReady r key later s.buckets
    → (allow (after_calls s cs) key.0 key.1 later).1.0 ≡ true
ready_admitted s r key later [] e others ready =
    rw (allow-enforced s r key later e) (admits s r key later ready)
ready_admitted s r key later (c ∷ cs) e others ready =
    ready_admitted (allow s c.rule_name c.key c.at).0 r key later cs (allow-Accounts s r key c e).1
      others.1 (allow-IsReady r key later s c e others.0 ready)

retry_taken :
    (s : Limiter) (r : Rule) (key : Key) (now later : ℕ) (cs : List Call)
    → Enforces s r key
    → All (λ c. same_key (call_key c) key ≡ false) cs
    → (take_token s r key now).1.0 ≡ false
    → (take_token s r key now).1.1.numerator
      ≤ (later - now) * (take_token s r key now).1.1.denominator
    → (allow (after_calls (take_token s r key now).0 cs) key.0 key.1 later).1.0 ≡ true
retry_taken s r key now later cs e others denied waited =
    let c : Call = record { rule_name = key.0; key = key.1; at = now } in
    let s' = (take_token s r key now).0 in
    let t = topped r now (get_key same_key key s.buckets) in
    let (left, wait) = denied_leaves s r key now denied in
    let waited' = rw wait at waited in
    let holds : token r ≤ level r key s'.buckets later =
      rw (left, level-put_self r key (record { tokens = t; stamp = now }) s.buckets later)
        (omega (arith, full-ge-token r e.open_, waited')) in
    ready_admitted s' r key later cs (take_token-Enforces s r key c e r) others holds

-- The wait is honest. The rule of the key is declared, enabled and not a block, a limit or a capacity of
-- 0 or less. A call of the key that is denied, then any calls of other keys, at whatever moments and with
-- whatever they prune, and then a call of the key at least the exact wait after the first, which the
-- header rounds up: the last one is admitted.
pub retry_admitted :
    (s : Limiter) (r : Rule) (key : Key) (now later : ℕ) (cs : List Call)
    → Enforces s r key
    → All (λ c. same_key (call_key c) key ≡ false) cs
    → (allow s key.0 key.1 now).1.0 ≡ false
    → (allow s key.0 key.1 now).1.1.numerator
      ≤ (later - now) * (allow s key.0 key.1 now).1.1.denominator
    → (allow (after_calls (allow s key.0 key.1 now).0 cs) key.0 key.1 later).1.0 ≡ true
retry_admitted s r key now later cs e others denied waited =
    subst
      (λ (x : Limiter × (Bool × Wait)).
        x.1.0 ≡ false
        → x.1.1.numerator ≤ (later - now) * x.1.1.denominator
        → (allow (after_calls x.0 cs) key.0 key.1 later).1.0 ≡ true)
      (sym (allow-enforced s r key now e)) (retry_taken s r key now later cs e others) denied waited
