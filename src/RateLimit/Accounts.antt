-- ===== src/RateLimit/Accounts.antt =====
-- One call of packages/asas-ratelimit as an entry in the account of a key.
use asas.Base.{
  ℕ, suc, ◌+◌, ◌≤◌, ◌≡◌, ◌⊎◌, sym, ap, ◌∙◌, subst, String, Bool, true, false, ◌&&◌, none, some,
  List, [], ◌∷◌, arith, str_eq, if◌then◌else◌, get_key, HasDistinctKeys, Bool-cases, Option-cases,
  inl, inr,
}
use mathlib.Core.Option.{some-injective}
use asas.RateLimit.Allow.{
  Rule, Key, same_key, Limiter, token, Wait, blocks, no_wait, take_token, allow,
}
use asas.RateLimit.Levels.{
  same_key_iff, level, cost, take_token_self, take_token-other, take_token-HasDistinctKeys,
  take_token-rules,
}

pub record Call : Type 0 where
  pub rule_name : String
  pub key : String
  pub at : ℕ

abbrev pub call_key : Call → Key
call_key c = (c.rule_name, c.key)

-- The clock never goes back.
abbrev pub Chrono : ℕ → List Call → Type 0
Chrono t [] = Unit
Chrono t (c ∷ cs) = (t ≤ c.at) × Chrono c.at cs

abbrev pub last_at : ℕ → List Call → ℕ
last_at t [] = t
last_at t (c ∷ cs) = last_at c.at cs

-- How many of the calls are calls of `key` that are admitted.
unfoldable pub admitted : Limiter → Key → List Call → ℕ
admitted s key [] = 0
admitted s key (c ∷ cs) =
    let (s', (allowed, wait)) = allow s c.rule_name c.key c.at in
    let rest = admitted s' key cs in if same_key (call_key c) key && allowed then suc rest else rest

-- The limiter enforces `r` on `key`.
pub record Enforces (s : Limiter) (r : Rule) (key : Key) : Type 0 where
  pub is_on : s.enabled ≡ true
  pub known : get_key str_eq key.0 s.rules ≡ some r
  pub open_ : blocks r ≡ false
  pub distinct : HasDistinctKeys same_key s.buckets

-- What `allow` comes to while it is switched on.
pub allow-cases :
    (s : Limiter) (c : Call)
    → s.enabled ≡ true
    → ((get_key str_eq c.rule_name s.rules ≡ none)
        × (allow s c.rule_name c.key c.at ≡ (s, (true, no_wait))))
      ⊎ ((r : Rule) × (get_key str_eq c.rule_name s.rules ≡ some r)
          × ((allow s c.rule_name c.key c.at
                ≡ (s, (false, record { numerator = token r; denominator = 1 })))
              ⊎ (allow s c.rule_name c.key c.at ≡ take_token s r (call_key c) c.at)))
unfolding allow
allow-cases s c on = elim (Option-cases (get_key str_eq c.rule_name s.rules)) [
  | inl e ↦ inl (e, ground (arith, on, e))
  | inr (r, e) ↦ inr (
    r,
    e,
    elim (Bool-cases (blocks r)) [
      | inl b ↦ inl (ground (arith, on, e, b))
      | inr b ↦ inr (ground (arith, on, e, b))
    ],
  )
]

-- One call at a key that is enforced: the account of the key, and that it is still enforced.
abbrev pub Accounts : Limiter → Rule → Key → Call → Limiter × (Bool × Wait) → Type 0
Accounts s r key c (s', (allowed, wait)) =
    (level r key s'.buckets c.at + cost r key (call_key c) allowed ≡ level r key s.buckets c.at)
    × Enforces s' r key

module _ (s : Limiter) (r : Rule) (key : Key) (c : Call) (e : Enforces s r key) where
  pub take_token-Enforces : (r' : Rule) → Enforces (take_token s r' (call_key c) c.at).0 r key
  take_token-Enforces r' =
      let (rules, on) = take_token-rules s r' (call_key c) c.at in
      record {
        is_on = on ∙ e.is_on;
        known = ap (get_key str_eq key.0) rules ∙ e.known;
        open_ = e.open_;
        distinct = take_token-HasDistinctKeys s r' (call_key c) c.at e.distinct;
      }

  pub take_token-Accounts :
      (r' : Rule)
      → get_key str_eq c.rule_name s.rules ≡ some r'
      → Accounts s r key c (take_token s r' (call_key c) c.at)
  take_token-Accounts r' found = elim (Bool-cases (same_key (call_key c) key)) [
    | inl same ↦
        let here = (same_key_iff (call_key c) key).0 same in
        let rule : r ≡ r' = some-injective r r' (
          sym (subst (λ (k : Key). get_key str_eq k.0 s.rules ≡ some r) (sym here) e.known)
          ∙ found) in
        let own : level r (call_key c) (take_token s r (call_key c) c.at).0.buckets c.at
              + (if (take_token s r (call_key c) c.at).1.0 then token r else 0)
            ≡ level r (call_key c) s.buckets c.at =
          take_token_self s r (call_key c) c.at
            (subst (λ (k : Key). get_key str_eq k.0 s.rules ≡ some r) (sym here) e.known)
            e.distinct in
        (
          subst
              (λ (k : Rule).
                level r key (take_token s k (call_key c) c.at).0.buckets c.at
                  + cost r key (call_key c) (take_token s k (call_key c) c.at).1.0
                ≡ level r key s.buckets c.at)
              rule
              (rw same (
                subst
                  (λ (k : Key).
                    level r k (take_token s r (call_key c) c.at).0.buckets c.at
                      + (if (take_token s r (call_key c) c.at).1.0 then token r else 0)
                    ≡ level r k s.buckets c.at)
                  here own)),
          take_token-Enforces r',
        )
    | inr other ↦ (
      rw other
          (omega (arith, take_token-other s r key c.at e.known e.distinct r' (call_key c) other)),
      take_token-Enforces r',
    )
  ]

  pub not_mine : get_key str_eq c.rule_name s.rules ≡ none → same_key (call_key c) key ≡ false
  not_mine missing = elim (Bool-cases (same_key (call_key c) key)) [
    | inl same ↦
        let here = (same_key_iff (call_key c) key).0 same in
        let found = subst (λ (k : Key). get_key str_eq k.0 s.rules ≡ some r) (sym here) e.known in
        absurd (cc (found, missing))
    | inr other ↦ other
  ]

  pub allow-Accounts : Accounts s r key c (allow s c.rule_name c.key c.at)
  allow-Accounts = elim (allow-cases s c e.is_on) [
    | inl (missing, q) ↦ rw q (rw (not_mine missing) (omega arith), e)
    | inr (r', found, inl q) ↦ rw q (ground arith, e)
    | inr (r', found, inr q) ↦ rw q (take_token-Accounts r' found)
  ]
