-- ===== src/RateLimit/Bounds.antt =====
-- How many calls packages/asas-ratelimit admits.
use asas.Base.{
  ℕ, suc, ◌+◌, ◌-◌, ◌*◌, ◌≤◌, ◌≡◌, ◌&&◌, List, [], ◌∷◌, arith, get_key, Bool-cases, inl, inr,
}
use native.Mathlib.Nat.{mul-le-mul_right}
use asas.RateLimit.Allow.{Rule, Key, same_key, Limiter, rate, token, full, allow}
use asas.RateLimit.Levels.{level, topped-le-full, level-later}
use asas.RateLimit.Accounts.{Call, call_key, Chrono, last_at, admitted, Enforces, allow-Accounts}

last-le : (t : ℕ) (cs : List Call) → Chrono t cs → t ≤ last_at t cs
last-le t [] h = omega arith
last-le t (c ∷ cs) h = omega (arith, h.0, last-le c.at cs h.1)

join_refill :
    (t at last k : ℕ) → t ≤ at → at ≤ last → (last - at) * k + (at - t) * k ≤ (last - t) * k
join_refill t at last k h g =
    let le : (last - at) + (at - t) ≤ last - t = omega arith in omega (arith, mul-le-mul_right k le)

spend :
    (n w left level start between after all : ℕ)
    → left + w ≡ level
    → level ≤ start + between
    → n * w ≤ left + after
    → after + between ≤ all
    → suc n * w ≤ start + all
spend n w left level start between after all a b c d = omega arith

save :
    (n left level start between after all : ℕ)
    → left + 0 ≡ level
    → level ≤ start + between
    → n ≤ left + after
    → after + between ≤ all
    → n ≤ start + all
save n left level start between after all a b c d = omega arith

admitted-account :
    (s : Limiter) (r : Rule) (key : Key) (t : ℕ) (cs : List Call)
    → Enforces s r key
    → Chrono t cs
    → admitted s key cs * token r ≤ level r key s.buckets t + (last_at t cs - t) * rate r
unfolding admitted
admitted-account s r key t [] e h = omega arith
admitted-account s r key t (c ∷ cs) e h =
    let (s', (allowed, wait)) = allow s c.rule_name c.key c.at in
    let (account, e') = allow-Accounts s r key c e in
    let later = level-later r key s.buckets t c.at h.0 in
    let rest = admitted-account s' r key c.at cs e' h.1 in
    let join = join_refill t c.at (last_at c.at cs) (rate r) h.0 (last-le c.at cs h.1) in
    elim (Bool-cases (same_key (call_key c) key && allowed)) [
      | inl took ↦
          rw took
            (spend (admitted s' key cs) (token r) _ _ _ _ _ _ (rw took at account) later rest join)
      | inr free ↦
          rw free
            (save (admitted s' key cs * token r) _ _ _ _ _ _ (rw free at account) later rest join)
    ]

-- However its calls are spread and whatever other keys do meanwhile, a key is admitted at most its
-- capacity and what the time from the start to the last call refills: in units of 1/window token,
-- admitted * window <= capacity * window + limit * elapsed. The rule is declared, enabled and not a
-- block, and the clock does not go back.
pub admitted_bound :
    (s : Limiter) (r : Rule) (key : Key) (t : ℕ) (cs : List Call)
    → Enforces s r key
    → Chrono t cs
    → admitted s key cs * token r ≤ full r + (last_at t cs - t) * rate r
admitted_bound s r key t cs e h =
    omega (
      arith,
      admitted-account s r key t cs e h,
      topped-le-full r t (get_key same_key key s.buckets),
    )
