-- ===== src/RateLimit/Examples.antt =====
-- The theorems on packages/asas-ratelimit at a concrete rule, and tests.
use asas.Base.{◌+◌, ◌-◌, ◌*◌, ◌≤◌, ◌≡◌, refl, true, some, List, [], ◌∷◌, arith, pos, get_key}
use asas.RateLimit.Allow.{Rule, Key, Limiter, rate, token, full, allow, take_token, check}
use asas.RateLimit.Accounts.{Call, last_at, admitted, Enforces}
use asas.RateLimit.Bounds.{admitted_bound}
use asas.RateLimit.Retrying.{after_calls, retry_admitted}

-- Two calls a minute, at most one at once.
abbrev login : Rule
login = record { name = "login"; limit = pos 2; window = pos 60_000_000; burst = some (pos 1) }

abbrev limiter : Limiter
limiter = record { enabled = true; rules = ("login", login) ∷ []; buckets = [] }

abbrev ann : Key
ann = ("login", "ann")

enforced : Enforces limiter login ann
unfolding get_key
enforced = record { is_on = refl; known = refl; open_ = refl; distinct = tt }

abbrev calls : List Call
calls =
    record { rule_name = "login"; key = "ann"; at = 0 }
    ∷ record { rule_name = "login"; key = "ann"; at = 1_000_000 }
    ∷ record { rule_name = "login"; key = "ann"; at = 31_000_000 }
    ∷ []

two_pass : admitted limiter ann calls ≡ 2
unfolding admitted allow take_token
two_pass = refl

admitted_bound_example :
    admitted limiter ann calls * token login ≤ full login + (last_at 0 calls - 0) * rate login
admitted_bound_example = admitted_bound limiter login ann 0 calls enforced (omega arith)

abbrev spent : Limiter
spent = record limiter { buckets = (ann, record { tokens = 0; stamp = 0 }) ∷ [] }

spent-Enforces : Enforces spent login ann
unfolding get_key
spent-Enforces = record { is_on = refl; known = refl; open_ = refl; distinct = (refl, tt) }

-- Another user logs in between.
abbrev bob_calls : List Call
bob_calls =
    record { rule_name = "login"; key = "bob"; at = 2_000_000 }
    ∷ record { rule_name = "login"; key = "bob"; at = 3_000_000 }
    ∷ []

retry_admitted_example :
    (allow
      (after_calls (allow spent "login" "ann" 1_000_000).0 bob_calls)
      "login"
      "ann"
      30_000_000).1.0
    ≡ true
retry_admitted_example =
    retry_admitted spent login ann 1_000_000 30_000_000 bob_calls spent-Enforces (refl, (refl, tt))
      (unfold allow take_token in refl) (unfold allow take_token in omega arith)

retry_after : (check spent "login" "ann" 1_000_000).1 ≡ some 29
unfolding check take_token
retry_after = refl
