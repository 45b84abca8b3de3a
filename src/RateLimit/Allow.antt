-- ===== src/RateLimit/Allow.antt =====
-- The state and the operations of packages/asas-ratelimit/src/asas_ratelimit/__init__.py.
use asas.Base.{
  ℕ, ◌+◌, ◌-◌, ◌*◌, ◌/◌, min, max, String, Bool, true, false, ◌&&◌, ◌||◌, not, Option, none, some,
  List, [], ltb, leb, str_eq, if◌then◌else◌, ℤ, pos, pos_part, leb_ℤ, ltb_ℤ, length, get_key,
  put_key, keep_if,
}

pub record Rule : Type 0 where
  pub name : String
  pub limit : ℤ
  pub window : ℤ
  pub burst : Option ℤ

abbrev pub capacity : Rule → ℤ
capacity r = elim r.burst [ none ↦ r.limit | some b ↦ b ]

pub record Bucket : Type 0 where
  pub tokens : ℕ
  pub stamp : ℕ

abbrev pub Key : Type 0
Key = String × String

abbrev pub same_key : Key → Key → Bool
same_key (a, b) (c, d) = str_eq a c && str_eq b d

pub record Limiter : Type 0 where
  pub enabled : Bool
  pub rules : List (String × Rule)
  pub buckets : List (Key × Bucket)

abbrev pub max_buckets : ℕ
max_buckets = 50_000

-- `configure`: the kill switch. The clock is the argument `now` of the calls.
unfoldable pub configure : Limiter → Bool → Limiter
configure s enabled = record s { enabled = enabled }

pub data DeclareError : Type 0 where
  bad_window bad_limit : DeclareError

pub data Declared : Type 0 where
  ok : Limiter → Declared
  refused : DeclareError → Declared

unfoldable pub declare : Limiter → Rule → Declared
unfolding put_key
declare s r =
    if leb_ℤ r.window (pos 0)
    then refused bad_window
    else if ltb_ℤ r.limit (pos 0)
    then refused bad_limit
    else ok (record s { rules = put_key str_eq r.name r s.rules })

unfoldable pub reset : Limiter → Limiter
reset s = record s { buckets = []; rules = [] }

unfoldable pub clear_counters : Limiter → Limiter
clear_counters s = record s { buckets = [] }

-- The numbers of a rule that is enforced: `full` is the capacity in units.
abbrev pub rate : Rule → ℕ
rate r = pos_part r.limit

abbrev pub token : Rule → ℕ
token r = pos_part r.window

abbrev pub full : Rule → ℕ
full r = pos_part (capacity r) * token r

-- tokens + (now - stamp) * refill_per_second, of a clock that is not behind the stamp: where a call that
-- read the clock earlier takes the lock later, the source subtracts what this leaves alone.
abbrev pub refilled : Rule → Bucket → ℕ → ℕ
refilled r b now = b.tokens + (now - b.stamp) * rate r

-- `_prune_locked`: past the bound, the entries of unknown rules and the full ones go.
abbrev pub stays : List (String × Rule) → ℕ → Key → Bucket → Bool
stays rules now key b = elim (get_key str_eq key.0 rules) [
  | none ↦ false
  | some r ↦ ltb (refilled r b now) (full r)
]

unfoldable pub prune : List (String × Rule) → ℕ → List (Key × Bucket) → List (Key × Bucket)
unfolding get_key keep_if
prune rules now buckets =
    if leb (length buckets) max_buckets then buckets else keep_if (stays rules now) buckets

-- The seconds to wait, a fraction of microseconds.
pub record Wait : Type 0 where
  pub numerator : ℕ
  pub denominator : ℕ

abbrev pub no_wait : Wait
no_wait = record { numerator = 0; denominator = 1 }

abbrev pub bucket_or_full : Rule → ℕ → Option Bucket → Bucket
bucket_or_full r now none = record { tokens = full r; stamp = now }
bucket_or_full r now (some b) = b

-- The refill of `allow`, capped.
abbrev pub topped : Rule → ℕ → Option Bucket → ℕ
topped r now o = let b = bucket_or_full r now o in min (full r) (refilled r b now)

-- A limit or a capacity that blocks every call.
abbrev pub blocks : Rule → Bool
blocks r = leb_ℤ r.limit (pos 0) || leb_ℤ (capacity r) (pos 0)

-- The part of `allow` under the lock.
unfoldable pub take_token : Limiter → Rule → Key → ℕ → Limiter × (Bool × Wait)
unfolding prune get_key put_key
take_token s r key now =
    let tokens = topped r now (get_key same_key key s.buckets) in
    if leb (token r) tokens
    then (
      record s {
        buckets =
            prune s.rules now
              (put_key same_key key (record { tokens = tokens - token r; stamp = now }) s.buckets);
      },
      (true, no_wait),
    )
    else (
      record s {
        buckets = put_key same_key key (record { tokens = tokens; stamp = now }) s.buckets;
      },
      (false, record { numerator = token r - tokens; denominator = rate r }),
    )

unfoldable pub allow : Limiter → String → String → ℕ → Limiter × (Bool × Wait)
unfolding get_key
allow s rule_name key now =
    if not s.enabled then (s, (true, no_wait)) else elim (get_key str_eq rule_name s.rules) [
      | none ↦ (s, (true, no_wait))
      | some r ↦
          if blocks r
          then (s, (false, record { numerator = token r; denominator = 1 }))
          else take_token s r (rule_name, key) now
    ]

abbrev pub ceil_div : ℕ → ℕ → ℕ
ceil_div a b = (a + (b - 1)) / b

-- `check`: nothing, or the Retry-After seconds of a 429.
unfoldable pub check : Limiter → String → String → ℕ → Limiter × Option ℕ
unfolding allow
check s rule_name key now =
    let (s', (allowed, wait)) = allow s rule_name key now in
    (
      s',
      (if allowed
          then none
          else some (max 1 (ceil_div wait.numerator (wait.denominator * 1_000_000)))),
    )
