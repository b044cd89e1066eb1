-- ===== src/RateLimiter.antt =====
-- infra/rate_limiter.py: a token bucket for each caller. The clock is read in ticks, `second` of them to
-- a second, and the tokens of a bucket are counted in parts, `second` of them to a token, so that a
-- tick fills in `fill_rate` parts. The rounding of the source's floating-point numbers is left out.
-- `consume` runs outside the lock, in the threads of the requests: here a thread may be interrupted between
-- the comparison and the subtraction, so that tokens may be below 0. Each of the two is one step.
pub mod Bucket
pub mod Bound
use agent_task_platform.Prelude.{
  ℕ, ◌+◌, ◌-◌, ◌*◌, min, String, Bool, true, false, not, Option, none, some, List, [], ◌∷◌,
  if◌then◌else◌, leb,
}
use agent_task_platform.Prelude.Int.{ℤ, pos, negsuc}
use agent_task_platform.Domain.Entities.{Dict, or_else}
use agent_task_platform.World.{dict_get, dict_set}

pub record TokenBucket : Type 0 where
  pub capacity : ℕ
  pub fill_rate : ℕ
  pub tokens : ℤ
  pub last_refill : ℕ

-- The limits of a caller, where the settings have them.
pub record Limits : Type 0 where
  pub capacity : Option ℕ
  pub fill_rate : Option ℕ

pub record LimiterSettings : Type 0 where
  pub enabled : Bool
  pub callers : Dict Limits
  pub default : Limits

pub record RateLimiter : Type 0 where
  pub settings : LimiterSettings
  pub buckets : Dict TokenBucket

abbrev pub limits_of : String → LimiterSettings → Limits
limits_of caller settings = or_else (dict_get caller settings.callers) settings.default

abbrev pub capacity_of : String → LimiterSettings → ℕ
capacity_of caller settings = or_else (limits_of caller settings).capacity 100

abbrev pub fill_rate_of : String → LimiterSettings → ℕ
fill_rate_of caller settings = or_else (limits_of caller settings).fill_rate 10

abbrev pub reconfigure : LimiterSettings → RateLimiter → RateLimiter
reconfigure settings limiter = record { settings = settings; buckets = [] }

abbrev pub plus : ℤ → ℕ → ℤ
plus (pos a) n = pos (a + n)
plus (negsuc a) n = if leb n a then negsuc (a - n) else pos (n - (a + 1))

abbrev pub minus : ℤ → ℕ → ℤ
minus (pos a) n = if leb n a then pos (a - n) else negsuc (n - (a + 1))
minus (negsuc a) n = negsuc (a + n)

abbrev pub at_most : ℕ → ℤ → ℤ
at_most limit (pos a) = pos (min limit a)
at_most limit (negsuc a) = negsuc a

abbrev pub covers : ℕ → ℤ → Bool
covers n (pos a) = leb n a
covers n (negsuc a) = false

module _ (second : ℕ) where
  -- A new bucket is full.
  abbrev pub new_bucket : ℕ → ℕ → ℕ → TokenBucket
  new_bucket capacity fill_rate now = record {
    capacity = capacity;
    fill_rate = fill_rate;
    tokens = pos (capacity * second);
    last_refill = now;
  }

  -- `_refill`
  unfoldable pub refill : ℕ → TokenBucket → TokenBucket
  refill now b = record b {
    tokens = at_most (b.capacity * second) (plus b.tokens ((now - b.last_refill) * b.fill_rate));
    last_refill = now;
  }

  -- `consume` of one token up to its comparison, and the subtraction after it.
  unfoldable pub check : ℕ → TokenBucket → Bool × TokenBucket
  check now b = let full = refill now b in (covers second full.tokens, full)

  unfoldable pub spend : TokenBucket → TokenBucket
  spend b = record b { tokens = minus b.tokens second }

  abbrev pub available : ℕ → TokenBucket → ℤ
  available now b = (refill now b).tokens

  -- `_get_bucket`
  abbrev pub get_bucket : String → ℕ → RateLimiter → TokenBucket
  get_bucket caller now limiter =
      or_else (dict_get caller limiter.buckets) (
        new_bucket (capacity_of caller limiter.settings) (fill_rate_of caller limiter.settings) now)

  -- The two steps of a call with the limiter enabled.
  unfoldable pub ask : String → ℕ → RateLimiter → Bool × RateLimiter
  ask caller now limiter =
      let (allowed, bucket) = check now (get_bucket caller now limiter) in
      (allowed, record limiter { buckets = dict_set caller bucket limiter.buckets })

  unfoldable pub take_token : String → RateLimiter → RateLimiter
  take_token caller limiter = elim (dict_get caller limiter.buckets) [
    | none ↦ limiter
    | some b ↦ record limiter { buckets = dict_set caller (spend b) limiter.buckets }
  ]

  -- `is_allowed`; `other` is what other threads do between the two steps.
  unfoldable pub is_allowed :
      (RateLimiter → RateLimiter) → String → ℕ → RateLimiter → Bool × RateLimiter
  is_allowed other caller now limiter =
      if not limiter.settings.enabled
      then (true, limiter)
      else let (allowed, l) = ask caller now limiter in
        if allowed then (true, take_token caller (other l)) else (false, l)
