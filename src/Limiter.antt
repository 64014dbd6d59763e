-- ===== src/Limiter.antt =====
-- internal/idp/ratelimit.go: the token bucket per client address that throttles login attempts.
-- A bucket's float64 is the exact number of refills: a whole token is `token_unit` refills, and a
-- bucket gains `per_minute` refills in a nanosecond, which is `per_minute / 60` tokens in a second.
-- `per_minute` 0 stands for any value that is not positive. The receiver is not nil.
pub mod Buckets
pub mod Level
pub mod Rate
pub mod Bound
use minidp.Base.{
  ℕ, ◌+◌, ◌-◌, ◌*◌, min, String, Bool, true, false, ◌&&◌, Option, none, some, List, [], ltb, length,
  if◌then◌else◌,
}
use Buckets.{Bucket, BucketMap, find, set, drop_idle}

pub record LoginLimiter : Type 0 where
  pub last_sweep : ℕ
  pub buckets : BucketMap
  pub per_minute : ℕ

-- time.Minute, in nanoseconds
abbrev pub minute : ℕ
minute = 60_000_000_000

-- the refills that make one token
abbrev pub token_unit : ℕ
token_unit = 60_000_000_000

unfoldable pub new_limiter : ℕ → ℕ → LoginLimiter
new_limiter per_minute now = record { last_sweep = now; buckets = []; per_minute = per_minute }

unfoldable pub sweep : ℕ → LoginLimiter → LoginLimiter
sweep now l =
    if ltb (length l.buckets) 1024 && ltb (now - l.last_sweep) minute
    then l
    else record l { last_sweep = now; buckets = drop_idle now (2 * minute) l.buckets }

abbrev pub full : ℕ → ℕ
full per_minute = per_minute * token_unit

-- The bucket of the key, a full one where there is none.
abbrev pub bucket_of : ℕ → ℕ → Option Bucket → Bucket
bucket_of per_minute now none = record { last = now; tokens = full per_minute }
bucket_of per_minute now (some b) = b

abbrev pub refill : ℕ → ℕ → Bucket → ℕ
refill per_minute now b = min (full per_minute) (b.tokens + (now - b.last) * per_minute)

unfoldable pub take_token : ℕ → String → ℕ → LoginLimiter → Bool × LoginLimiter
take_token now key tokens l =
    if ltb tokens token_unit
    then (false, record l { buckets = set key (record { last = now; tokens = tokens }) l.buckets })
    else (
      true,
      record l {
        buckets = set key (record { last = now; tokens = tokens - token_unit }) l.buckets;
      },
    )

unfoldable pub allow : ℕ → String → LoginLimiter → Bool × LoginLimiter
unfolding sweep take_token
allow now key l =
    if ltb 0 l.per_minute
    then (let l' = sweep now l in
        let b = bucket_of l'.per_minute now (find key l'.buckets) in
        take_token now key (refill l'.per_minute now b) l')
    else (true, l)
