-- ===== src/Limiter/Level.antt =====
-- The level of a key's bucket in internal/idp/ratelimit.go: what it would hold after a refill.
use minidp.Limiter.Buckets
use native.Mathlib.Nat.{add-mul}
use minidp.Base.{ℕ, ◌+◌, ◌-◌, ◌*◌, ◌≤◌, ◌<◌, ◌≡◌, refl, String, Option, none, some, arith}
use minidp.Limiter.Buckets.{
  Bucket, find, set, drop_idle, IsProper, find-set, find-drop_idle, drop_idle-IsProper,
  set-IsProper, IsProper-mono, find-last,
}
use minidp.Limiter.{LoginLimiter, minute, full, refill, bucket_of, sweep}

unfoldable pub level : String → ℕ → LoginLimiter → ℕ
level key now l = refill l.per_minute now (bucket_of l.per_minute now (find key l.buckets))

pub split_span : (p a b c : ℕ) → a ≤ b → b ≤ c → (c - a) * p ≡ (b - a) * p + (c - b) * p
split_span p a b c h k =
    let e : c - a ≡ (b - a) + (c - b) = omega arith in rw e (add-mul (b - a) (c - b) p)

-- A bucket that is idle for more than two minutes has been full again for a while.
pub refill_idle : (p now : ℕ) (b : Bucket) → 2 * minute < now - b.last → refill p now b ≡ full p
refill_idle p now b h = grind arith

level-sweep_case :
    (p now u : ℕ) (o : Option Bucket)
    → now ≤ u
    → refill p u (bucket_of p u (Buckets.unless_idle now (2 * minute) o))
      ≡ refill p u (bucket_of p u o)
level-sweep_case p now u none h = refl
level-sweep_case p now u (some b) h = ground (arith, refill_idle p u b)

-- What every limiter satisfies: its buckets are proper, and were not touched after `t`.
abbrev pub IsValid : ℕ → LoginLimiter → Type 0
IsValid t l = IsProper t l.buckets

pub level-sweep :
    (t now u : ℕ) (key : String) (l : LoginLimiter)
    → IsValid t l
    → now ≤ u
    → level key u (sweep now l) ≡ level key u l
unfolding level sweep
level-sweep t now u key l v h = ground (
  arith,
  find-drop_idle t now (2 * minute) key l.buckets v,
  level-sweep_case l.per_minute now u (find key l.buckets) h,
)

pub sweep-IsValid : (t now : ℕ) (l : LoginLimiter) → IsValid t l → IsValid t (sweep now l)
unfolding sweep
sweep-IsValid t now l v = ground (arith, drop_idle-IsProper t now (2 * minute) l.buckets v)

pub per_minute-sweep : (now : ℕ) (l : LoginLimiter) → (sweep now l).per_minute ≡ l.per_minute
unfolding sweep
per_minute-sweep now l = ground arith

pub level-le-full : (key : String) (t : ℕ) (l : LoginLimiter) → level key t l ≤ full l.per_minute
unfolding level
level-le-full key t l = omega arith
