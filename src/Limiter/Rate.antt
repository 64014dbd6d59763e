-- ===== src/Limiter/Rate.antt =====
-- How many attempts internal/idp/ratelimit.go lets through.
use minidp.Base.{
  ℕ, ◌+◌, ◌-◌, ◌*◌, ◌≤◌, ◌<◌, ◌≡◌, ◌≢◌, String, eq_iff, eq_refl, arith, if◌then◌else◌, sym,
  Option-cases, inl, inr,
}
use minidp.Limiter.Buckets.{Bucket, find, find-set, set-IsProper, find-last, IsProper-mono}
use minidp.Limiter.{LoginLimiter, token_unit, refill, sweep, allow, take_token}
use minidp.Limiter.Level.{level, split_span, IsValid, level-sweep}

-- With a limit, a call sweeps, and then takes a token from the level that its key has.
pub allow_lem :
    (t now : ℕ) (key : String) (l : LoginLimiter)
    → IsValid t l
    → 0 < l.per_minute
    → allow now key l ≡ take_token now key (level key now l) (sweep now l)
allow_lem t now key l v pos =
    rw (sym (level-sweep t now now key l v (omega arith))) (unfold allow level in ground (arith))

pub charge_self :
    (now u n : ℕ) (key : String) (l : LoginLimiter)
    → now ≤ u
    → level key u (take_token now key n l).1
        + (if (take_token now key n l).0 then token_unit else 0)
      ≤ n + (u - now) * l.per_minute
unfolding take_token level
charge_self now u n key l h = ground (
  arith,
  eq_refl key,
  find-set key key (record { last = now; tokens = n }) l.buckets,
  find-set key key (record { last = now; tokens = n - token_unit }) l.buckets,
)

pub charge_other :
    (now u n : ℕ) (key j : String) (l : LoginLimiter)
    → key ≢ j
    → level j u (take_token now key n l).1 ≡ level j u l
unfolding take_token level
charge_other now u n key j l h = ground (
  arith,
  eq_iff key j,
  find-set key j (record { last = now; tokens = n }) l.buckets,
  find-set key j (record { last = now; tokens = n - token_unit }) l.buckets,
)

pub take_token-IsValid :
    (t now n : ℕ) (key : String) (l : LoginLimiter)
    → t ≤ now
    → IsValid t l
    → IsValid now (take_token now key n l).1
unfolding take_token
take_token-IsValid t now n key l h v =
    let w : IsValid now l = IsProper-mono t now l.buckets h v in
    ground (
      arith,
      set-IsProper now key (record { last = now; tokens = n }) l.buckets (omega arith) w,
      set-IsProper now key (record { last = now; tokens = n - token_unit }) l.buckets (omega arith)
          w,
    )

pub per_minute-take_token :
    (now n : ℕ) (key : String) (l : LoginLimiter)
    → (take_token now key n l).1.per_minute ≡ l.per_minute
unfolding take_token
per_minute-take_token now n key l = ground arith

refill_grows :
    (p t u : ℕ) (b : Bucket) → b.last ≤ t → t ≤ u → refill p u b ≤ refill p t b + (u - t) * p
refill_grows p t u b h k = omega (arith, split_span p b.last t u h k)

pub level_grows :
    (t u : ℕ) (key : String) (l : LoginLimiter)
    → IsValid t l
    → t ≤ u
    → level key u l ≤ level key t l + (u - t) * l.per_minute
unfolding level
level_grows t u key l v h = elim (Option-cases (find key l.buckets)) [
  | inl e ↦ rw e (ground arith)
  | inr (b, e) ↦ rw e (refill_grows l.per_minute t u b (find-last t key l.buckets b v e) h)
]
