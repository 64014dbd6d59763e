-- ===== src/Examples/Limits.antt =====
-- Runs of the login limiter of internal/idp/ratelimit.go.
use minidp.Base.{ℕ, ◌+◌, ◌-◌, ◌*◌, ◌≤◌, ◌≡◌, refl, String, List, [], ◌∷◌, arith}
use minidp.Limiter.Buckets.{find, set}
use minidp.Limiter.Level.{IsValid}
use minidp.Limiter.{LoginLimiter, token_unit, allow, sweep}
use minidp.Limiter.Bound.{admitted, last_time, rate_limited, allow-sweep}

abbrev two_a_minute : LoginLimiter
two_a_minute = record { last_sweep = 1000; buckets = []; per_minute = 2 }

abbrev three_attempts : List (ℕ × String)
three_attempts = (1000, "a") ∷ (1001, "a") ∷ (1002, "a") ∷ []

rate_limited_example :
    admitted "a" three_attempts two_a_minute * token_unit
    ≤ 2 * token_unit + (last_time 1000 three_attempts - 1000) * 2
rate_limited_example =
    rate_limited "a" 1000 three_attempts two_a_minute tt (omega arith)
      (omega arith, (omega arith, (omega arith, tt)))

two_admitted : admitted "a" three_attempts two_a_minute ≡ 2
unfolding admitted allow find set
two_admitted = refl

abbrev used_limiter : LoginLimiter
used_limiter = record {
  last_sweep = 1000;
  buckets = ("a", record { last = 1000; tokens = 5 }) ∷ [];
  per_minute = 2;
}

used_limiter-IsValid : IsValid 1000 used_limiter
unfolding find
used_limiter-IsValid = (refl, omega arith, tt)

allow-sweep_example : (allow 3000 "a" (sweep 2000 used_limiter)).0 ≡ (allow 3000 "a" used_limiter).0
allow-sweep_example =
    allow-sweep 1000 2000 3000 "a" used_limiter used_limiter-IsValid (omega arith) (omega arith)
      (omega arith)
