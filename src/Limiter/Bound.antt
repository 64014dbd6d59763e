-- ===== src/Limiter/Bound.antt =====
-- The limit that internal/idp/ratelimit.go keeps over any sequence of attempts.
use minidp.Base.{
  ℕ, ◌+◌, ◌-◌, ◌*◌, ◌≤◌, ◌<◌, ◌≡◌, ◌≢◌, ap, String, ◌==◌, eq_iff, Bool, true, false, ◌&&◌, leb,
  arith, if◌then◌else◌, List, [], ◌∷◌, Bool-cases, inl, inr,
}
use minidp.Limiter.{LoginLimiter, token_unit, sweep, allow, take_token}
use minidp.Limiter.Level.{
  level, level-le-full, split_span, IsValid, level-sweep, sweep-IsValid, per_minute-sweep,
}
use minidp.Limiter.Rate.{
  allow_lem, charge_self, charge_other, take_token-IsValid, per_minute-take_token, level_grows,
}

-- The attempts of `key` that are let through, among attempts of any keys.
unfoldable pub admitted : String → List (ℕ × String) → LoginLimiter → ℕ
admitted key [] l = 0
admitted key ((now, j) ∷ es) l =
    (if j == key && (allow now j l).0 then 1 else 0) + admitted key es (allow now j l).1

-- The times of the attempts do not fall, from `t` on.
abbrev pub IsAscending : ℕ → List (ℕ × String) → Type 0
IsAscending t [] = Unit {0}
IsAscending t ((now, j) ∷ es) = (t ≤ now) × IsAscending now es

-- The time of the last attempt, `t` if there is none.
abbrev pub last_time : ℕ → List (ℕ × String) → ℕ
last_time t [] = t
last_time t ((now, j) ∷ es) = last_time now es

last_time-ge : (t : ℕ) (es : List (ℕ × String)) → IsAscending t es → t ≤ last_time t es
last_time-ge t [] h = omega arith
last_time-ge t ((now, j) ∷ es) h = omega (arith, last_time-ge now es h.1)

no_span : (n p : ℕ) → (n - n) * p ≡ 0
no_span n p = let e : n - n ≡ 0 = omega arith in rw e (omega arith)

module _ (t now : ℕ) (l : LoginLimiter) (v : IsValid t l) (pos : 0 < l.per_minute)
    (le : t ≤ now) where
  -- An attempt is let through exactly if its key has a whole token.
  pub allow_decides : (key : String) → (allow now key l).0 ≡ leb token_unit (level key now l)
  allow_decides key = rw (allow_lem t now key l v pos) (unfold take_token in ground arith)

  allow-IsValid : (j : String) → IsValid now (allow now j l).1
  allow-IsValid j =
      rw (allow_lem t now j l v pos)
        (take_token-IsValid t now (level j now l) j (sweep now l) le (sweep-IsValid t now l v))

  per_minute-allow : (j : String) → (allow now j l).1.per_minute ≡ l.per_minute
  per_minute-allow j = rw (allow_lem t now j l v pos, per_minute-take_token, per_minute-sweep)

  allow_other :
      (u : ℕ) (j key : String) → now ≤ u → j ≢ key → level key u (allow now j l).1 ≡ level key u l
  allow_other u j key k ne =
      rw (allow_lem t now j l v pos, charge_other now u (level j now l) j key (sweep now l) ne)
        (level-sweep t now u key l v k)

  allow_self :
      (u : ℕ) (key : String)
      → now ≤ u
      → level key u (allow now key l).1 + (if (allow now key l).0 then token_unit else 0)
        ≤ level key now l + (u - now) * l.per_minute
  allow_self u key k = rw (allow_lem t now key l v pos) (
      omega (
        arith,
        charge_self now u (level key now l) key (sweep now l) k,
        ap (λ q. (u - now) * q) (per_minute-sweep now l),
      ))

  -- What an attempt of any key costs the level of `key`.
  allow-pays :
      (j key : String)
      → level key now (allow now j l).1 + (if j == key && (allow now j l).0 then token_unit else 0)
        ≤ level key now l
  allow-pays j key = elim (Bool-cases (j == key)) [
    | inl e ↦ rw e (
        rw ((eq_iff j key).0 e)
          (ground (arith, allow_self now key (omega arith), no_span now l.per_minute)))
    | inr e ↦
        rw e
          (ground (arith, allow_other now j key (omega arith) (λ p. ground (arith, eq_iff j key))))
  ]

one_more :
    (b : Bool) (n : ℕ)
    → ((if b then 1 else 0) + n) * token_unit ≡ (if b then token_unit else 0) + n * token_unit
one_more true n = omega arith
one_more false n = omega arith

-- Over any attempts of any keys, the attempts of one key that are let through cost a token each, and
-- those tokens come from what its bucket holds and from the refill since.
pub admitted_bound :
    (key : String) (t : ℕ) (es : List (ℕ × String)) (l : LoginLimiter)
    → IsValid t l
    → 0 < l.per_minute
    → IsAscending t es
    → admitted key es l * token_unit ≤ level key t l + (last_time t es - t) * l.per_minute
unfolding admitted
admitted_bound key t [] l v pos a = omega arith
admitted_bound key t ((now, j) ∷ es) l v pos a =
    let p = per_minute-allow t now l v pos a.0 j in
    let l' = (allow now j l).1 in
    let ih =
      rw p at (admitted_bound key now es l' (allow-IsValid t now l v pos a.0 j) (rw p pos) a.1) in
    omega (
      arith,
      ih,
      one_more (j == key && (allow now j l).0) (admitted key es l'),
      allow-pays t now l v pos a.0 j key,
      level_grows t now key l v a.0,
      split_span l.per_minute t now (last_time now es) a.0 (last_time-ge now es a.1),
    )

-- So in any span of time at most `per_minute` attempts of a key are let through, and `per_minute` more for
-- each minute that the span lasts.
pub rate_limited :
    (key : String) (t : ℕ) (es : List (ℕ × String)) (l : LoginLimiter)
    → IsValid t l
    → 0 < l.per_minute
    → IsAscending t es
    → admitted key es l * token_unit
      ≤ l.per_minute * token_unit + (last_time t es - t) * l.per_minute
rate_limited key t es l v pos a =
    omega (arith, admitted_bound key t es l v pos a, level-le-full key t l)

-- A sweep is never visible: it changes the outcome of no later attempt.
pub allow-sweep :
    (t now u : ℕ) (key : String) (l : LoginLimiter)
    → IsValid t l
    → 0 < l.per_minute
    → t ≤ now
    → now ≤ u
    → (allow u key (sweep now l)).0 ≡ (allow u key l).0
allow-sweep t now u key l v pos h k = rw (
  allow_decides t u (sweep now l) (sweep-IsValid t now l v) (rw per_minute-sweep pos) (omega arith)
      key,
  allow_decides t u l v pos (omega arith) key,
  level-sweep t now u key l v k,
)
