-- ===== src/Store/Denial.antt =====
-- How long a denial of internal/idp/store.go lasts, and what sweeping expired entries can show.
use minidp.Base.{
  ℕ, ◌≤◌, ◌<◌, String, ◌≢◌, ◌≡◌, ◌⊎◌, true, Option, none, some, List, [], ◌∷◌, All, arith, eq_iff,
}
use minidp.Store.{
  Store, JtiRecord, add_code, take_code, add_refresh, take_refresh, deny_jti, is_denied_jti,
  revoke_family, revoke_token, register_jti,
}
use minidp.Store.History.{
  Op, adds_code, takes_code, adds_refresh, takes_refresh, registers_jti, denies_jti, revokes_family,
  revokes_token, apply, run,
}

-- The call reads a clock that has not passed `T`, and gives `jti` no expiry up to `T`.
abbrev pub IsBy : ℕ → String → Op → Type 0
IsBy T jti (adds_code now later draw c ttl) = now ≤ T
IsBy T jti (takes_code now later id) = now ≤ T
IsBy T jti (adds_refresh now later draw f ttl) = now ≤ T
IsBy T jti (takes_refresh now later id) = now ≤ T
IsBy T jti (registers_jti j sub family exp) = (j ≢ jti) ⊎ (T < exp)
IsBy T jti (denies_jti j until) = (j ≢ jti) ⊎ (T < until)
IsBy T jti (revokes_family now family) = Unit {0}
IsBy T jti (revokes_token now id) = Unit {0}

abbrev pub Outlives : ℕ → Option JtiRecord → Type 0
Outlives T none = Unit {0}
Outlives T (some r) = T < r.exp

-- The access token is denied at `T`, and its registration, if there is one, outlives `T`.
pub record IsDeniedAt (T : ℕ) (jti : String) (s : Store) : Type 0 where
  pub denied : is_denied_jti T jti s ≡ true
  pub unexpired : Outlives T (s.access_jti jti)

pub apply-IsDeniedAt :
    (T : ℕ) (jti : String) (o : Op) (s : Store)
    → IsBy T jti o
    → IsDeniedAt T jti s
    → IsDeniedAt T jti (apply o s)
unfolding apply add_code take_code add_refresh take_refresh register_jti deny_jti revoke_family
    revoke_token is_denied_jti
apply-IsDeniedAt T jti (adds_code now later none c ttl) s b h = record {
  denied = ground (arith);
  unexpired = ground (arith);
}
apply-IsDeniedAt T jti (adds_code now later (some id) c ttl) s b h = record {
  denied = ground (arith);
  unexpired = ground (arith);
}
apply-IsDeniedAt T jti (takes_code now later id) s b h = record {
  denied = ground (arith);
  unexpired = ground (arith);
}
apply-IsDeniedAt T jti (adds_refresh now later none f ttl) s b h = record {
  denied = ground (arith);
  unexpired = ground (arith);
}
apply-IsDeniedAt T jti (adds_refresh now later (some id) f ttl) s b h = record {
  denied = ground (arith);
  unexpired = ground (arith);
}
apply-IsDeniedAt T jti (takes_refresh now later id) s b h = record {
  denied = ground (arith);
  unexpired = ground (arith);
}
apply-IsDeniedAt T jti (registers_jti j sub family exp) s b h = record {
  denied = ground (arith, eq_iff j jti);
  unexpired = ground (arith, eq_iff j jti);
}
apply-IsDeniedAt T jti (denies_jti j until) s b h = record {
  denied = ground (arith, eq_iff j jti);
  unexpired = ground (arith, eq_iff j jti);
}
apply-IsDeniedAt T jti (revokes_family now family) s b h = record {
  denied = ground (arith);
  unexpired = ground (arith);
}
apply-IsDeniedAt T jti (revokes_token now id) s b h = record {
  denied = ground (arith);
  unexpired = ground (arith);
}

run-IsDeniedAt :
    (T : ℕ) (jti : String) (os : List Op) (s : Store)
    → All (IsBy T jti) os
    → IsDeniedAt T jti s
    → IsDeniedAt T jti (run os s)
unfolding run
run-IsDeniedAt T jti [] s b h = h
run-IsDeniedAt T jti (o ∷ os) s b h =
    run-IsDeniedAt T jti os (apply o s) b.1 (apply-IsDeniedAt T jti o s b.0 h)

-- A denial outlasts everything that happens before it runs out: an access token that is registered
-- until after the instant `T`, and is denied when its family is revoked, is denied at `T` after any further
-- calls that read the clock up to `T` and neither register nor deny it anew with an earlier end.
pub revocation_lasts :
    (T now : ℕ) (jti family : String) (r : JtiRecord) (os : List Op) (s : Store)
    → s.access_jti jti ≡ some r
    → r.family ≡ family
    → family ≢ ""
    → now ≤ T
    → T < r.exp
    → All (IsBy T jti) os
    → is_denied_jti T jti (run os (revoke_family now family s)) ≡ true
revocation_lasts T now jti family r os s e f n h k b = (run-IsDeniedAt T jti os _ b start).denied
  where
    start : IsDeniedAt T jti (revoke_family now family s)
    start =
        unfold revoke_family is_denied_jti in
        record {
          denied = ground (arith, eq_iff family "", eq_iff r.family family);
          unexpired = ground (arith, eq_iff family "", eq_iff r.family family);
        }
