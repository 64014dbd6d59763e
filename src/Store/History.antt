-- ===== src/Store/History.antt =====
-- Histories of internal/idp/store.go: any sequence of its operations, each under the lock.
use minidp.Base.{ℕ, String, ◌≢◌, Option, some, List, [], ◌∷◌}
use minidp.Store.{
  Store, AuthCode, RefreshEntry, add_code, take_code, add_refresh, take_refresh, register_jti,
  deny_jti, revoke_family, revoke_token,
}

-- One call of the store, with what the clock and the source of randomness gave it.
pub data Op : Type 0 where
  adds_code : (now later : ℕ) → Option String → AuthCode → ℕ → Op
  takes_code : (now later : ℕ) → String → Op
  adds_refresh : (now later : ℕ) → Option String → RefreshEntry → ℕ → Op
  takes_refresh : (now later : ℕ) → String → Op
  registers_jti : String → String → String → ℕ → Op
  denies_jti : String → ℕ → Op
  revokes_family : ℕ → String → Op
  revokes_token : ℕ → String → Op

unfoldable pub apply : Op → Store → Store
apply (adds_code now later draw c ttl) s = (add_code now later draw c ttl s).1
apply (takes_code now later id) s = (take_code now later id s).1
apply (adds_refresh now later draw f ttl) s = (add_refresh now later draw f ttl s).1
apply (takes_refresh now later id) s = (take_refresh now later id s).1
apply (registers_jti jti sub family exp) s = register_jti jti sub family exp s
apply (denies_jti jti until) s = deny_jti jti until s
apply (revokes_family now family) s = revoke_family now family s
apply (revokes_token now id) s = revoke_token now id s

unfoldable pub run : List Op → Store → Store
run [] s = s
run (o ∷ os) s = run os (apply o s)

-- The call does not draw `id` for a code or a refresh token.
abbrev pub NotMints : String → Op → Type 0
NotMints id (adds_code now later draw c ttl) = draw ≢ some id
NotMints id (adds_refresh now later draw f ttl) = draw ≢ some id
NotMints id _ = Unit {0}
