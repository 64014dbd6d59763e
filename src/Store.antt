-- ===== src/Store.antt =====
-- internal/idp/store.go: the in-memory registry of codes, refresh tokens and access-token ids.
pub mod History
pub mod SingleUse
pub mod Revocation
pub mod Codes
pub mod Denial
use minidp.Durations.{shift}
use minidp.Base.{
  ℕ, ◌+◌, String, ◌==◌, Bool, ◌&&◌, Option, none, some, List, Map, empty, put, delete, drop_where,
  ltb, if◌then◌else◌,
}

-- Instants count nanoseconds from the zero `time.Time`, which is 0.
pub record AuthCode : Type 0 where
  pub expires_at : ℕ
  pub sub : String
  pub client_id : String
  pub redirect_uri : String
  pub code_challenge : String
  pub code_challenge_method : String
  pub nonce : String
  pub scopes : List String

pub record RefreshEntry : Type 0 where
  pub expires_at : ℕ
  pub sub : String
  pub client_id : String
  pub nonce : String
  pub family : String
  pub scopes : List String

pub record JtiRecord : Type 0 where
  pub exp : ℕ
  pub sub : String
  pub family : String

pub record Store : Type 0 where
  pub codes : Map AuthCode
  pub refresh : Map RefreshEntry
  pub used_refresh : Map RefreshEntry
  pub access_jti : Map JtiRecord
  pub denied_jti : Map ℕ

abbrev pub new_store : Store
new_store = record {
  codes = empty;
  refresh = empty;
  used_refresh = empty;
  access_jti = empty;
  denied_jti = empty;
}

-- `now` is what the clock reads.
unfoldable pub drop_expired : ℕ → Store → Store
drop_expired now s = record {
  codes = drop_where (λ c. ltb c.expires_at now) s.codes;
  refresh = drop_where (λ f. ltb f.expires_at now) s.refresh;
  used_refresh = drop_where (λ f. ltb f.expires_at now) s.used_refresh;
  access_jti = drop_where (λ r. ltb r.exp now) s.access_jti;
  denied_jti = drop_where (λ until. ltb until now) s.denied_jti;
}

-- An operation that reads the clock twice takes both readings, `now` and `later`. What `randomToken`
-- returns is an argument, `none` where the source of randomness fails.
unfoldable pub add_code : ℕ → ℕ → Option String → AuthCode → ℕ → Store → Option String × Store
unfolding drop_expired
add_code now later none c ttl s = (none, drop_expired now s)
add_code now later (some id) c ttl s =
    let s' = drop_expired now s in
    (some id, record s' { codes = put id (record c { expires_at = later + ttl }) s'.codes })

redeem_code : ℕ → String → Option AuthCode → Store → Option AuthCode × Store
redeem_code later id none s = (none, s)
redeem_code later id (some c) s =
    (if ltb c.expires_at later then none else some c, record s { codes = delete id s.codes })

unfoldable pub take_code : ℕ → ℕ → String → Store → Option AuthCode × Store
unfolding drop_expired redeem_code
take_code now later id s = let s' = drop_expired now s in redeem_code later id (s'.codes id) s'

unfoldable pub add_refresh :
    ℕ → ℕ → Option String → RefreshEntry → ℕ → Store → Option String × Store
unfolding drop_expired
add_refresh now later none f ttl s = (none, drop_expired now s)
add_refresh now later (some id) f ttl s =
    let s' = drop_expired now s in
    (some id, record s' { refresh = put id (record f { expires_at = shift later ttl }) s'.refresh })

-- Whether a record is one that revoking `family` denies.
abbrev pub is_live_of : ℕ → String → JtiRecord → Bool
is_live_of now family r = r.family == family && ltb now r.exp

abbrev deny_live : ℕ → String → Option JtiRecord → Option ℕ → Option ℕ
deny_live now family none old = old
deny_live now family (some r) old = if is_live_of now family r then some r.exp else old

-- revokeFamilyLocked, and revokeFamilyTokens, which takes the lock around it
unfoldable pub revoke_family : ℕ → String → Store → Store
revoke_family now family s = if family == "" then s else record s {
  refresh = drop_where (λ f. f.family == family) s.refresh;
  used_refresh = drop_where (λ f. f.family == family) s.used_refresh;
  access_jti = drop_where (is_live_of now family) s.access_jti;
  denied_jti = λ j. deny_live now family (s.access_jti j) (s.denied_jti j);
}

-- What takeRefresh returns: an entry, or whether a consumed token was presented again.
pub data Taken : Type 0 where
  fresh : RefreshEntry → Taken
  reused : Taken
  unknown : Taken

consume_refresh : ℕ → String → Option RefreshEntry → Store → Taken × Store
consume_refresh later id none s = (unknown, s)
consume_refresh later id (some f) s =
    let s' = record s { refresh = delete id s.refresh } in
    if ltb f.expires_at later
    then (unknown, s')
    else (fresh f, record s' { used_refresh = put id f s'.used_refresh })

replay_refresh : ℕ → String → RefreshEntry → Store → Taken × Store
unfolding revoke_family
replay_refresh later id f s =
    let s' = revoke_family later f.family s in
    (reused, record s' { used_refresh = delete id s'.used_refresh })

redeem_refresh : ℕ → String → Option RefreshEntry → Store → Taken × Store
unfolding consume_refresh replay_refresh
redeem_refresh later id (some f) s = replay_refresh later id f s
redeem_refresh later id none s = consume_refresh later id (s.refresh id) s

unfoldable pub take_refresh : ℕ → ℕ → String → Store → Taken × Store
unfolding drop_expired redeem_refresh
take_refresh now later id s =
    let s' = drop_expired now s in redeem_refresh later id (s'.used_refresh id) s'

unfoldable pub register_jti : String → String → String → ℕ → Store → Store
register_jti jti sub family exp s = record s {
  access_jti = put jti (record { exp = exp; sub = sub; family = family }) s.access_jti;
}

unfoldable pub deny_jti : String → ℕ → Store → Store
deny_jti jti until s = record s { denied_jti = put jti until s.denied_jti }

-- A missing key reads as the zero time, before which no instant lies.
abbrev denied_until : Option ℕ → ℕ
denied_until none = 0
denied_until (some t) = t

unfoldable pub is_denied_jti : ℕ → String → Store → Bool
is_denied_jti now jti s = ltb now (denied_until (s.denied_jti jti))

-- revokeToken: a live refresh token, then a consumed one.
revoke_used : ℕ → Option RefreshEntry → Store → Store
unfolding revoke_family
revoke_used now none s = s
revoke_used now (some f) s = revoke_family now f.family s

revoke_refresh : ℕ → String → Option RefreshEntry → Store → Store
unfolding revoke_family revoke_used
revoke_refresh now id (some f) s =
    revoke_family now f.family (record s { refresh = delete id s.refresh })
revoke_refresh now id none s = revoke_used now (s.used_refresh id) s

unfoldable pub revoke_token : ℕ → String → Store → Store
unfolding revoke_refresh
revoke_token now id s =
    let s' = record s { codes = delete id s.codes } in revoke_refresh now id (s'.refresh id) s'
