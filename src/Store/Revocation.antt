-- ===== src/Store/Revocation.antt =====
-- Revoking a token family in internal/idp/store.go: on request, on logout, and on the reuse of a
-- refresh token.
use minidp.Base.{
  ℕ, ◌≤◌, ◌<◌, String, ◌≢◌, ◌≡◌, ◌⊎◌, inl, inr, none, some, arith, ltb, eq_iff, eq_refl,
}
use minidp.Durations.{shift, shift_mono}
use minidp.Store.{
  Store, fresh, reused, RefreshEntry, JtiRecord, add_refresh, take_refresh, is_denied_jti,
  revoke_token,
}

-- Nothing of `family` can be redeemed, and its access tokens that live at `now` are denied.
pub record IsRevoked (now : ℕ) (family : String) (before after : Store) : Type 0 where
  pub no_refresh : (id : String) (f : RefreshEntry) → after.refresh id ≡ some f → f.family ≢ family
  pub no_used :
      (id : String) (f : RefreshEntry) → after.used_refresh id ≡ some f → f.family ≢ family
  pub denied :
      (jti : String) (r : JtiRecord) (t : ℕ)
      → before.access_jti jti ≡ some r
      → r.family ≡ family
      → now < r.exp
      → is_denied_jti t jti after ≡ ltb t r.exp

-- What revoking `family` leaves alone.
pub record KeepsOthers (family : String) (before after : Store) : Type 0 where
  pub codes : (id : String) → after.codes id ≡ before.codes id
  pub refresh :
      (id : String) (f : RefreshEntry)
      → f.family ≢ family
      → before.refresh id ≡ some f
      → after.refresh id ≡ some f
  pub used :
      (id : String) (f : RefreshEntry)
      → f.family ≢ family
      → before.used_refresh id ≡ some f
      → after.used_refresh id ≡ some f
  pub denied :
      (jti : String) (r : JtiRecord) (t : ℕ)
      → before.access_jti jti ≡ some r
      → r.family ≢ family
      → is_denied_jti t jti after ≡ is_denied_jti t jti before

-- When a consumed refresh token that has not been forgotten is presented again, the call says so,
-- and the family of the token is revoked.
pub take_refresh_reused :
    (now later : ℕ) (id : String) (s : Store) (f : RefreshEntry)
    → s.used_refresh id ≡ some f
    → now ≤ f.expires_at
    → now ≤ later
    → f.family ≢ ""
    → ((take_refresh now later id s).0 ≡ reused)
      × IsRevoked later f.family s (take_refresh now later id s).1
unfolding take_refresh is_denied_jti
take_refresh_reused now later id s f e h le n = (
  ground arith,
  record {
    no_refresh = λ j g x. ground (arith, eq_iff f.family "", eq_iff g.family f.family);
    no_used = λ j g x. ground (arith, eq_iff f.family "", eq_iff g.family f.family, eq_iff id j);
    denied = λ jti r t x p q. ground (arith, eq_iff f.family "", eq_iff r.family f.family);
  },
)

module _ (now : ℕ) (id : String) (s : Store) (f : RefreshEntry) (n : f.family ≢ "") where
  revoke_live : s.refresh id ≡ some f → IsRevoked now f.family s (revoke_token now id s)
  unfolding revoke_token is_denied_jti
  revoke_live e = record {
    no_refresh = λ j g x. ground (arith, eq_iff f.family "", eq_iff g.family f.family, eq_iff id j);
    no_used = λ j g x. ground (arith, eq_iff f.family "", eq_iff g.family f.family);
    denied = λ jti r t x p q. ground (arith, eq_iff f.family "", eq_iff r.family f.family);
  }

  revoke_used :
      s.refresh id ≡ none
      → s.used_refresh id ≡ some f
      → IsRevoked now f.family s (revoke_token now id s)
  unfolding revoke_token is_denied_jti
  revoke_used d e = record {
    no_refresh = λ j g x. ground (arith, eq_iff f.family "", eq_iff g.family f.family);
    no_used = λ j g x. ground (arith, eq_iff f.family "", eq_iff g.family f.family);
    denied = λ jti r t x p q. ground (arith, eq_iff f.family "", eq_iff r.family f.family);
  }

-- Revoking a refresh token, live or consumed, revokes its whole family.
pub revoke_token_lem :
    (now : ℕ) (id : String) (s : Store) (f : RefreshEntry)
    → f.family ≢ ""
    → (s.refresh id ≡ some f) ⊎ ((s.refresh id ≡ none) × (s.used_refresh id ≡ some f))
    → IsRevoked now f.family s (revoke_token now id s)
revoke_token_lem now id s f n (inl e) = revoke_live now id s f n e
revoke_token_lem now id s f n (inr (d, e)) = revoke_used now id s f n d e

-- A rotation that is in flight survives the revocation of its family. One request consumes the
-- refresh token `id`; another presents `id` again, and the family is revoked; then the first
-- request stores the token it rotates to. That token is redeemable, in the revoked family.
pub revocation_misses_rotation :
    (t u v w x y z : ℕ) (id id' : String) (s : Store) (f : RefreshEntry) (ttl : ℕ)
    → (take_refresh t u id s).0 ≡ fresh f
    → t ≤ u
    → u ≤ v
    → v ≤ w
    → w ≤ x
    → x ≤ y
    → y ≤ z
    → z ≤ shift x ttl
    → v ≤ f.expires_at
    → id ≢ id'
    → s.used_refresh id' ≡ none
    → let s₁ = (take_refresh t u id s).1 in
      let s₂ = (take_refresh v w id s₁).1 in
      let s₃ = (add_refresh x y (some id') f ttl s₂).1 in
      ((take_refresh v w id s₁).0 ≡ reused)
      × ((take_refresh z z id' s₃).0 ≡ fresh (record f { expires_at = shift y ttl }))
unfolding take_refresh add_refresh
revocation_misses_rotation t u v w x y z id id' s f ttl e a b c d g k m l ne q = ground (
  arith,
  eq_refl id,
  eq_refl id',
  eq_iff id id',
  eq_iff f.family "",
  eq_refl f.family,
  shift_mono x y ttl g,
)
