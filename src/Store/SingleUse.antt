-- ===== src/Store/SingleUse.antt =====
-- Authorization codes and refresh tokens of internal/idp/store.go are good for one redemption.
use minidp.Base.{
  ℕ, ◌≤◌, String, ◌≢◌, ◌≡◌, none, some, List, [], ◌∷◌, All, arith, ltb, eq_iff, eq_refl, drop_where,
}
use minidp.Store.{
  Store, fresh, RefreshEntry, add_code, take_code, add_refresh, take_refresh, deny_jti,
  revoke_family, revoke_token, register_jti,
}
use minidp.Store.History.{
  Op, adds_code, takes_code, adds_refresh, takes_refresh, registers_jti, denies_jti, revokes_family,
  revokes_token, apply, run, NotMints,
}

-- With a clock that does not run backwards, `take_code` returns the stored code exactly while it has
-- not expired, and the code is gone afterwards.
pub take_code_lem :
    (now later : ℕ) (id : String) (s : Store)
    → now ≤ later
    → ((take_code now later id s).0 ≡ drop_where (λ c. ltb c.expires_at later) s.codes id)
      × ((take_code now later id s).1.codes id ≡ none)
unfolding take_code
take_code_lem now later id s h = ground (arith, eq_refl id)

-- What no call but an `add_code` that draws `id` can bring back.
apply-codes :
    (id : String) (o : Op) (s : Store)
    → NotMints id o
    → s.codes id ≡ none
    → (apply o s).codes id ≡ none
unfolding apply add_code take_code add_refresh take_refresh register_jti deny_jti revoke_family
    revoke_token
apply-codes id (adds_code now later none c ttl) s n h = ground arith
apply-codes id (adds_code now later (some j) c ttl) s n h = ground (arith, eq_iff j id)
apply-codes id (takes_code now later j) s n h = ground (arith, eq_iff j id)
apply-codes id (adds_refresh now later none f ttl) s n h = ground arith
apply-codes id (adds_refresh now later (some j) f ttl) s n h = ground arith
apply-codes id (takes_refresh now later j) s n h = ground arith
apply-codes id (registers_jti jti sub family exp) s n h = ground arith
apply-codes id (denies_jti jti until) s n h = ground arith
apply-codes id (revokes_family now family) s n h = ground arith
apply-codes id (revokes_token now j) s n h = ground (arith, eq_iff j id)

apply-refresh :
    (id : String) (o : Op) (s : Store)
    → NotMints id o
    → s.refresh id ≡ none
    → (apply o s).refresh id ≡ none
unfolding apply add_code take_code add_refresh take_refresh register_jti deny_jti revoke_family
    revoke_token
apply-refresh id (adds_code now later none c ttl) s n h = ground arith
apply-refresh id (adds_code now later (some j) c ttl) s n h = ground arith
apply-refresh id (takes_code now later j) s n h = ground arith
apply-refresh id (adds_refresh now later none f ttl) s n h = ground arith
apply-refresh id (adds_refresh now later (some j) f ttl) s n h = ground (arith, eq_iff j id)
apply-refresh id (takes_refresh now later j) s n h = ground (arith, eq_iff j id)
apply-refresh id (registers_jti jti sub family exp) s n h = ground arith
apply-refresh id (denies_jti jti until) s n h = ground arith
apply-refresh id (revokes_family now family) s n h = ground arith
apply-refresh id (revokes_token now j) s n h = ground (arith, eq_iff j id)

run-codes :
    (id : String) (os : List Op) (s : Store)
    → All (NotMints id) os
    → s.codes id ≡ none
    → (run os s).codes id ≡ none
unfolding run
run-codes id [] s n h = h
run-codes id (o ∷ os) s n h = run-codes id os (apply o s) n.1 (apply-codes id o s n.0 h)

run-refresh :
    (id : String) (os : List Op) (s : Store)
    → All (NotMints id) os
    → s.refresh id ≡ none
    → (run os s).refresh id ≡ none
unfolding run
run-refresh id [] s n h = h
run-refresh id (o ∷ os) s n h = run-refresh id os (apply o s) n.1 (apply-refresh id o s n.0 h)

take_code-removes :
    (now later : ℕ) (id : String) (s : Store) → (take_code now later id s).1.codes id ≡ none
unfolding take_code
take_code-removes now later id s = ground (arith, eq_refl id)

take_code-none :
    (now later : ℕ) (id : String) (s : Store)
    → s.codes id ≡ none
    → (take_code now later id s).0 ≡ none
unfolding take_code
take_code-none now later id s h = ground arith

-- Once a code has been presented, no later presentation of it succeeds, whatever calls come in
-- between, at any times, as long as none of them draws the same random id again.
take_code_once :
    (now later now' later' : ℕ) (id : String) (os : List Op) (s : Store)
    → All (NotMints id) os
    → (take_code now' later' id (run os (take_code now later id s).1)).0 ≡ none
take_code_once now later now' later' id os s n =
    take_code-none now' later' id _ (run-codes id os _ n (take_code-removes now later id s))

take_refresh-removes :
    (now later : ℕ) (id : String) (s : Store) (f : RefreshEntry)
    → (take_refresh now later id s).0 ≡ fresh f
    → (take_refresh now later id s).1.refresh id ≡ none
unfolding take_refresh
take_refresh-removes now later id s f e = ground (arith, eq_refl id)

take_refresh-none :
    (now later : ℕ) (id : String) (s : Store) (f : RefreshEntry)
    → s.refresh id ≡ none
    → (take_refresh now later id s).0 ≢ fresh f
unfolding take_refresh
take_refresh-none now later id s f h = ground arith

-- A refresh token that has been honoured is never honoured again, whatever calls come in between,
-- at any times, as long as none of them draws the same random id again.
pub take_refresh_once :
    (now later now' later' : ℕ) (id : String) (os : List Op) (s : Store) (f g : RefreshEntry)
    → (take_refresh now later id s).0 ≡ fresh f
    → All (NotMints id) os
    → (take_refresh now' later' id (run os (take_refresh now later id s).1)).0 ≢ fresh g
take_refresh_once now later now' later' id os s f g e n =
    take_refresh-none now' later' id _ g
      (run-refresh id os _ n (take_refresh-removes now later id s f e))
