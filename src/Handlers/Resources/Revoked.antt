-- ===== src/Handlers/Resources/Revoked.antt =====
-- What revoking an access token in internal/idp/handlers.go does to the store, and to later uses of the token.
use minidp.Base.{
  ℕ, suc, ◌*◌, String, ◌==◌, ◌≡◌, ◌≢◌, ◌∙◌, refl, Bool, true, false, not, ◌&&◌, Option, none, some,
  eq_iff, arith,
}
use minidp.Errors.{
  ok, refuse_if, >>-eq-ok, refuse_if-eq-ok, not_access_token, audience_missing, audience_rejected,
  token_revoked,
}
use minidp.Store.{Store, deny_jti, is_denied_jti}
use minidp.Clients.Validate.{is_empty}
use minidp.Clients.Registry.{audience_allowed}
use minidp.Durations.{second}
use minidp.Tokens.Claims.{Claims, claim_string, get_audience, get_expiration}
use minidp.Keys.{Token, typ_access_token, verify_key}
use minidp.Server.{Platform, Server, World}
use minidp.Server.Exec.{Outcome, go, stop, done, pure, continue}
use minidp.Handlers.{Request}
use minidp.Handlers.ClientAuth.{require_client_auth}
use minidp.Handlers.Accept.{accept_token}
use minidp.Handlers.Resources.{
  parse_access_token, handle_revoke, revoke_presented_token, revoke_parsed,
}

-- A request of a client that may revoke, for this token.
pub record Revokes (pf : Platform) (s : Server) (r : Request) (token : String) : Type 0 where
  pub allowed : (require_client_auth s r pf).0 ≡ true
  pub readable : r.malformed ≡ false
  pub named : r.post_form "token" ≡ token
  pub given : token ≢ ""

module _ (pf : Platform) (s : Server) (r : Request) (claims : Claims) (exp : ℕ)
    (jti : claim_string claims "jti" ≢ "") (expires : get_expiration claims ≡ some exp) where
  denied_store :
      (token : String) (w : World)
      → (revoke_parsed pf s r token (ok claims) w).1.store
        ≡ deny_jti (claim_string claims "jti") (exp * second) w.store
  unfolding revoke_parsed
  denied_store token w = ground (arith, eq_iff (claim_string claims "jti") "", jti, expires)

  presented_store :
      (token : String) (w : World)
      → accept_token s
          (pf.clock (suc w.reads))
          false
          w.store
          (pf.parse_valid (verify_key s.keys) s.issuer (pf.clock w.reads) token)
        ≡ ok claims
      → (revoke_presented_token pf s r token w).1.store
        ≡ deny_jti (claim_string claims "jti") (exp * second) w.store
  unfolding revoke_presented_token parse_access_token
  presented_store token w p = rw p (denied_store token (record w { reads = suc (suc w.reads) }))

  allowed_store :
      (w : World) (o : Outcome (Unit {0}) × World)
      → revoke_presented_token pf s r (r.post_form "token") w ≡ o
      → (continue o.0 (λ (u : Unit {0}). pure done) o.1).1.store ≡ o.1.store
  allowed_store w (go a, v) e = refl
  allowed_store w (stop reply, v) e = refl

  pub revoked_store :
      (token : String) (w : World)
      → Revokes pf s r token
      → accept_token s
          (pf.clock (suc w.reads))
          false
          w.store
          (pf.parse_valid (verify_key s.keys) s.issuer (pf.clock w.reads) token)
        ≡ ok claims
      → (handle_revoke pf s r w).1.store
        ≡ deny_jti (claim_string claims "jti") (exp * second) w.store
  unfolding handle_revoke
  revoked_store token w h p =
      let given : (r.post_form "token" == "") ≡ false =
        ground (arith, h.named, h.given, eq_iff (r.post_form "token") "") in
      simp (h.allowed, h.readable, given)
        (allowed_store w (revoke_presented_token pf s r (r.post_form "token") w) refl
          ∙ presented_store (r.post_form "token") w (rw h.named p))

ok_claims : (a b : Claims) → ok a ≡ ok b → claim_string a "jti" ≡ claim_string b "jti"
ok_claims a b e = cc

pub refuses_denied :
    (s : Server) (later : ℕ) (aud : Bool) (st : Store) (o : Option Token) (claims : Claims)
    → is_denied_jti later (claim_string claims "jti") st ≡ true
    → claim_string claims "jti" ≢ ""
    → accept_token s later aud st o ≢ ok claims
unfolding accept_token
refuses_denied s later aud st none claims d j = λ e. cc
refuses_denied s later aud st (some t) claims d j = λ e.
    let typ = >>-eq-ok (refuse_if (not (t.typ == typ_access_token)) not_access_token) _ e in
    let some_aud =
      >>-eq-ok (refuse_if (is_empty (get_audience t.claims)) audience_missing) _ typ.1 in
    let known_aud =
      >>-eq-ok
        (refuse_if (aud && not (audience_allowed s.clients (get_audience t.claims)))
          audience_rejected)
        _ some_aud.1 in
    let live =
      >>-eq-ok
        (refuse_if
          (not (claim_string t.claims "jti" == "")
            && is_denied_jti later (claim_string t.claims "jti") st)
          token_revoked)
        (ok t.claims) known_aud.1 in
    let same : claim_string t.claims "jti" ≡ claim_string claims "jti" =
      ok_claims t.claims claims live.1 in
    let undenied =
      refuse_if-eq-ok
        (not (claim_string t.claims "jti" == "")
          && is_denied_jti later (claim_string t.claims "jti") st)
        token_revoked live.0 in
    j (ground (arith, d, same, undenied, eq_iff (claim_string t.claims "jti") ""))
