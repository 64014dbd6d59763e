-- ===== src/Handlers/Holding/Resources.antt =====
-- What userinfo, introspection, revocation and logout in internal/idp/handlers.go leave true of the store.
use minidp.Base.{ℕ, suc, ◌≡◌, refl, String, Bool, false}
use minidp.Errors.{Result, ok, err}
use minidp.Store.{Store}
use minidp.Clients.Registry.{RegisteredClient}
use minidp.Tokens.Claims.{Claims}
use minidp.Keys.{verify_key}
use minidp.Server.{Platform, Server}
use minidp.Server.Exec.Holds.{Holds, holds_rules}
use minidp.Handlers.{Request}
use minidp.Handlers.Accept.{accept_token}
use minidp.Handlers.Resources.{
  parse_access_token, revoke_parsed, revoke_presented_token, handle_revoke, end_family, end_hinted,
  hinted, handle_end_session, handle_userinfo, handle_introspect,
}
use minidp.Handlers.Holding.{IsAccepted, IsClosed}

module _ (pf : Platform) (s : Server) (d : ℕ) (P : Store → Type 0) (c : IsClosed pf s d P)
    (r : Request) where
  parsed-Holds : (raw : String) (require : Bool) → Holds d P (parse_access_token pf s raw require)
  unfolding parse_access_token
  parsed-Holds raw require = record { at = λ w h. record { drawn = h.drawn; holds = h.holds } }

  revoke_parsed-Holds :
      (token : String) (o : Result Claims)
      → ((claims : Claims) → o ≡ ok claims → IsAccepted pf s claims)
      → Holds d P (revoke_parsed pf s r token o)
  unfolding revoke_parsed
  revoke_parsed-Holds token (err e) k = search (holds_rules, c.revokes_token) depth 8
  revoke_parsed-Holds token (ok claims) k =
      search (holds_rules, c.denies_jti r, k claims refl) depth 12

  presented-Holds : (token : String) → Holds d P (revoke_presented_token pf s r token)
  unfolding revoke_presented_token parse_access_token
  presented-Holds token = record {
    at = λ w h.
        (revoke_parsed-Holds token
            (accept_token s (pf.clock (suc w.reads)) false w.store
              (pf.parse_valid (verify_key s.keys) s.issuer (pf.clock w.reads) token))
            (λ claims e. (w.reads, w.store, token, e))).at
          (record w { reads = suc (suc w.reads) }) (record { drawn = h.drawn; holds = h.holds });
  }

  pub revoke-Holds : Holds d P (handle_revoke pf s r)
  unfolding handle_revoke
  revoke-Holds = search (holds_rules, presented-Holds) depth 12

  end_family-Holds : (rc : RegisteredClient) (sid : String) → Holds d P (end_family pf s r rc sid)
  unfolding end_family
  end_family-Holds rc sid = search (holds_rules, c.revokes_family) depth 8

  end_hinted-Holds : (o : Result (Claims × RegisteredClient)) → Holds d P (end_hinted pf s r o)
  unfolding end_hinted
  end_hinted-Holds (err e) = search holds_rules
  end_hinted-Holds (ok (claims, rc)) = end_family-Holds rc _

  hinted-Holds : Holds d P (hinted pf s r)
  unfolding hinted
  hinted-Holds = search (holds_rules, end_hinted-Holds) depth 8

  pub end_session-Holds : Holds d P (handle_end_session pf s r)
  unfolding handle_end_session
  end_session-Holds = search (holds_rules, hinted-Holds) depth 8

  pub userinfo-Holds : Holds d P (handle_userinfo pf s r)
  unfolding handle_userinfo
  userinfo-Holds = search (holds_rules, parsed-Holds)

  pub introspect-Holds : Holds d P (handle_introspect pf s r)
  unfolding handle_introspect
  introspect-Holds = search (holds_rules, parsed-Holds)
