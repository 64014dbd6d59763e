-- ===== src/Handlers/Holding.antt =====
-- internal/idp/handlers.go: the calls of the store that its handlers may make. What all of these keep, every handler
-- keeps.
pub mod Tokens
pub mod Resources
pub mod Authorize
pub mod Codes
use minidp.Base.{ℕ, suc, ◌≤◌, ◌≡◌, refl, String, Bool, true, false, Option, none, some, List}
use minidp.Errors.{Result, ok, err}
use minidp.Store.{
  Store, AuthCode, RefreshEntry, Taken, fresh, reused, unknown, add_code, take_code, add_refresh,
  take_refresh, register_jti, deny_jti, revoke_family, revoke_token,
}
use minidp.Clients.{Client}
use minidp.Clients.Registry.{RegisteredClient}
use minidp.Tokens.{ProfileData}
use minidp.Tokens.Claims.{Claims, claim_string, get_expiration}
use minidp.Keys.{verify_key}
use minidp.Server.{Platform, Server, World}
use minidp.Server.Exec.Holds.{Behind, Holds, holds_rules}
use minidp.Handlers.{Request}
use minidp.Handlers.Accept.{accept_token}
use minidp.Handlers.Authorize.{
  fresh_nonce, browser_nonce, render_login_page, render_authorize_error, continue_get,
  handle_authorize_get, answer_code, complete_authorize, continue_login, continue_context,
  authorize_context, limited, try_login, verified, handle_authorize_post,
}
use minidp.Handlers.Issue.{
  AuthContext, issue_and_write_tokens, issue_and_write_client_credentials, issue_id_token,
  id_token_if_openid, add_refresh_for, issue_tokens, issue_client_credentials_tokens,
}
use minidp.Handlers.TokenEndpoint.{
  handle_token, handle_code_grant, continue_code, handle_refresh_grant, continue_refresh,
  handle_client_credentials_grant, validate_code_grant, dispatch_grant, token_program,
}
use minidp.Handlers.Resources.{
  parse_access_token, until_of, revoke_parsed, revoke_presented_token, handle_revoke, end_family,
  end_hinted, hinted, handle_end_session, handle_userinfo, handle_introspect,
}

-- The claims of an access token that revocation accepts, at some reading of the clock.
abbrev pub IsAccepted : Platform → Server → Claims → Type 0
IsAccepted pf s claims =
    (n : ℕ) × (st : Store) × (raw : String) × (accept_token s (pf.clock (suc n)) false st
        (pf.parse_valid (verify_key s.keys) s.issuer (pf.clock n) raw)
      ≡ ok claims)

-- The call that issues a code keeps `P`.
abbrev pub IsClosedUnderCodes : Platform → ℕ → (Store → Type 0) → Type 0
IsClosedUnderCodes pf d P =
    (k n ttl : ℕ) (c : AuthCode) (st : Store)
    → d ≤ k
    → P st
    → P (add_code (pf.clock n) (pf.clock (suc n)) (pf.draw k) c ttl st).1

-- The other calls keep `P`: ids are draws behind the first `d`, and only the ids of accepted tokens are denied.
pub record IsClosed (pf : Platform) (s : Server) (d : ℕ) (P : Store → Type 0) : Type 0 where
  pub takes_code :
      (id : String) (n : ℕ) (st : Store)
      → P st
      → P (take_code (pf.clock n) (pf.clock (suc n)) id st).1
  pub adds_refresh :
      (k n ttl : ℕ) (f : RefreshEntry) (st : Store)
      → d ≤ k
      → P st
      → P (add_refresh (pf.clock n) (pf.clock (suc n)) (pf.draw k) f ttl st).1
  pub takes_refresh :
      (id : String) (n : ℕ) (st : Store)
      → P st
      → P (take_refresh (pf.clock n) (pf.clock (suc n)) id st).1
  pub registers_jti :
      (k exp : ℕ) (jti sub family : String) (st : Store)
      → d ≤ k
      → pf.draw k ≡ some jti
      → P st
      → P (register_jti jti sub family exp st)
  pub denies_jti :
      (r : Request) (n : ℕ) (claims : Claims) (st : Store)
      → IsAccepted pf s claims
      → P st
      → P (
          deny_jti
            (claim_string claims "jti")
            (until_of pf s r (pf.clock n) (get_expiration claims))
            st)
  pub revokes_family :
      (family : String) (n : ℕ) (st : Store) → P st → P (revoke_family (pf.clock n) family st)
  pub revokes_token :
      (token : String) (n : ℕ) (st : Store) → P st → P (revoke_token (pf.clock n) token st)
