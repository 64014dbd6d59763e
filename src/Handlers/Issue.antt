-- ===== src/Handlers/Issue.antt =====
-- internal/idp/tokens.go: issuing tokens, and handlers.go: answering with them.
use minidp.Durations.{shift, whole_seconds}
use minidp.Base.{ℕ, String, Bool, List, if◌then◌else◌}
use minidp.Clients.{Client, audience_of}
use minidp.Clients.Registry.{lookup}
use minidp.Store.{RefreshEntry, add_refresh, register_jti}
use minidp.Tokens.{
  TokenResponse, ProfileData, has_scope, join_scopes, profile_for, registered_claims,
  new_access_claims, new_id_claims, AccessClaims,
}
use minidp.Tokens.Claims.{of_access, of_id}
use minidp.Keys.{sign, sign_access}
use minidp.Server.{Platform, Server}
use minidp.Server.Exec.{
  Exec, Reply, error, tokens, ◌>>=◌, ◌>>◌, pure, now, random, with_store, with_store_twice,
  or_answer, ok_or_answer,
}

-- authContext
pub record AuthContext : Type 0 where
  pub sub : String
  pub client_id : String
  pub scopes : List String
  pub nonce : String
  pub family : String

abbrev pub server_error : Reply
server_error = error 500 "server_error"

-- The entry that issueTokens stores; storing it sets its expiry.
abbrev pub entry_of : AuthContext → RefreshEntry
entry_of ctx = record {
  expires_at = 0;
  sub = ctx.sub;
  client_id = ctx.client_id;
  nonce = ctx.nonce;
  family = ctx.family;
  scopes = ctx.scopes;
}

module _ (pf : Platform) (s : Server) where
  unfoldable pub issue_id_token : AuthContext → String → ℕ → ℕ → Bool → ProfileData → Exec String
  issue_id_token ctx audience at expires want_profile profile = do
    draw ← random pf
    jti ← or_answer server_error draw
    let rc = registered_claims s.issuer audience ctx.sub jti at expires
    let id = new_id_claims rc ctx.client_id ctx.nonce ctx.family want_profile profile
    ok_or_answer server_error (sign pf.signed_string s.keys (of_id id))

  unfoldable pub id_token_if_openid :
      AuthContext → String → ℕ → ℕ → Bool → ProfileData → Exec String
  id_token_if_openid ctx audience at expires want_profile profile =
      if has_scope ctx.scopes "openid"
      then issue_id_token ctx audience at expires want_profile profile
      else pure ""

  unfoldable pub add_refresh_for : AuthContext → Exec String
  add_refresh_for ctx = do
    draw ← random pf
    added ← with_store_twice pf (λ t u. add_refresh t u draw (entry_of ctx) s.refresh_token_ttl)
    or_answer server_error added

  -- issueTokens; every error that it returns is answered by a status of 500.
  unfoldable pub issue_tokens : AuthContext → Exec TokenResponse
  issue_tokens ctx = do
    rc ← or_answer server_error (lookup s.clients ctx.client_id)
    at ← now pf
    let expires = shift at s.access_token_ttl
    draw ← random pf
    jti ← or_answer server_error draw
    let want_profile = has_scope ctx.scopes "profile"
    let profile = profile_for rc.users ctx.sub want_profile (has_scope ctx.scopes "email")
    let claims = registered_claims s.issuer (audience_of rc.client) ctx.sub jti at expires
    let access = new_access_claims claims rc.client.client_id ctx.scopes want_profile profile
    signed ← ok_or_answer server_error (sign_access pf.signed_string s.keys (of_access access))
    with_store (register_jti jti ctx.sub ctx.family expires)
    id_token ← id_token_if_openid ctx rc.client.client_id at expires want_profile profile
    refresh ← add_refresh_for ctx
    pure (record {
      access_token = signed;
      id_token = id_token;
      refresh_token = refresh;
      token_type = "Bearer";
      scope = join_scopes ctx.scopes;
      expires_in = whole_seconds s.access_token_ttl;
    })

  unfoldable pub issue_and_write_tokens : AuthContext → Exec Reply
  issue_and_write_tokens ctx = do response ← issue_tokens ctx; pure (tokens response)

  abbrev app_claims : Client → List String → String → ℕ → ℕ → AccessClaims
  app_claims c scopes jti at expires = record {
    registered = registered_claims s.issuer (audience_of c) c.client_id jti at expires;
    client_id = c.client_id;
    azp = c.client_id;
    idtyp = "app";
    scp = "";
    scope = join_scopes scopes;
    username = "";
    email = "";
    roles = c.client_credentials_roles;
  }

  unfoldable pub issue_client_credentials_tokens : Client → List String → Exec TokenResponse
  issue_client_credentials_tokens c scopes = do
    at ← now pf
    let expires = shift at s.access_token_ttl
    draw ← random pf
    jti ← or_answer server_error draw
    signed ←
        ok_or_answer server_error
          (sign_access pf.signed_string s.keys (of_access (app_claims c scopes jti at expires)))
    with_store (register_jti jti c.client_id "" expires)
    pure (record {
      access_token = signed;
      id_token = "";
      refresh_token = "";
      token_type = "Bearer";
      scope = join_scopes scopes;
      expires_in = whole_seconds s.access_token_ttl;
    })

  unfoldable pub issue_and_write_client_credentials : Client → List String → Exec Reply
  issue_and_write_client_credentials c scopes = do
    response ← issue_client_credentials_tokens c scopes
    pure (tokens response)
