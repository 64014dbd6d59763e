-- ===== src/Handlers/TokenEndpoint.antt =====
-- internal/idp/handlers.go: the token endpoint and its three grants.
pub mod Refusals
pub mod Codes
pub mod Replay
use minidp.Base.{
  String, ◌==◌, Bool, true, false, not, ◌&&◌, ◌||◌, Option, none, some, if◌then◌else◌,
}
use minidp.Clients.{
  Client, confidential, allows_grant, grant_authorization_code, grant_refresh_token,
  grant_client_credentials,
}
use minidp.Clients.Registry.{RegisteredClient, resolve_cc_scopes}
use minidp.Store.{
  AuthCode, RefreshEntry, Taken, fresh, reused, unknown, take_code, take_refresh, revoke_family,
}
use minidp.Server.{Platform, Server, World}
use minidp.Server.Exec.{
  Exec, Outcome, go, stop, Reply, error, ◌>>=◌, ◌>>◌, pure, answer, lift, stop_if, random,
  with_store_once, with_store_twice, or_answer, reply_of,
}
use minidp.Handlers.{Request}
use minidp.Handlers.ClientAuth.{authenticate_client}
use minidp.Handlers.Pkce.{verify_pkce}
use minidp.Handlers.Issue.{
  AuthContext, server_error, issue_and_write_tokens, issue_and_write_client_credentials,
}

abbrev pub auth_error : String → Reply
auth_error code = error 400 code

module _ (pf : Platform) (s : Server) (r : Request) where
  unfoldable pub handle_client_credentials_grant : Exec Reply
  handle_client_credentials_grant = do
    rc ← lift (authenticate_client s r pf)
    stop_if (not (confidential rc.client) || not (allows_grant rc.client grant_client_credentials))
        (auth_error "unauthorized_client")
    scopes ←
        or_answer (auth_error "invalid_scope") (resolve_cc_scopes rc.client (r.post_form "scope"))
    issue_and_write_client_credentials pf s rc.client scopes

  unfoldable pub validate_code_grant : AuthCode → Client → Exec (Unit {0})
  validate_code_grant ac c = do
    stop_if (not (c.client_id == ac.client_id)) (auth_error "invalid_grant")
    stop_if (r.post_form "redirect_uri" == "") (auth_error "invalid_request")
    stop_if (not (r.post_form "redirect_uri" == ac.redirect_uri)) (auth_error "invalid_grant")
    stop_if
        (not (
          verify_pkce pf.pkce_s256 ac.code_challenge ac.code_challenge_method
            (r.post_form "code_verifier")))
        (auth_error "invalid_grant")

  -- What follows on the redemption of a code.
  unfoldable pub continue_code : Client → Option AuthCode → Exec Reply
  continue_code c taken = do
    ac ← or_answer (auth_error "invalid_grant") taken
    validate_code_grant ac c
    draw ← random pf
    family ← or_answer server_error draw
    issue_and_write_tokens pf s (record {
      sub = ac.sub;
      client_id = ac.client_id;
      scopes = ac.scopes;
      nonce = ac.nonce;
      family = family;
    })

  unfoldable pub handle_code_grant : Exec Reply
  handle_code_grant = do
    stop_if (r.post_form "code" == "") (auth_error "invalid_request")
    rc ← lift (authenticate_client s r pf)
    taken ← with_store_twice pf (λ t u. take_code t u (r.post_form "code"))
    continue_code rc.client taken

  -- What follows on the redemption of a refresh token.
  unfoldable pub continue_refresh : Client → Taken → Exec Reply
  continue_refresh c reused = answer (auth_error "invalid_grant")
  continue_refresh c unknown = answer (auth_error "invalid_grant")
  continue_refresh c (fresh entry) =
      if not (c.client_id == entry.client_id)
      then (do
        with_store_once pf (λ t. revoke_family t entry.family)
        answer (auth_error "invalid_grant"))
      else issue_and_write_tokens pf s (record {
        sub = entry.sub;
        client_id = entry.client_id;
        scopes = entry.scopes;
        nonce = entry.nonce;
        family = entry.family;
      })

  unfoldable pub handle_refresh_grant : Exec Reply
  handle_refresh_grant = do
    stop_if (r.post_form "refresh_token" == "") (auth_error "invalid_request")
    rc ← lift (authenticate_client s r pf)
    taken ← with_store_twice pf (λ t u. take_refresh t u (r.post_form "refresh_token"))
    continue_refresh rc.client taken

  unfoldable pub dispatch_grant : String → Exec Reply
  dispatch_grant grant =
      if grant == grant_authorization_code
      then handle_code_grant
      else (if grant == grant_refresh_token
          then handle_refresh_grant
          else (if grant == grant_client_credentials
              then handle_client_credentials_grant
              else (if grant == ""
                  then answer (auth_error "invalid_request")
                  else answer (auth_error "unsupported_grant_type"))))

  unfoldable pub token_program : Exec Reply
  token_program = do
    stop_if r.malformed (auth_error "invalid_request")
    dispatch_grant (r.post_form "grant_type")

  -- handleToken: the answer, and the world after it.
  unfoldable pub handle_token : World → Reply × World
  handle_token w = let (o, w') = token_program w in (reply_of o, w')
