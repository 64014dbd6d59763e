-- ===== src/Handlers/TokenEndpoint/Refusals.antt =====
-- The token endpoint of internal/idp/handlers.go stops early only with an error.
use minidp.Base.{ℕ, Bool, List, String, arith}
use minidp.Store.{Taken, fresh, reused, unknown}
use minidp.Clients.{Client}
use minidp.Tokens.{ProfileData}
use minidp.Server.{Platform, Server}
use minidp.Server.Exec.{Refuses, IsRefusal, refusals}
use minidp.Handlers.{Request}
use minidp.Handlers.ClientAuth.{authenticate_client}
use minidp.Handlers.Issue.{
  AuthContext, issue_and_write_tokens, issue_and_write_client_credentials, issue_id_token,
  id_token_if_openid, add_refresh_for, issue_tokens, issue_client_credentials_tokens,
}
use minidp.Handlers.TokenEndpoint.{
  handle_code_grant, continue_code, handle_refresh_grant, continue_refresh,
  handle_client_credentials_grant, validate_code_grant, dispatch_grant, token_program,
}

module _ (pf : Platform) (s : Server) where
  authenticate-IsRefusal : (r : Request) → IsRefusal (authenticate_client s r pf)
  unfolding authenticate_client
  authenticate-IsRefusal r = ground arith

  add_refresh_for-Refuses : (ctx : AuthContext) → Refuses (add_refresh_for pf s ctx)
  unfolding add_refresh_for
  add_refresh_for-Refuses ctx = search refusals

  issue_id_token-Refuses :
      (ctx : AuthContext) (aud : String) (at expires : ℕ) (wants : Bool) (profile : ProfileData)
      → Refuses (issue_id_token pf s ctx aud at expires wants profile)
  unfolding issue_id_token
  issue_id_token-Refuses ctx aud at expires wants profile = search refusals

  id_token-Refuses :
      (ctx : AuthContext) (aud : String) (at expires : ℕ) (wants : Bool) (profile : ProfileData)
      → Refuses (id_token_if_openid pf s ctx aud at expires wants profile)
  unfolding id_token_if_openid
  id_token-Refuses ctx aud at expires wants profile = search (refusals, issue_id_token-Refuses)

  issue_tokens-Refuses : (ctx : AuthContext) → Refuses (issue_tokens pf s ctx)
  unfolding issue_tokens
  issue_tokens-Refuses ctx = search (refusals, id_token-Refuses, add_refresh_for-Refuses) depth 20

  issue_and_write_tokens-Refuses : (ctx : AuthContext) → Refuses (issue_and_write_tokens pf s ctx)
  unfolding issue_and_write_tokens
  issue_and_write_tokens-Refuses ctx = search (refusals, issue_tokens-Refuses)

  app_tokens-Refuses :
      (c : Client) (scopes : List String) → Refuses (issue_client_credentials_tokens pf s c scopes)
  unfolding issue_client_credentials_tokens
  app_tokens-Refuses c scopes = search refusals depth 12

  app_reply-Refuses :
      (c : Client) (scopes : List String)
      → Refuses (issue_and_write_client_credentials pf s c scopes)
  unfolding issue_and_write_client_credentials
  app_reply-Refuses c scopes = search (refusals, app_tokens-Refuses)

module _ (pf : Platform) (s : Server) (r : Request) where
  code_grant-Refuses : Refuses (handle_code_grant pf s r)
  unfolding handle_code_grant continue_code validate_code_grant
  code_grant-Refuses =
      search (refusals, authenticate-IsRefusal pf s, issue_and_write_tokens-Refuses pf s) depth 20

  continue_refresh-Refuses : (c : Client) (t : Taken) → Refuses (continue_refresh pf s r c t)
  unfolding continue_refresh
  continue_refresh-Refuses c reused = search refusals
  continue_refresh-Refuses c unknown = search refusals
  continue_refresh-Refuses c (fresh entry) = search (refusals, issue_and_write_tokens-Refuses pf s)

  refresh_grant-Refuses : Refuses (handle_refresh_grant pf s r)
  unfolding handle_refresh_grant
  refresh_grant-Refuses =
      search (refusals, authenticate-IsRefusal pf s, continue_refresh-Refuses) depth 12

  app_grant-Refuses : Refuses (handle_client_credentials_grant pf s r)
  unfolding handle_client_credentials_grant
  app_grant-Refuses =
      search (refusals, authenticate-IsRefusal pf s, app_reply-Refuses pf s) depth 12

  dispatch-Refuses : (grant : String) → Refuses (dispatch_grant pf s r grant)
  unfolding dispatch_grant
  dispatch-Refuses grant =
      search (refusals, code_grant-Refuses, refresh_grant-Refuses, app_grant-Refuses) depth 8

  pub token_program-Refuses : Refuses (token_program pf s r)
  unfolding token_program
  token_program-Refuses = search (refusals, dispatch-Refuses)
