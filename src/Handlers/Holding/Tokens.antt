-- ===== src/Handlers/Holding/Tokens.antt =====
-- What the token endpoint of internal/idp/handlers.go leaves true of the store.
use minidp.Base.{ℕ, String, Bool, Option, List}
use minidp.Store.{Store, AuthCode, Taken, fresh, reused, unknown}
use minidp.Clients.{Client}
use minidp.Tokens.{ProfileData}
use minidp.Server.{Platform, Server, World}
use minidp.Server.Exec.Holds.{Behind, Holds, holds_rules}
use minidp.Handlers.{Request}
use minidp.Handlers.Issue.{
  AuthContext, issue_and_write_tokens, issue_and_write_client_credentials, issue_id_token,
  id_token_if_openid, add_refresh_for, issue_tokens, issue_client_credentials_tokens,
}
use minidp.Handlers.TokenEndpoint.{
  handle_token, handle_code_grant, continue_code, handle_refresh_grant, continue_refresh,
  handle_client_credentials_grant, validate_code_grant, dispatch_grant, token_program,
}
use minidp.Handlers.Holding.{IsClosed}

module _ (pf : Platform) (s : Server) (d : ℕ) (P : Store → Type 0) (c : IsClosed pf s d P) where
  refresh_for-Holds : (ctx : AuthContext) → Holds d P (add_refresh_for pf s ctx)
  unfolding add_refresh_for
  refresh_for-Holds ctx = search (holds_rules, c.adds_refresh) depth 8

  id_token-Holds :
      (ctx : AuthContext) (aud : String) (at expires : ℕ) (wants : Bool) (profile : ProfileData)
      → Holds d P (id_token_if_openid pf s ctx aud at expires wants profile)
  unfolding id_token_if_openid issue_id_token
  id_token-Holds ctx aud at expires wants profile = search holds_rules depth 8

  issue_tokens-Holds : (ctx : AuthContext) → Holds d P (issue_tokens pf s ctx)
  unfolding issue_tokens
  issue_tokens-Holds ctx =
      search (holds_rules, c.registers_jti, id_token-Holds, refresh_for-Holds) depth 24

  reply-Holds : (ctx : AuthContext) → Holds d P (issue_and_write_tokens pf s ctx)
  unfolding issue_and_write_tokens
  reply-Holds ctx = search (holds_rules, issue_tokens-Holds)

  app_reply-Holds :
      (cl : Client) (scopes : List String)
      → Holds d P (issue_and_write_client_credentials pf s cl scopes)
  unfolding issue_and_write_client_credentials issue_client_credentials_tokens
  app_reply-Holds cl scopes = search (holds_rules, c.registers_jti) depth 16

module _ (pf : Platform) (s : Server) (d : ℕ) (P : Store → Type 0) (c : IsClosed pf s d P)
    (r : Request) where
  pub code-Holds : (cl : Client) (o : Option AuthCode) → Holds d P (continue_code pf s r cl o)
  unfolding continue_code validate_code_grant
  code-Holds cl o = search (holds_rules, reply-Holds pf s d P c) depth 24

  code_grant-Holds : Holds d P (handle_code_grant pf s r)
  unfolding handle_code_grant
  code_grant-Holds = search (holds_rules, c.takes_code, code-Holds) depth 12

  refresh-Holds : (cl : Client) (t : Taken) → Holds d P (continue_refresh pf s r cl t)
  unfolding continue_refresh
  refresh-Holds cl reused = search holds_rules
  refresh-Holds cl unknown = search holds_rules
  refresh-Holds cl (fresh entry) =
      search (holds_rules, c.revokes_family, reply-Holds pf s d P c) depth 8

  refresh_grant-Holds : Holds d P (handle_refresh_grant pf s r)
  unfolding handle_refresh_grant
  refresh_grant-Holds = search (holds_rules, c.takes_refresh, refresh-Holds) depth 12

  app_grant-Holds : Holds d P (handle_client_credentials_grant pf s r)
  unfolding handle_client_credentials_grant
  app_grant-Holds = search (holds_rules, app_reply-Holds pf s d P c) depth 12

  dispatch-Holds : (grant : String) → Holds d P (dispatch_grant pf s r grant)
  unfolding dispatch_grant
  dispatch-Holds grant =
      search (holds_rules, code_grant-Holds, refresh_grant-Holds, app_grant-Holds) depth 8

  program-Holds : Holds d P (token_program pf s r)
  unfolding token_program
  program-Holds = search (holds_rules, dispatch-Holds)

  pub token-Holds : (w : World) → Behind d P w → Behind d P (handle_token pf s r w).1
  unfolding handle_token
  token-Holds w h = program-Holds.at w h
