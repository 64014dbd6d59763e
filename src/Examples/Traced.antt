-- ===== src/Examples/Traced.antt =====
-- A login and the redemption of its code, through the routes of internal/idp/server.go.
use minidp.Strings.{fields, cut, strip_prefix, trim_last, join, trim_prefix}
use minidp.Store.{add_code, drop_expired, take_code, register_jti, add_refresh}
use minidp.Clients.Registry.{
  register, lookup, index, allows_scope, redirect_uri_allowed, add_hosts, explicit_origins_of,
  index_users,
}
use minidp.Server.ClientIp.{client_ip, ip_trusted}
use minidp.Handlers.ClientAuth.{authenticate_client, identify_form_client, auth_client_basic}
use minidp.Handlers.Authorize.{
  validate_authorize_request, handle_authorize_post, validate_pkce_params, validate_scopes_for,
  csrf_nonce, try_login, authorize_context, client_for_authorize, oauth_context_of, answer_code,
  authenticate, code_of, complete_authorize, continue_context, continue_login, limited, login_of,
  oauth_params_of, scan_scopes, validate_modes, validate_prompt, verified,
}
use minidp.Clients.{confidential, audience_of}
use minidp.Tokens.{
  parse_scopes, or_openid, new_id_claims, registered_claims, ordered, short_scope_names,
  new_access_claims, join_scopes, has_scope, profile_for,
}
use minidp.Csrf.{verify, claims_match, fingerprint, nonce_fingerprint, valid_signature}
use minidp.Limiter.{allow, sweep, take_token}
use minidp.Limiter.Buckets.{find, drop_idle, set}
use minidp.Handlers.TokenEndpoint.{
  handle_token, handle_code_grant, dispatch_grant, validate_code_grant, continue_code,
  token_program,
}
use minidp.Handlers.Pkce.{valid_pkce_verifier, verify_pkce, pkce_verifier_char, all_chars}
use minidp.Handlers.Issue.{
  issue_id_token, issue_and_write_tokens, add_refresh_for, id_token_if_openid, issue_tokens,
}
use minidp.Keys.{sign_access, sign, sign_typed}
use minidp.Tokens.Claims.{of_id, of_access}
use minidp.Routes.{serve, run_routed, run_endpoint, route, find_route, or_landing, Http, reply}
use minidp.Routes.Codes.{serve_all, HasLogin, redemption, tokens_traced, answered_again}
use minidp.Handlers.TokenEndpoint.Codes.{Served}
use minidp.Handlers.{Request}
use minidp.Page.{LoginTemplate}
use minidp.Server.Exec.{tokens}
use minidp.Server.{World}
use minidp.Durations.{shift, whole_seconds}
use minidp.Base.{◌≡◌, refl, true, List, [], ◌∷◌, arith}
use minidp.Examples.Endpoint.{platform, server, start, form, redeem, token_set}
use minidp.Examples.Logins.{login}
use minidp.Examples.Keys.{plain_keys}
use minidp.Examples.Running.{encoder}

-- A page without its text.
abbrev pub plain_page : LoginTemplate
plain_page = record {
  tmpl = λ page. (page.title, true);
  title = "minidp";
  subtitle = "Sign in to continue";
  css = "";
  logo = "";
}

abbrev post_login : Http
post_login = record {
  method = "POST";
  path = "/authorize";
  origin = "https://app";
  request = login;
}

abbrev redeem_drawn : Request
redeem_drawn = record redeem {
  post_form = form (
      ("grant_type", "authorization_code")
      ∷ ("code", "drawn")
      ∷ ("client_id", "app")
      ∷ ("client_secret", "s3cret")
      ∷ ("redirect_uri", "https://app/cb")
      ∷ []);
}

abbrev run : List Http
run = post_login ∷ []

abbrev logged_in : World
logged_in = serve_all plain_keys encoder platform server plain_page run start

traced_answer :
    (serve plain_keys encoder platform server plain_page
      (redemption "https://app" redeem_drawn)
      logged_in).0.answer
    ≡ reply (tokens token_set)
unfolding handle_authorize_post verify csrf_nonce cut claims_match fingerprint nonce_fingerprint
    try_login allow find authorize_context client_for_authorize oauth_context_of lookup index
    redirect_uri_allowed register validate_authorize_request add_hosts allows_scope
    explicit_origins_of index_users audience_of confidential valid_signature answer_code
    authenticate code_of complete_authorize continue_context continue_login limited login_of
    oauth_params_of scan_scopes validate_modes validate_pkce_params validate_prompt
    validate_scopes_for verified drop_idle set sweep take_token client_ip ip_trusted add_code
    drop_expired fields or_openid parse_scopes handle_token token_program dispatch_grant
    handle_code_grant authenticate_client continue_code take_code validate_code_grant verify_pkce
    issue_and_write_tokens issue_tokens sign_access id_token_if_openid has_scope issue_id_token sign
    add_refresh_for auth_client_basic identify_form_client all_chars pkce_verifier_char
    valid_pkce_verifier sign_typed add_refresh register_jti shift whole_seconds join strip_prefix
    trim_last trim_prefix of_access of_id join_scopes new_access_claims new_id_claims ordered
    profile_for registered_claims short_scope_names serve run_routed run_endpoint route find_route
    or_landing serve_all
traced_answer = refl

tokens_traced_example :
    (x : Served platform server redeem_drawn logged_in) × HasLogin platform server run x.code
tokens_traced_example =
    tokens_traced plain_keys encoder platform server plain_page run start "https://app" redeem_drawn
      token_set refl refl (omega arith) traced_answer

abbrev first_redeemed : World
first_redeemed =
    (serve plain_keys encoder platform server plain_page (redemption "https://app" redeem_drawn)
      logged_in).1

abbrev drawn_again : World
drawn_again = serve_all plain_keys encoder platform server plain_page run first_redeemed

second_answer :
    (serve plain_keys encoder platform server plain_page
      (redemption "https://app" redeem_drawn)
      drawn_again).0.answer
    ≡ reply (tokens token_set)
unfolding handle_authorize_post verify csrf_nonce cut claims_match fingerprint nonce_fingerprint
    try_login allow find authorize_context client_for_authorize oauth_context_of lookup index
    redirect_uri_allowed register validate_authorize_request add_hosts allows_scope
    explicit_origins_of index_users audience_of confidential valid_signature answer_code
    authenticate code_of complete_authorize continue_context continue_login limited login_of
    oauth_params_of scan_scopes validate_modes validate_pkce_params validate_prompt
    validate_scopes_for verified drop_idle set sweep take_token client_ip ip_trusted add_code
    drop_expired fields or_openid parse_scopes handle_token token_program dispatch_grant
    handle_code_grant authenticate_client continue_code take_code validate_code_grant verify_pkce
    issue_and_write_tokens issue_tokens sign_access id_token_if_openid has_scope issue_id_token sign
    add_refresh_for auth_client_basic identify_form_client all_chars pkce_verifier_char
    valid_pkce_verifier sign_typed add_refresh register_jti shift whole_seconds join strip_prefix
    trim_last trim_prefix of_access of_id join_scopes new_access_claims new_id_claims ordered
    profile_for registered_claims short_scope_names serve run_routed run_endpoint route find_route
    or_landing serve_all
second_answer = refl

-- The platform of the example draws the same id each time, so that the second login leads to the same code.
answered_again_example :
    (x : Served platform server redeem_drawn drawn_again) × HasLogin platform server run x.code
answered_again_example =
    answered_again plain_keys encoder platform server plain_page run logged_in "https://app"
      "https://app" redeem_drawn redeem_drawn token_set token_set refl refl refl (omega arith)
      traced_answer second_answer
