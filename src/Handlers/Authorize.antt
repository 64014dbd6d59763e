-- ===== src/Handlers/Authorize.antt =====
-- internal/idp/handlers.go: the authorization endpoint and the login form.
pub mod Checks
pub mod Login
pub mod Redirects
use Prim.Native.String.{len}
use minidp.Base.{
  ℕ, suc, ◌*◌, String, ◌==◌, Bool, true, false, not, ◌&&◌, ◌||◌, Option, none, some, List, [], ◌∷◌,
  leb, contains, if◌then◌else◌,
}
use minidp.Limiter.{minute, allow}
use minidp.Csrf
use minidp.Csrf.{Values}
use minidp.Store.{AuthCode, add_code}
use minidp.Clients.{User, confidential}
use minidp.Clients.Registry.{RegisteredClient, lookup, redirect_uri_allowed, allows_scope}
use minidp.Tokens.{parse_scopes}
use minidp.Server.{Platform, Server, World}
use minidp.Server.ClientIp.{client_ip}
use minidp.Server.Exec.{
  Exec, Outcome, go, stop, Reply, message, form, plain, redirect, ◌>>=◌, ◌>>◌, pure, answer, lift,
  stop_if, now, random, with_store_twice, reply_of,
}
use minidp.Handlers.{Request}
use minidp.Handlers.Pkce.{valid_pkce_challenge}

abbrev pub auth_code_ttl : ℕ
auth_code_ttl = 10 * minute

abbrev pub nonce_bytes : ℕ
nonce_bytes = 32

abbrev pub oauth_param_keys : List String
oauth_param_keys =
    "client_id" ∷ "redirect_uri" ∷ "response_type" ∷ "scope" ∷ "state" ∷ "nonce" ∷ "code_challenge"
    ∷ "code_challenge_method" ∷ "login_hint" ∷ []

abbrev pub supported_scopes : List String
supported_scopes = "openid" ∷ "profile" ∷ "email" ∷ []

-- oauthHiddenFields, over the keys
hidden_of : List String → (String → String) → List (String × String)
hidden_of [] q = []
hidden_of (key ∷ keys) q =
    let rest = hidden_of keys q in if not (q key == "") then (key, q key) ∷ rest else rest

unfoldable pub oauth_hidden_fields : (String → String) → List (String × String)
unfolding hidden_of
oauth_hidden_fields q = hidden_of oauth_param_keys q

-- oauthContextOf: what `Get` reads of the echoed fields.
unfoldable pub oauth_context_of : (String → String) → String → String
oauth_context_of posted key = if contains oauth_param_keys key then posted key else ""

-- oauthParamsOf, over the keys; a key with no value is not in the form.
params_of : List String → (String → List String) → Values
params_of [] values = []
params_of (key ∷ keys) values = with_values key (values key) (params_of keys values)
  where
    with_values : String → List String → Values → Values
    with_values key [] rest = rest
    with_values key (v ∷ vs) rest = (key, v ∷ vs) ∷ rest

unfoldable pub oauth_params_of : Request → Values
unfolding params_of
oauth_params_of r = params_of oauth_param_keys r.form

decoded_nonce : Platform → Option String → String
decoded_nonce pf none = ""
decoded_nonce pf (some raw) = elim (pf.digests.decode64 raw) [ none ↦ "" | some nonce ↦ nonce ]

-- csrfNonce; an absent nonce and an empty one are both refused.
unfoldable pub csrf_nonce : Platform → Request → String
unfolding decoded_nonce
csrf_nonce pf r = decoded_nonce pf r.login_cookie

-- clientForAuthorize, with the page that its two callers answer with.
unfoldable pub binding_of : (String → String) → Option RegisteredClient → Outcome RegisteredClient
binding_of q none = stop (message 400 "Unknown client_id.")
binding_of q (some rc) =
    if q "redirect_uri" == ""
    then stop (message 400 "Missing redirect_uri.")
    else (if not (redirect_uri_allowed rc.client (q "redirect_uri"))
        then stop (message 400 "The redirect_uri is not registered for this client.")
        else go rc)

unfoldable pub client_for_authorize : Server → (String → String) → Outcome RegisteredClient
unfolding binding_of
client_for_authorize s q =
    if q "client_id" == ""
    then stop (message 400 "Missing client_id.")
    else binding_of q (lookup s.clients (q "client_id"))

-- A check returns an OAuth error code, "" where there is none.
abbrev pub or_check : String → String → String
or_check code next = if code == "" then next else code

unfoldable pub validate_pkce_params : RegisteredClient → (String → String) → String
validate_pkce_params rc q =
    if q "code_challenge" == ""
    then (if not (confidential rc.client) then "invalid_request" else "")
    else (if not (q "code_challenge_method" == "S256")
        then "invalid_request"
        else (if not (valid_pkce_challenge (q "code_challenge")) then "invalid_request" else ""))

unfoldable pub validate_prompt : (String → String) → String
validate_prompt q =
    if q "prompt" == "" || q "prompt" == "login"
    then ""
    else (if q "prompt" == "none" then "login_required" else "invalid_request")

unfoldable pub scan_scopes : RegisteredClient → List String → String
scan_scopes rc [] = ""
scan_scopes rc (sc ∷ scs) =
    let rest = scan_scopes rc scs in
    if contains supported_scopes sc || allows_scope rc.client sc then rest else "invalid_scope"

unfoldable pub validate_scopes_for : RegisteredClient → String → String
unfolding scan_scopes
validate_scopes_for rc raw = scan_scopes rc (parse_scopes raw)

unfoldable pub validate_modes : (String → String) → String
validate_modes q =
    if not (q "response_mode" == "") && not (q "response_mode" == "query")
    then "invalid_request"
    else (if not (q "max_age" == "")
          || (not (q "acr_values" == "") || (not (q "display" == "") || not (q "ui_locales" == "")))
        then "invalid_request"
        else "")

unfoldable pub validate_authorize_request : RegisteredClient → (String → String) → String
unfolding validate_prompt validate_modes
validate_authorize_request rc q =
    if not (q "response_type" == "code")
    then "unsupported_response_type"
    else or_check (validate_pkce_params rc q) (
        or_check (validate_prompt q)
          (or_check (validate_modes q) (validate_scopes_for rc (q "scope"))))

-- The entry of an allowlist that equals the text, "" where none does.
unfoldable pub registered_entry : List String → String → String
registered_entry [] raw = ""
registered_entry (allowed ∷ rest) raw =
    let later = registered_entry rest raw in if allowed == raw then allowed else later

abbrev pub entries : Option (List String) → List String
entries none = []
entries (some us) = us

unfoldable pub registered_redirect : Server → String → String → String
unfolding registered_entry
registered_redirect s id raw = registered_entry (entries (s.clients.redirects id)) raw

-- redirectToClient. A registered entry is an absolute URL, so only the empty text prints as an empty URL.
unfoldable pub redirect_to : Platform → String → String → List (String × String) → Reply
redirect_to pf state target extra = elim (pf.parse_url target) [
  | none ↦ message 400 "Invalid redirect_uri."
  | some url ↦
      if target == ""
      then message 400 "Invalid redirect_uri."
      else (if state == ""
          then redirect target extra
          else redirect target (("state", state) ∷ extra))
]

unfoldable pub redirect_to_client :
    Platform → Server → RegisteredClient → (String → String) → List (String × String) → Reply
unfolding redirect_to registered_redirect
redirect_to_client pf s rc q extra =
    redirect_to pf (q "state") (registered_redirect s rc.client.client_id (q "redirect_uri")) extra

module _ (pf : Platform) (s : Server) (r : Request) where
  unfoldable pub fresh_nonce : Option String → Exec (String × Option String)
  unfolding decoded_nonce
  fresh_nonce none = answer (plain 500 "internal error")
  fresh_nonce (some cookie) = pure (decoded_nonce pf (some cookie), some cookie)

  -- The nonce that the form is bound to, and the cookie to set: the browser's own, or a new one.
  unfoldable pub browser_nonce : Exec (String × Option String)
  unfolding fresh_nonce
  browser_nonce =
      if leb (len (csrf_nonce pf r)) nonce_bytes && leb nonce_bytes (len (csrf_nonce pf r))
      then pure (csrf_nonce pf r, none)
      else random pf >>= fresh_nonce

  -- renderLoginPage with an action
  unfoldable pub render_login_page : ℕ → String → String → List (String × String) → Exec Reply
  render_login_page status problem username hidden = do
    nonce ← browser_nonce
    stop_if r.malformed (plain 400 "malformed request")
    at ← now pf
    pure (
        form status (record {
          error = problem;
          username = username;
          hidden = hidden;
          csrf_token = Csrf.issue pf.digests s.csrf at "/authorize" (oauth_params_of r) nonce.0;
          set_cookie = nonce.1;
        }))

  unfoldable pub render_authorize_error : ℕ → String → Exec Reply
  render_authorize_error status problem =
      render_login_page status problem "" (oauth_hidden_fields r.post_form)

  unfoldable pub continue_get : RegisteredClient → String → Exec Reply
  continue_get rc code =
      if not (code == "")
      then pure (redirect_to_client pf s rc r.query (("error", code) ∷ []))
      else render_login_page 200 "" (r.query "login_hint") (oauth_hidden_fields r.query)

  unfoldable pub handle_authorize_get : Exec Reply
  unfolding continue_get
  handle_authorize_get = do
    rc ← lift (client_for_authorize s r.query)
    continue_get rc (validate_authorize_request rc r.query)

  unfoldable pub login_of : String → Option User → Option String
  login_of password none = none
  login_of password (some u) =
      if pf.verify_hash u.password_hash password then some u.username else none

  -- authenticate: the subject, of which only the name is used.
  unfoldable pub authenticate : RegisteredClient → String → String → Option String
  unfolding login_of
  authenticate rc username password = login_of password (rc.users username)

  unfoldable pub code_of : (String → String) → String → AuthCode
  code_of q sub = record {
    expires_at = 0;
    sub = sub;
    client_id = q "client_id";
    redirect_uri = q "redirect_uri";
    code_challenge = q "code_challenge";
    code_challenge_method = q "code_challenge_method";
    nonce = q "nonce";
    scopes = parse_scopes (q "scope");
  }

  unfoldable pub answer_code : RegisteredClient → (String → String) → Option String → Exec Reply
  answer_code rc q none = render_authorize_error 500 "Internal error. Please start again."
  answer_code rc q (some code) = pure (redirect_to_client pf s rc q (("code", code) ∷ []))

  unfoldable pub complete_authorize : RegisteredClient → (String → String) → String → Exec Reply
  unfolding answer_code
  complete_authorize rc q sub = do
    draw ← random pf
    added ← with_store_twice pf (λ t u. add_code t u draw (code_of q sub) auth_code_ttl)
    answer_code rc q added

  unfoldable pub continue_login : RegisteredClient → (String → String) → Option String → Exec Reply
  continue_login rc q none =
      render_login_page 401 "Invalid username or password." (r.post_form "username")
        (oauth_hidden_fields r.post_form)
  continue_login rc q (some sub) = complete_authorize rc q sub

  unfoldable pub continue_context : RegisteredClient → (String → String) → String → Exec Reply
  unfolding continue_login
  continue_context rc q code =
      if not (code == "")
      then pure (redirect_to_client pf s rc q (("error", code) ∷ []))
      else continue_login rc q (authenticate rc (r.post_form "username") (r.post_form "password"))

  -- authorizeContext, and completeAuthorize where it succeeds
  unfoldable pub authorize_context : Exec Reply
  unfolding continue_context
  authorize_context = do
    let q = oauth_context_of r.post_form
    rc ← lift (client_for_authorize s q)
    continue_context rc q (validate_authorize_request rc q)

  unfoldable pub limited : Bool → Exec Reply
  limited true = authorize_context
  limited false =
      render_authorize_error 429 "Too many sign-in attempts. Please wait a minute and try again."

  -- The call of the limiter, whose answer decides.
  unfoldable pub try_login : Exec Bool
  try_login w =
      let (ok, l) =
        allow (pf.clock w.reads) (client_ip pf.parses_ip pf.contains_ip s.trusted_proxies r.peer)
          w.limiter in
      (go ok, record w { limiter = l; reads = suc w.reads })

  unfoldable pub verified : Bool → Exec Reply
  unfolding limited
  verified false =
      render_authorize_error 400
        "Your sign-in session expired or the request was tampered with. Please start again."
  verified true = try_login >>= limited

  unfoldable pub handle_authorize_post : Exec Reply
  unfolding verified
  handle_authorize_post = do
    stop_if r.malformed (message 400 "Malformed form submission.")
    at ← now pf
    verified (
        Csrf.verify pf.digests s.csrf at "/authorize" (oauth_params_of r) (csrf_nonce pf r)
          (r.post_form "csrf_token"))
