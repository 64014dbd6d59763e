-- ===== src/Handlers/Authorize/Login.antt =====
-- What it takes to get an authorization code from internal/idp/handlers.go.
use minidp.Base.{
  ℕ, ◌+◌, String, ◌==◌, ◌≡◌, refl, Bool, true, false, Option, none, some, List, Bool-cases, inl,
  inr, eq_iff, arith,
}
use minidp.Csrf
use minidp.Store.{Store, AuthCode, add_code}
use minidp.Clients.{User}
use minidp.Clients.Registry.{RegisteredClient}
use minidp.Server.{Platform, Server}
use minidp.Server.Exec.{go, now, stop_if}
use minidp.Server.Exec.Keeps.{
  Keeps, keeps_rules, Keeps-bind, Keeps-lift-bind, Keeps-now, Keeps-stop_if,
}
use minidp.Handlers.{Request}
use minidp.Handlers.Authorize.{
  oauth_context_of, oauth_params_of, csrf_nonce, client_for_authorize, validate_authorize_request,
  browser_nonce, fresh_nonce, render_login_page, render_authorize_error, authenticate, login_of,
  code_of, answer_code, complete_authorize, continue_login, continue_context, authorize_context,
  limited, try_login, verified, handle_authorize_post,
}
use minidp.Handlers.Authorize.Checks.{IsAcceptable, validate_authorize_request-IsAcceptable}

-- There is no code, or it is this one but for its expiry.
abbrev IsFrom : AuthCode → Option AuthCode → Type 0
IsFrom code none = Unit {0}
IsFrom code (some c) =
    (c.sub ≡ code.sub)
    × (c.client_id ≡ code.client_id)
    × (c.redirect_uri ≡ code.redirect_uri)
    × (c.code_challenge ≡ code.code_challenge)
    × (c.code_challenge_method ≡ code.code_challenge_method)
    × (c.nonce ≡ code.nonce)
    × (c.scopes ≡ code.scopes)

-- If `id` is the code `c`, then `Q` holds.
abbrev pub Since : String → AuthCode → Type 0 → Store → Type 0
Since id c Q st = st.codes id ≡ some c → Q

-- What has been checked when the login form leads to the code `c`.
pub record LoggedIn (pf : Platform) (s : Server) (r : Request) (c : AuthCode) : Type 0 where
  pub client : RegisteredClient
  pub user : User
  pub bound : client_for_authorize s (oauth_context_of r.post_form) ≡ go client
  pub acceptable : IsAcceptable client (oauth_context_of r.post_form)
  pub account : client.users (r.post_form "username") ≡ some user
  pub password : pf.verify_hash user.password_hash (r.post_form "password") ≡ true
  pub form_token :
      (at : ℕ) × (Csrf.verify pf.digests s.csrf at "/authorize"
          (oauth_params_of r)
          (csrf_nonce pf r)
          (r.post_form "csrf_token")
        ≡ true)
  pub own : IsFrom (code_of pf s r (oauth_context_of r.post_form) user.username) (some c)

added-IsFrom :
    (code : AuthCode) (expiry : ℕ) (c : AuthCode)
    → some (record code { expires_at = expiry }) ≡ some c
    → IsFrom code (some c)
added-IsFrom code expiry c e = ground (arith, e)

add_code-Since :
    (id : String) (c : AuthCode) (code : AuthCode) {Q : Type 0} (earned : IsFrom code (some c) → Q)
    (draw : Option String) (ttl t u : ℕ) (st : Store)
    → Since id c Q st
    → Since id c Q (add_code t u draw code ttl st).1
unfolding add_code
add_code-Since id c code earned none ttl t u st h e = h (ground (arith, e))
add_code-Since id c code earned (some j) ttl t u st h e = elim (Bool-cases (j == id)) [
  | inl same ↦ earned (added-IsFrom code (u + ttl) c (ground (arith, e, same)))
  | inr other ↦ h (ground (arith, e, other))
]

module _ {P : Store → Type 0} (pf : Platform) (s : Server) (r : Request) where
  fresh-Keeps : (o : Option String) → Keeps P (fresh_nonce pf s r o)
  unfolding fresh_nonce
  fresh-Keeps none = search keeps_rules
  fresh-Keeps (some cookie) = search keeps_rules

  nonce-Keeps : Keeps P (browser_nonce pf s r)
  unfolding browser_nonce
  nonce-Keeps = search (keeps_rules, fresh-Keeps)

  page-Keeps :
      (status : ℕ) (problem username : String) (hidden : List (String × String))
      → Keeps P (render_login_page pf s r status problem username hidden)
  unfolding render_login_page
  page-Keeps status problem username hidden = search (keeps_rules, nonce-Keeps) depth 12

  error-Keeps :
      (status : ℕ) (problem : String) → Keeps P (render_authorize_error pf s r status problem)
  unfolding render_authorize_error
  error-Keeps status problem = page-Keeps status problem "" _

  answer-Keeps :
      (rc : RegisteredClient) (q : String → String) (o : Option String)
      → Keeps P (answer_code pf s r rc q o)
  unfolding answer_code
  answer-Keeps rc q none = error-Keeps 500 _
  answer-Keeps rc q (some code) = search keeps_rules

  try_login-Keeps : Keeps P (try_login pf s r)
  unfolding try_login
  try_login-Keeps = record { at = λ w h. h }

module _ (pf : Platform) (s : Server) (r : Request) (id : String) (c : AuthCode) {Q : Type 0} where
  complete-Since :
      (rc : RegisteredClient) (q : String → String) (sub : String)
      → (IsFrom (code_of pf s r q sub) (some c) → Q)
      → Keeps (Since id c Q) (complete_authorize pf s r rc q sub)
  unfolding complete_authorize
  complete-Since rc q sub earned =
      search (keeps_rules, answer-Keeps pf s r, add_code-Since id c (code_of pf s r q sub) earned)
        depth 12

module _ (pf : Platform) (s : Server) (r : Request) (id : String) (c : AuthCode) {Q : Type 0}
    (earned : LoggedIn pf s r c → Q) where
  module _ (at : ℕ)
      (genuine : Csrf.verify pf.digests s.csrf at "/authorize"
          (oauth_params_of r)
          (csrf_nonce pf r)
          (r.post_form "csrf_token")
        ≡ true)
      (rc : RegisteredClient)
      (bound : client_for_authorize s (oauth_context_of r.post_form) ≡ go rc) where
    refused-Since :
        Keeps (Since id c Q) (continue_login pf s r rc (oauth_context_of r.post_form) none)
    unfolding continue_login
    refused-Since = page-Keeps pf s r 401 _ _ _

    login-Since :
        IsAcceptable rc (oauth_context_of r.post_form)
        → (o : Option User) → rc.users (r.post_form "username") ≡ o
        → Keeps (Since id c Q) (
            continue_login pf s r rc
              (oauth_context_of r.post_form)
              (login_of pf s r (r.post_form "password") o))
    unfolding login_of
    login-Since fine none e = refused-Since
    login-Since fine (some u) e =
        elim (Bool-cases (pf.verify_hash u.password_hash (r.post_form "password"))) [
          | inl matches ↦ rw matches (
              unfold continue_login in
              complete-Since pf s r id c rc (oauth_context_of r.post_form) u.username λ own.
                earned (record {
                  client = rc;
                  user = u;
                  bound = bound;
                  acceptable = fine;
                  account = e;
                  password = matches;
                  form_token = (at, genuine);
                  own = own;
                }))
          | inr differs ↦ rw differs refused-Since
        ]

    checked-Since : Keeps (Since id c Q) (
        continue_context pf s r rc
          (oauth_context_of r.post_form)
          (validate_authorize_request rc (oauth_context_of r.post_form)))
    unfolding continue_context authenticate
    checked-Since =
        elim (Bool-cases (validate_authorize_request rc (oauth_context_of r.post_form) == "")) [
          | inl e ↦ rw e (
              login-Since
                (validate_authorize_request-IsAcceptable rc (oauth_context_of r.post_form)
                  ((eq_iff (validate_authorize_request rc (oauth_context_of r.post_form)) "").0 e))
                (rc.users (r.post_form "username")) refl)
          | inr e ↦ rw e (search keeps_rules)
        ]

  module _ (at : ℕ)
      (genuine : Csrf.verify pf.digests s.csrf at "/authorize"
          (oauth_params_of r)
          (csrf_nonce pf r)
          (r.post_form "csrf_token")
        ≡ true) where
    context-Since : Keeps (Since id c Q) (authorize_context pf s r)
    unfolding authorize_context
    context-Since =
        Keeps-lift-bind (client_for_authorize s (oauth_context_of r.post_form)) _
          (checked-Since at genuine)

    limited-Since : (b : Bool) → Keeps (Since id c Q) (limited pf s r b)
    unfolding limited
    limited-Since true = context-Since
    limited-Since false = error-Keeps pf s r 429 _

  verified-Since :
      (at : ℕ) (b : Bool)
      → Csrf.verify pf.digests s.csrf at "/authorize"
          (oauth_params_of r)
          (csrf_nonce pf r)
          (r.post_form "csrf_token")
        ≡ b
      → Keeps (Since id c Q) (verified pf s r b)
  unfolding verified
  verified-Since at false e = error-Keeps pf s r 400 _
  verified-Since at true e =
      Keeps-bind (try_login pf s r) (limited pf s r) (try_login-Keeps pf s r) (limited-Since at e)

  -- Where every login for the code `c` earns `Q`, the login form keeps `Q` earned by every `c` in the store.
  pub authorize_post-Since : Keeps (Since id c Q) (handle_authorize_post pf s r)
  unfolding handle_authorize_post
  authorize_post-Since =
      Keeps-bind (stop_if r.malformed _) _ (Keeps-stop_if r.malformed _)
        λ (u : Unit {0}). Keeps-bind (now pf) _ (Keeps-now pf) λ (at : ℕ). verified-Since at _ refl
