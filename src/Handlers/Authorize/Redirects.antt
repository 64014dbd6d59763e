-- ===== src/Handlers/Authorize/Redirects.antt =====
-- Where the authorization endpoint of internal/idp/handlers.go sends a browser.
use mathlib.Core.Path.{subst}
use minidp.Base.{
  ℕ, String, ◌==◌, ◌≡◌, ◌≢◌, refl, sym, Option-cases, Bool, true, false, Option, none, some, List,
  [], ◌∷◌, if◌then◌else◌, contains, Bool-cases, inl, inr, eq_iff, eq_refl, arith,
}
use minidp.Csrf
use minidp.Store.{add_code}
use minidp.Clients.Registry.{RegisteredClient, lookup}
use minidp.Server.{Platform, Server, World}
use minidp.Server.Exec.{
  plain, form, message, Reply, redirect, now, random, stop_if, lift, reply_of, with_store_twice,
}
use minidp.Server.Exec.Ends.{
  Stops, Ends, StopsIn, Ends-bind, Ends-pure, Stops-pure, Stops-answer, Stops-lift, Stops-bind,
  Stops-stop_if, Stops-now, Stops-random, Stops-if, Ends-if, Stops-with_store_twice,
}
use minidp.Handlers.{Request}
use minidp.Handlers.Authorize.{
  csrf_nonce, code_of, auth_code_ttl, oauth_params_of, registered_entry, entries,
  registered_redirect, redirect_to, redirect_to_client, fresh_nonce, browser_nonce,
  render_login_page, render_authorize_error, oauth_context_of, client_for_authorize, binding_of,
  continue_get, handle_authorize_get, answer_code, complete_authorize, continue_login,
  continue_context, authorize_context, limited, try_login, verified, handle_authorize_post,
}

pub registered_entry_lem :
    (us : List String) (raw : String)
    → registered_entry us raw ≢ ""
    → (registered_entry us raw ≡ raw) × (contains us raw ≡ true)
unfolding registered_entry
registered_entry_lem [] raw h = absurd (h refl)
registered_entry_lem (u ∷ us) raw h =
    ground (arith, eq_iff u raw, eq_refl raw, registered_entry_lem us raw)

-- A redirect goes to the URL that was asked for, and some client has registered it.
abbrev pub IsSafe : Server → (String → String) → Reply → Type 0
IsSafe s q (redirect target ps) =
    (q "redirect_uri" ≡ target)
    × ((id : String) × (contains (entries (s.clients.redirects id)) target ≡ true))
IsSafe s q _ = Unit {0}

module _ (pf : Platform) (s : Server) (r : Request) where
  target-IsSafe :
      (q : String → String) (id state target : String) (extra : List (String × String))
      → (target ≢ ""
          → (q "redirect_uri" ≡ target)
            × (contains (entries (s.clients.redirects id)) target ≡ true))
      → IsSafe s q (redirect_to pf state target extra)
  unfolding redirect_to
  target-IsSafe q id state target extra h = elim (Option-cases (pf.parse_url target)) [
    | inl e ↦
        let page : redirect_to pf state target extra ≡ message 400 "Invalid redirect_uri." =
          ground (arith, e) in
        subst (IsSafe s q) (sym page) tt
    | inr (url, e) ↦ elim (Bool-cases (target == "")) [
      | inl k ↦
          let page : redirect_to pf state target extra ≡ message 400 "Invalid redirect_uri." =
            ground (arith, e, k) in
          subst (IsSafe s q) (sym page) tt
      | inr k ↦
          let fit = h (λ p. ground (arith, k, p, eq_iff target "")) in
          let sent : redirect_to pf state target extra
              ≡ redirect target (if state == "" then extra else ("state", state) ∷ extra) =
            ground (arith, e, k) in
          subst (IsSafe s q) (sym sent) (fit.0, (id, fit.1))
    ]
  ]

  redirect-IsSafe :
      (rc : RegisteredClient) (q : String → String) (extra : List (String × String))
      → IsSafe s q (redirect_to_client pf s rc q extra)
  unfolding redirect_to_client registered_redirect
  redirect-IsSafe rc q extra =
      let listed = entries (s.clients.redirects rc.client.client_id) in
      target-IsSafe q rc.client.client_id (q "state") (registered_entry listed (q "redirect_uri"))
        extra
        (λ some_url.
          let fit = registered_entry_lem listed (q "redirect_uri") some_url in
          (sym fit.0, rw fit.0 fit.1))

  client-IsSafe : (q p : String → String) → StopsIn (IsSafe s q) (client_for_authorize s p)
  unfolding client_for_authorize binding_of
  client-IsSafe q p = elim (Option-cases (lookup s.clients (p "client_id"))) [
    | inl e ↦ rw e (ground arith)
    | inr (rc, e) ↦ rw e (ground arith)
  ]

  module _ (q : String → String) where
    fresh-Stops : (o : Option String) → Stops (IsSafe s q) (fresh_nonce pf s r o)
    unfolding fresh_nonce
    fresh-Stops none = Stops-answer _ tt
    fresh-Stops (some cookie) = Stops-pure _

    nonce-Stops : Stops (IsSafe s q) (browser_nonce pf s r)
    unfolding browser_nonce
    nonce-Stops =
        Stops-if _ _ _ (Stops-pure _) (Stops-bind (random pf) _ (Stops-random pf) fresh-Stops)

    page-Ends :
        (status : ℕ) (problem username : String) (hidden : List (String × String))
        → Ends (IsSafe s q) (render_login_page pf s r status problem username hidden)
    unfolding render_login_page
    page-Ends status problem username hidden =
        Ends-bind (browser_nonce pf s r) _ nonce-Stops λ (nonce : String × Option String).
          Ends-bind (stop_if r.malformed (plain 400 "malformed request")) _
            (Stops-stop_if r.malformed _ tt)
            λ (u : Unit {0}). Ends-bind (now pf) _ (Stops-now pf) λ (at : ℕ).
              Ends-pure
                (form status (record {
                  error = problem;
                  username = username;
                  hidden = hidden;
                  csrf_token =
                      Csrf.issue pf.digests s.csrf at "/authorize" (oauth_params_of r) nonce.0;
                  set_cookie = nonce.1;
                }))
                tt

    error-Ends :
        (status : ℕ) (problem : String)
        → Ends (IsSafe s q) (render_authorize_error pf s r status problem)
    unfolding render_authorize_error
    error-Ends status problem = page-Ends status problem "" _

  get-Ends : Ends (IsSafe s r.query) (handle_authorize_get pf s r)
  unfolding handle_authorize_get continue_get
  get-Ends =
      Ends-bind (lift (client_for_authorize s r.query)) _
        (Stops-lift _ (client-IsSafe r.query r.query))
        λ (rc : RegisteredClient).
          Ends-if _ _ _ (Ends-pure _ (redirect-IsSafe rc r.query _)) (page-Ends r.query 200 "" _ _)

  answered-Ends :
      (q : String → String) (rc : RegisteredClient) (o : Option String)
      → Ends (IsSafe s q) (answer_code pf s r rc q o)
  unfolding answer_code
  answered-Ends q rc none = error-Ends q 500 _
  answered-Ends q rc (some code) = Ends-pure _ (redirect-IsSafe rc q _)

  login-Ends :
      (q : String → String) (rc : RegisteredClient) (o : Option String)
      → Ends (IsSafe s q) (continue_login pf s r rc q o)
  unfolding continue_login complete_authorize
  login-Ends q rc none = page-Ends q 401 _ _ _
  login-Ends q rc (some sub) = Ends-bind (random pf) _ (Stops-random pf) λ (draw : Option String).
      Ends-bind
        (with_store_twice pf (λ t u. add_code t u draw (code_of pf s r q sub) auth_code_ttl))
        (answer_code pf s r rc q)
        (Stops-with_store_twice pf (λ t u. add_code t u draw (code_of pf s r q sub) auth_code_ttl))
        (answered-Ends q rc)

  context-Ends : Ends (IsSafe s (oauth_context_of r.post_form)) (authorize_context pf s r)
  unfolding authorize_context continue_context
  context-Ends =
      let q = oauth_context_of r.post_form in
      Ends-bind (lift (client_for_authorize s q)) _ (Stops-lift _ (client-IsSafe q q))
        λ (rc : RegisteredClient).
          Ends-if _ _ _ (Ends-pure _ (redirect-IsSafe rc q _)) (login-Ends q rc _)

  limited-Ends : (b : Bool) → Ends (IsSafe s (oauth_context_of r.post_form)) (limited pf s r b)
  unfolding limited
  limited-Ends true = context-Ends
  limited-Ends false = error-Ends (oauth_context_of r.post_form) 429 _

  try_login-Stops : Stops (IsSafe s (oauth_context_of r.post_form)) (try_login pf s r)
  unfolding try_login
  try_login-Stops = record { at = λ w. tt }

  verified-Ends : (b : Bool) → Ends (IsSafe s (oauth_context_of r.post_form)) (verified pf s r b)
  unfolding verified
  verified-Ends false = error-Ends (oauth_context_of r.post_form) 400 _
  verified-Ends true = Ends-bind (try_login pf s r) (limited pf s r) try_login-Stops limited-Ends

  post-Ends : Ends (IsSafe s (oauth_context_of r.post_form)) (handle_authorize_post pf s r)
  unfolding handle_authorize_post
  post-Ends =
      Ends-bind (stop_if r.malformed (message 400 "Malformed form submission.")) _
        (Stops-stop_if r.malformed _ tt)
        λ (u : Unit {0}). Ends-bind (now pf) _ (Stops-now pf) λ (at : ℕ). verified-Ends (
          Csrf.verify pf.digests s.csrf at "/authorize" (oauth_params_of r) (csrf_nonce pf r)
            (r.post_form "csrf_token"))

-- No open redirect: the authorization endpoint, on GET and on POST, redirects only to the redirect_uri of the
-- request, and only if some client has registered it.
pub authorize-IsSafe :
    (pf : Platform) (s : Server) (r : Request) (w : World)
    → IsSafe s r.query (reply_of (handle_authorize_get pf s r w).0)
      × IsSafe s (oauth_context_of r.post_form) (reply_of (handle_authorize_post pf s r w).0)
authorize-IsSafe pf s r w = ((get-Ends pf s r).at w, (post-Ends pf s r).at w)
