-- ===== src/Routes/Effects.antt =====
-- internal/idp/server.go: which requests change the tokens that the server keeps.
use minidp.Base.{
  ℕ, String, ◌==◌, ◌≡◌, refl, sym, ap, ◌∙◌, Bool, true, false, ◌&&◌, ◌||◌, Option, none, some, List,
  [], ◌∷◌, All, if-cases, inl, inr, Bool-cases, arith, eq_iff,
}
use minidp.Clients.Registry.{RegisteredClient}
use minidp.Keys.Material.{KeyLibrary}
use minidp.Page.{LoginTemplate}
use minidp.Store.{Store}
use minidp.Server.{Platform, Server, World}
use minidp.Server.Exec.Keeps.{Keeps, keeps_rules}
use minidp.Handlers.{Request}
use minidp.Handlers.Authorize.{
  handle_authorize_get, continue_get, render_login_page, browser_nonce, fresh_nonce,
}
use minidp.Handlers.Resources.{handle_userinfo, handle_introspect, parse_access_token}
use minidp.Routes.{
  Endpoint, Route, routes, takes, find_route, or_landing, route, Http, Encoder, run_endpoint,
  run_routed, serve, discovery, key_set, authorize_get, authorize_post, landing, token, userinfo,
  introspect, revoke, end_session, static_css, static_logo, healthz, readyz,
}

-- The requests that may issue, consume or revoke something.
abbrev pub touches : String → String → Bool
touches method path =
    (method == "POST" && (path == "/authorize" || (path == "/token" || path == "/revoke")))
    || (takes "GET" method && path == "/end_session")

-- The endpoints that may.
abbrev pub writes : Endpoint → Bool
writes authorize_post = true
writes token = true
writes revoke = true
writes end_session = true
writes discovery = false
writes key_set = false
writes authorize_get = false
writes landing = false
writes userinfo = false
writes introspect = false
writes static_css = false
writes static_logo = false
writes healthz = false
writes readyz = false

abbrev Leads : String → String → Route → Type 0
Leads method path r =
    (takes r.verb method && r.path == path) ≡ true
    → writes r.endpoint ≡ true
    → touches method path ≡ true

find_route-Leads :
    (method path : String) (rs : List Route) (e : Endpoint)
    → All (Leads method path) rs
    → find_route method path rs ≡ some e
    → writes e ≡ true
    → touches method path ≡ true
unfolding find_route
find_route-Leads method path [] e a h x = cc
find_route-Leads method path (r ∷ rs) e a h x =
    elim (if-cases (takes r.verb method && r.path == path) _ _ h) [
      | inl y ↦ a.0 y.0 (ground (arith, y.1, x))
      | inr y ↦ find_route-Leads method path rs e a.1 y.1 x
    ]

quiet : (b c : Bool) → b ≡ true → false ≡ true → c ≡ true
quiet b c t x = cc

-- A route for POST on a path that the requests to look out for include.
posted-Leads :
    (method path p : String)
    → (p == "/authorize" || (p == "/token" || p == "/revoke")) ≡ true
    → (takes "POST" method && p == path) ≡ true
    → true ≡ true
    → touches method path ≡ true
posted-Leads method path p one t x =
    let same : p ≡ path = ground (arith, t, eq_iff p path) in
    let listed : (path == "/authorize" || (path == "/token" || path == "/revoke")) ≡ true =
      ap (λ (q : String). q == "/authorize" || (q == "/token" || q == "/revoke")) (sym same)
      ∙ one in
    let verb : "POST" ≡ method = ground (arith, t, eq_iff "POST" method) in
    ground (arith, listed, eq_iff method "POST", verb)

left-Leads :
    (method path : String)
    → (takes "GET" method && "/end_session" == path) ≡ true
    → true ≡ true
    → touches method path ≡ true
left-Leads method path t x =
    ground (arith, t, eq_iff "/end_session" path, eq_iff path "/end_session")

routes-Leads : (method path : String) → All (Leads method path) routes
routes-Leads method path = (
  quiet _ _,
  (
    quiet _ _,
    (
      quiet _ _,
      (
        quiet _ _,
        (
          quiet _ _,
          (
            quiet _ _,
            (
              posted-Leads method path "/authorize" refl,
              (
                quiet _ _,
                (
                  posted-Leads method path "/token" refl,
                  (
                    quiet _ _,
                    (
                      quiet _ _,
                      (
                        quiet _ _,
                        (
                          posted-Leads method path "/revoke" refl,
                          (
                            left-Leads method path,
                            (quiet _ _, (quiet _ _, (quiet _ _, (quiet _ _, tt)))),
                          ),
                        ),
                      ),
                    ),
                  ),
                ),
              ),
            ),
          ),
        ),
      ),
    ),
  ),
)

or_landing-writes :
    (method path : String) (found : Option Endpoint) (e : Endpoint)
    → ((f : Endpoint) → found ≡ some f → writes f ≡ true → touches method path ≡ true)
    → or_landing method found ≡ some e
    → writes e ≡ true
    → touches method path ≡ true
unfolding or_landing
or_landing-writes method path (some f) e k h x = k e h x
or_landing-writes method path none e k h x = elim (if-cases (takes "GET" method) _ _ h) [
  | inl y ↦
      (let same : false ≡ writes e = ap (λ (o : Option Endpoint). written_by o) y.1 in
        cc (same ∙ x))
  | inr y ↦ cc
]
  where
    written_by : Option Endpoint → Bool
    written_by none = false
    written_by (some e) = writes e

-- Only the requests to look out for are routed to an endpoint that writes.
route-writes :
    (method path : String) (e : Endpoint)
    → route method path ≡ some e
    → writes e ≡ true
    → touches method path ≡ true
unfolding route
route-writes method path e h x =
    or_landing-writes method path (find_route method path routes) e
      (λ f g y. find_route-Leads method path routes f (routes-Leads method path) g y) h x

module _ (lib : KeyLibrary) (enc : Encoder) (pf : Platform) (s : Server) (lt : LoginTemplate) where
  module _ (r : Request) (P : Store → Type 0) where
    fresh_nonce-Keeps : (o : Option String) → Keeps P (fresh_nonce pf s r o)
    unfolding fresh_nonce
    fresh_nonce-Keeps none = record { at = λ w h. h }
    fresh_nonce-Keeps (some cookie) = record { at = λ w h. h }

    browser_nonce-Keeps : Keeps P (browser_nonce pf s r)
    unfolding browser_nonce
    browser_nonce-Keeps = search (keeps_rules, fresh_nonce-Keeps)

    render_login_page-Keeps :
        (status : ℕ) (problem username : String) (hidden : List (String × String))
        → Keeps P (render_login_page pf s r status problem username hidden)
    unfolding render_login_page
    render_login_page-Keeps status problem username hidden =
        search (keeps_rules, browser_nonce-Keeps)

    continue_get-Keeps :
        (rc : RegisteredClient) (code : String) → Keeps P (continue_get pf s r rc code)
    unfolding continue_get
    continue_get-Keeps rc code = search (keeps_rules, render_login_page-Keeps)

    authorize_get-Keeps : Keeps P (handle_authorize_get pf s r)
    unfolding handle_authorize_get
    authorize_get-Keeps = search (keeps_rules, continue_get-Keeps)

    parse_access_token-Keeps :
        (raw : String) (require : Bool) → Keeps P (parse_access_token pf s raw require)
    unfolding parse_access_token
    parse_access_token-Keeps raw require = record { at = λ w h. h }

    userinfo-Keeps : Keeps P (handle_userinfo pf s r)
    unfolding handle_userinfo
    userinfo-Keeps = search (keeps_rules, parse_access_token-Keeps)

    introspect-Keeps : Keeps P (handle_introspect pf s r)
    unfolding handle_introspect
    introspect-Keeps = search (keeps_rules, parse_access_token-Keeps)

  pub run_endpoint-same :
      (e : Endpoint) (r : Request) (w : World)
      → writes e ≡ false
      → (run_endpoint lib enc pf s lt e r w).1.store ≡ w.store
  unfolding run_endpoint
  run_endpoint-same authorize_get r w h =
      (authorize_get-Keeps r (λ (st : Store). st ≡ w.store)).at w refl
  run_endpoint-same userinfo r w h = (userinfo-Keeps r (λ (st : Store). st ≡ w.store)).at w refl
  run_endpoint-same introspect r w h = (introspect-Keeps r (λ (st : Store). st ≡ w.store)).at w refl
  run_endpoint-same authorize_post r w h = cc
  run_endpoint-same token r w h = cc
  run_endpoint-same revoke r w h = cc
  run_endpoint-same end_session r w h = cc
  run_endpoint-same discovery r w h = refl
  run_endpoint-same key_set r w h = refl
  run_endpoint-same landing r w h = refl
  run_endpoint-same static_css r w h = refl
  run_endpoint-same static_logo r w h = refl
  run_endpoint-same healthz r w h = refl
  run_endpoint-same readyz r w h = refl

  routed-same :
      (method path : String) (o : Option Endpoint) (r : Request) (w : World)
      → route method path ≡ o
      → touches method path ≡ false
      → (run_routed lib enc pf s lt o r w).1.store ≡ w.store
  unfolding run_routed
  routed-same method path none r w h t = refl
  routed-same method path (some e) r w h t = elim (Bool-cases (writes e)) [
    | inl x ↦ (let z = route-writes method path e h x in cc)
    | inr x ↦ run_endpoint-same e r w x
  ]

  -- A request changes codes, refresh tokens, the ids of access tokens or the denied ones only if it is a POST to the
  -- authorization, the token or the revocation endpoint, or a GET or HEAD of the logout.
  pub serve-same :
      (h : Http) (w : World)
      → touches h.method h.path ≡ false
      → (serve lib enc pf s lt h w).1.store ≡ w.store
  unfolding serve
  serve-same h w t = elim (Bool-cases (h.method == "OPTIONS")) [
    | inl e ↦ rw e refl
    | inr e ↦ rw e (routed-same h.method h.path (route h.method h.path) h.request w refl t)
  ]
