-- ===== src/Routes.antt =====
-- internal/idp/server.go: the routes, the readiness probe and the headers that every response has;
-- handleDiscovery and handleJWKS of discovery.go, and the handlers of handlers.go for the landing page
-- and the assets. A path is clean, and the headers that a handler sets itself are left out, except the
-- type of an answer that is only bytes.
pub mod Guards
pub mod Effects
pub mod Codes
pub mod Denied
pub mod Advertised
pub mod Reached
use minidp.Base.{
  ℕ, String, ◌==◌, Bool, ◌||◌, ◌&&◌, Option, none, some, List, [], ◌∷◌, ◌++◌, if◌then◌else◌, length,
}
use minidp.Clients.Registry.{ClientRegistry}
use minidp.Keys.{SigningKey}
use minidp.Keys.Material.{KeyLibrary}
use minidp.Tokens.Claims.{Claims}
use minidp.Page.{LoginTemplate}
use minidp.Server.{Platform, Server, World}
use minidp.Server.Exec.{Exec, Reply, json, message, plain, reply_of}
use minidp.Handlers.{Request}
use minidp.Handlers.Authorize.{handle_authorize_get, handle_authorize_post}
use minidp.Handlers.Resources.{
  handle_userinfo, handle_introspect, handle_revoke, handle_end_session,
}
use minidp.Handlers.TokenEndpoint.{handle_token}
use minidp.Discovery.{Jwk, discovery_document, jwks, granted_origin}

-- The handlers.
pub data Endpoint : Type 0 where
  discovery key_set authorize_get authorize_post landing token userinfo introspect : Endpoint
  revoke end_session static_css static_logo healthz readyz : Endpoint

pub record Route : Type 0 where
  pub verb : String
  pub path : String
  pub endpoint : Endpoint

abbrev on : String → String → Endpoint → Route
on verb path endpoint = record { verb = verb; path = path; endpoint = endpoint }

-- The calls of HandleFunc, but for the pattern `GET /`, which takes every path that no other takes.
abbrev pub routes : List Route
routes =
    on "GET" "/.well-known/openid-configuration" discovery
    ∷ on "GET" "/openid-configuration" discovery
    ∷ on "GET" "/.well-known/oauth-authorization-server" discovery
    ∷ on "GET" "/oauth2/jwks" key_set
    ∷ on "GET" "/jwks" key_set
    ∷ on "GET" "/authorize" authorize_get
    ∷ on "POST" "/authorize" authorize_post
    ∷ on "GET" "/login" landing
    ∷ on "POST" "/token" token
    ∷ on "GET" "/userinfo" userinfo
    ∷ on "POST" "/userinfo" userinfo
    ∷ on "POST" "/introspect" introspect
    ∷ on "POST" "/revoke" revoke
    ∷ on "GET" "/end_session" end_session
    ∷ on "GET" "/login.css" static_css
    ∷ on "GET" "/logo.svg" static_logo
    ∷ on "GET" "/healthz" healthz
    ∷ on "GET" "/readyz" readyz
    ∷ []

-- net/http: a pattern for GET takes HEAD as well.
abbrev pub takes : String → String → Bool
takes verb method = verb == method || (verb == "GET" && method == "HEAD")

unfoldable pub find_route : String → String → List Route → Option Endpoint
find_route method path [] = none
find_route method path (r ∷ rs) =
    if takes r.verb method && r.path == path then some r.endpoint else find_route method path rs

unfoldable pub or_landing : String → Option Endpoint → Option Endpoint
or_landing method (some e) = some e
or_landing method none = if takes "GET" method then some landing else none

-- The handler of a request; `none` where the method is not allowed.
unfoldable pub route : String → String → Option Endpoint
unfolding find_route or_landing
route method path = or_landing method (find_route method path routes)

-- What is written in answer to a request.
pub data Answer : Type 0 where
  no_content method_not_allowed : Answer
  -- a handler's reply
  reply : Reply → Answer
  -- a type and bytes, with status 200
  bytes : String → String → Answer
  -- the probe: status 503 with a reason, or status 200 with the number of published keys
  not_ready : String → Answer
  ready : ℕ → Answer

pub record Http : Type 0 where
  pub method : String
  pub path : String
  pub origin : String
  pub request : Request

pub record Response : Type 0 where
  pub headers : List (String × String)
  pub answer : Answer

-- encoding/json on the discovery document and on the key set.
pub record Encoder : Type 0 where
  pub marshal_document : Claims → Option String
  pub marshal_keys : List Jwk → Option String

abbrev pub landing_message : String
landing_message =
    "This is the identity provider of a registered OAuth2/OIDC client. Sign in happens through your application's authorization request to /authorize."

unfoldable pub json_or_error : Option String → Answer
json_or_error none = reply (plain 500 "internal error")
json_or_error (some raw) = bytes "application/json" raw

unfoldable pub rendered : ℕ → Option String → Answer
rendered published none = not_ready "discovery document does not render"
rendered published (some doc) =
    if doc == "" then not_ready "discovery document does not render" else ready published

unfoldable pub probe : List SigningKey → Option String → Answer
unfolding rendered
probe [] doc = not_ready "no signing key published in the JWKS"
probe (k ∷ ks) doc = rendered (length (k ∷ ks)) doc

abbrev pub replied : Exec Reply → World → Answer × World
replied program w = let (o, w') = program w in (reply (reply_of o), w')

abbrev pub answered : Reply × World → Answer × World
answered (r, w) = (reply r, w)

module _ (lib : KeyLibrary) (enc : Encoder) (pf : Platform) (s : Server) (lt : LoginTemplate) where
  unfoldable pub handle_readyz : Answer
  unfolding probe
  handle_readyz = probe s.keys.published (enc.marshal_document (discovery_document s))

  unfoldable pub handle_jwks : Answer
  unfolding json_or_error
  handle_jwks = json_or_error (enc.marshal_keys (jwks lib s.keys))

  unfoldable pub handle_discovery : Answer
  handle_discovery = reply (json (discovery_document s))

  unfoldable pub handle_landing : Answer
  handle_landing = reply (message 200 landing_message)

  unfoldable pub handle_static_css : Answer
  handle_static_css = bytes "text/css; charset=utf-8" lt.css

  unfoldable pub handle_static_logo : Answer
  handle_static_logo = bytes "image/svg+xml" lt.logo

  unfoldable pub run_endpoint : Endpoint → Request → World → Answer × World
  unfolding handle_jwks handle_readyz handle_discovery handle_landing handle_static_css
      handle_static_logo
  run_endpoint discovery r w = (handle_discovery, w)
  run_endpoint key_set r w = (handle_jwks, w)
  run_endpoint authorize_get r w = replied (handle_authorize_get pf s r) w
  run_endpoint authorize_post r w = replied (handle_authorize_post pf s r) w
  run_endpoint landing r w = (handle_landing, w)
  run_endpoint token r w = answered (handle_token pf s r w)
  run_endpoint userinfo r w = replied (handle_userinfo pf s r) w
  run_endpoint introspect r w = replied (handle_introspect pf s r) w
  run_endpoint revoke r w = replied (handle_revoke pf s r) w
  run_endpoint end_session r w = replied (handle_end_session pf s r) w
  run_endpoint static_css r w = (handle_static_css, w)
  run_endpoint static_logo r w = (handle_static_logo, w)
  run_endpoint healthz r w = (bytes "" "ok", w)
  run_endpoint readyz r w = (handle_readyz, w)

  unfoldable pub run_routed : Option Endpoint → Request → World → Answer × World
  unfolding run_endpoint
  run_routed none r w = (method_not_allowed, w)
  run_routed (some e) r w = run_endpoint e r w

  abbrev pub content_security_policy : String
  content_security_policy =
      "default-src 'self'; style-src 'self'; img-src 'self'; frame-ancestors 'none'; base-uri 'self'"

  unfoldable pub cors_headers : Option String → List (String × String)
  cors_headers none = []
  cors_headers (some origin) =
      ("Access-Control-Allow-Origin", origin)
      ∷ ("Access-Control-Allow-Credentials", "true")
      ∷ ("Vary", "Origin")
      ∷ []

  -- The headers that withCORS sets.
  unfoldable pub headers_for : String → List (String × String)
  unfolding cors_headers
  headers_for origin =
      ("Content-Security-Policy", content_security_policy)
        ∷ ("X-Frame-Options", "DENY")
        ∷ ("X-Content-Type-Options", "nosniff")
        ∷ ("Referrer-Policy", "strict-origin-when-cross-origin")
        ∷ cors_headers (granted_origin s.clients origin)
      ++ (("Access-Control-Allow-Methods", "GET, POST, OPTIONS")
          ∷ ("Access-Control-Allow-Headers", "Content-Type, Authorization")
          ∷ [])

  -- withCORS around the routes.
  unfoldable pub serve : Http → World → Response × World
  unfolding headers_for run_routed
  serve h w =
      let (a, w') =
        if h.method == "OPTIONS"
        then (no_content, w)
        else run_routed (route h.method h.path) h.request w in
      (record { headers = headers_for h.origin; answer = a }, w')
