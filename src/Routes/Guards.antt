-- ===== src/Routes/Guards.antt =====
-- internal/idp/server.go: the headers of every response, and preflight requests.
use minidp.Base.{
  String, ◌==◌, ◌≡◌, refl, not, ◌&&◌, Option, none, some, List, [], ◌∷◌, if◌then◌else◌,
}
use minidp.Strings.{trim_last}
use minidp.Errors.{ok}
use minidp.Clients.{Client}
use minidp.Clients.Validate.{Url}
use minidp.Clients.Registry.{new_client_registry}
use minidp.Clients.Origins.{any_client, grants_origin}
use minidp.Keys.Material.{KeyLibrary}
use minidp.Page.{LoginTemplate}
use minidp.Server.{Platform, Server, World}
use minidp.Discovery.{granted_origin}
use minidp.Discovery.Origins.{granted_origin_lem}
use minidp.Routes.{
  Http, no_content, Encoder, content_security_policy, cors_headers, headers_for, serve,
}

-- The value of a header.
abbrev pub header : String → List (String × String) → Option String
header name [] = none
header name ((key, value) ∷ rest) = if key == name then some value else header name rest

abbrev pub allowed : Option String → Option String
allowed none = none
allowed (some origin) = some "true"

abbrev pub varied : Option String → Option String
varied none = none
varied (some origin) = some "Origin"

-- The origin of a request, if a client of the file grants it.
abbrev pub granted_by : (String → Option Url) → List Client → String → Option String
granted_by parse_url cs origin =
    if not (origin == "") && any_client (grants_origin parse_url (trim_last b'/' origin)) cs
    then some origin
    else none

module _ (lib : KeyLibrary) (enc : Encoder) (pf : Platform) (s : Server) (lt : LoginTemplate) where
  pub record IsGuarded (headers : List (String × String)) (granted : Option String) : Type 0 where
    pub policy :
        header "Content-Security-Policy" headers ≡ some (content_security_policy lib enc pf s lt)
    pub frames : header "X-Frame-Options" headers ≡ some "DENY"
    pub sniffing : header "X-Content-Type-Options" headers ≡ some "nosniff"
    pub referrer : header "Referrer-Policy" headers ≡ some "strict-origin-when-cross-origin"
    pub methods : header "Access-Control-Allow-Methods" headers ≡ some "GET, POST, OPTIONS"
    pub allows : header "Access-Control-Allow-Headers" headers ≡ some "Content-Type, Authorization"
    pub origin : header "Access-Control-Allow-Origin" headers ≡ granted
    pub credentials : header "Access-Control-Allow-Credentials" headers ≡ allowed granted
    pub varies : header "Vary" headers ≡ varied granted

  headers_for-IsGuarded :
      (o : String) (granted : Option String)
      → granted_origin s.clients o ≡ granted
      → IsGuarded (headers_for lib enc pf s lt o) granted
  unfolding headers_for cors_headers
  headers_for-IsGuarded o none e = record {
    policy = refl;
    frames = refl;
    sniffing = refl;
    referrer = refl;
    methods = rw e refl;
    allows = rw e refl;
    origin = rw e refl;
    credentials = rw e refl;
    varies = rw e refl;
  }
  headers_for-IsGuarded o (some origin) e = record {
    policy = refl;
    frames = refl;
    sniffing = refl;
    referrer = refl;
    methods = rw e refl;
    allows = rw e refl;
    origin = rw e refl;
    credentials = rw e refl;
    varies = rw e refl;
  }

  -- Every response has the four security headers, and names the methods and the headers that are allowed. Suppose that
  -- the server's registry was built from a list of clients: a response then allows an origin, with credentials and a
  -- Vary header, exactly if the request names one that a client of the list grants. A preflight request
  -- gets an empty answer and changes nothing.
  pub serve-IsGuarded :
      (parse_url : String → Option Url) (cs : List Client) (h : Http) (w : World)
      → new_client_registry parse_url cs ≡ ok s.clients
      → let (resp, w') = serve lib enc pf s lt h w in
        IsGuarded resp.headers (granted_by parse_url cs h.origin)
        × ((h.method ≡ "OPTIONS") → (resp.answer ≡ no_content) × (w' ≡ w))
  unfolding serve
  serve-IsGuarded parse_url cs h w built = (
    headers_for-IsGuarded h.origin (granted_by parse_url cs h.origin)
        (granted_origin_lem parse_url cs s.clients h.origin built),
    λ e. rw e (refl, refl),
  )
