-- ===== src/Routes/Advertised.antt =====
-- internal/idp/discovery.go and server.go: the endpoints that the discovery document names are routed.
use Prim.Native.String.{◌++◌}
use minidp.Base.{
  String, ◌==◌, ◌≡◌, refl, sym, ◌∙◌, Bool, true, ◌||◌, Option, none, some, List, [], ◌∷◌, All,
  if-cases, inl, inr, eq_iff, arith, if◌then◌else◌,
}
use mathlib.Core.Path.{subst}
use minidp.Tokens.Claims.{Value, text, number, texts, flag, other}
use minidp.Server.{Server}
use minidp.Discovery.{
  discovery_document, grant_types_supported, scopes_supported, client_auth_methods,
  claims_supported,
}
use minidp.Routes.{
  Endpoint, route, find_route, or_landing, token, authorize_get, authorize_post, key_set, userinfo,
  revoke, introspect, end_session,
}

-- A field of the discovery document, a method, the path behind the issuer, and the handler.
abbrev pub Advertised : Type 0
Advertised = String × String × String × Endpoint

abbrev pub advertised : List Advertised
advertised =
    ("authorization_endpoint", "GET", "/authorize", authorize_get)
    ∷ ("authorization_endpoint", "POST", "/authorize", authorize_post)
    ∷ ("token_endpoint", "POST", "/token", token)
    ∷ ("jwks_uri", "GET", "/jwks", key_set)
    ∷ ("userinfo_endpoint", "GET", "/userinfo", userinfo)
    ∷ ("userinfo_endpoint", "POST", "/userinfo", userinfo)
    ∷ ("revocation_endpoint", "POST", "/revoke", revoke)
    ∷ ("introspection_endpoint", "POST", "/introspect", introspect)
    ∷ ("end_session_endpoint", "GET", "/end_session", end_session)
    ∷ []

abbrev pub Reaches : Server → Advertised → Type 0
Reaches s (field, method, path, endpoint) =
    (discovery_document s field ≡ some (text (s.issuer ++ path)))
    × (route method path ≡ some endpoint)

-- The names of the fields in the list, and of the issuer.
abbrev pub names_url : String → List Advertised → Bool
names_url field [] = "issuer" == field
names_url field ((name, method, path, endpoint) ∷ rest) = name == field || names_url field rest

each-Reaches : (s : Server) → All (Reaches s) advertised
unfolding discovery_document route find_route or_landing
each-Reaches s = (
  (refl, refl),
  (
    (refl, refl),
    (
      (refl, refl),
      (
        (refl, refl),
        ((refl, refl), ((refl, refl), ((refl, refl), ((refl, refl), ((refl, refl), tt))))),
      ),
    ),
  ),
)

-- The document as a list of fields.
abbrev document_fields : Server → List (String × Value)
document_fields s =
    ("issuer", text s.issuer)
    ∷ ("authorization_endpoint", text (s.issuer ++ "/authorize"))
    ∷ ("token_endpoint", text (s.issuer ++ "/token"))
    ∷ ("jwks_uri", text (s.issuer ++ "/jwks"))
    ∷ ("userinfo_endpoint", text (s.issuer ++ "/userinfo"))
    ∷ ("revocation_endpoint", text (s.issuer ++ "/revoke"))
    ∷ ("introspection_endpoint", text (s.issuer ++ "/introspect"))
    ∷ ("end_session_endpoint", text (s.issuer ++ "/end_session"))
    ∷ ("response_types_supported", texts ("code" ∷ []))
    ∷ ("grant_types_supported", texts (grant_types_supported s.clients))
    ∷ ("subject_types_supported", texts ("public" ∷ []))
    ∷ ("id_token_signing_alg_values_supported", texts ("RS256" ∷ []))
    ∷ ("token_endpoint_auth_methods_supported", texts (client_auth_methods s.clients))
    ∷ ("revocation_endpoint_auth_methods_supported", texts (client_auth_methods s.clients))
    ∷ ("introspection_endpoint_auth_methods_supported", texts (client_auth_methods s.clients))
    ∷ ("code_challenge_methods_supported", texts ("S256" ∷ []))
    ∷ ("scopes_supported", texts (scopes_supported s.clients))
    ∷ ("claims_supported", texts (claims_supported))
    ∷ []

abbrev find_field : String → List (String × Value) → Option Value
find_field field [] = none
find_field field ((name, value) ∷ rest) =
    if name == field then some value else find_field field rest

document_fields_lem :
    (s : Server) (field : String)
    → discovery_document s field ≡ find_field field (document_fields s)
unfolding discovery_document
document_fields_lem s field = refl

-- A field with a single text is one of the list, or the issuer.
abbrev Named : String → Value → Type 0
Named name (text url) = names_url name advertised ≡ true
Named name (texts l) = Unit
Named name (number n) = Unit
Named name (flag b) = Unit
Named name other = Unit

document-Named : (s : Server) → All (λ (f : String × Value). Named f.0 f.1) (document_fields s)
document-Named s = (
  refl,
  (
    refl,
    (
      refl,
      (
        refl,
        (
          refl,
          (refl, (refl, (refl, (tt, (tt, (tt, (tt, (tt, (tt, (tt, (tt, (tt, (tt, tt))))))))))))),
        ),
      ),
    ),
  ),
)

Named-found :
    (field url : String) (fields : List (String × Value))
    → All (λ (f : String × Value). Named f.0 f.1) fields
    → find_field field fields ≡ some (text url)
    → names_url field advertised ≡ true
Named-found field url [] a h = absurd (missing h)
  where
    missing : {v : Value} → none ≡ some v → ⊥
    missing e = cc
Named-found field url ((name, value) ∷ rest) a h = elim (if-cases (name == field) _ _ h) [
  | inl e ↦
      (let same : name ≡ field = ground (arith, e.0, eq_iff name field) in
        let url_there : value ≡ text url = ground (arith, e.1) in
        subst (λ (n : String). names_url n advertised ≡ true) same
          (subst (λ (v : Value). Named name v) url_there a.0))
  | inr e ↦ Named-found field url rest a.1 e.1
]

-- Each endpoint of the list is a field of the discovery document, with a path behind the issuer that is routed, for
-- the method of the list, to the handler of the list. The document has no other field with a single text than these
-- and the issuer.
pub advertised-Reaches :
    (s : Server)
    → All (Reaches s) advertised
      × ((field url : String)
          → discovery_document s field ≡ some (text url)
          → names_url field advertised ≡ true)
advertised-Reaches s = (
  each-Reaches s,
  λ field url h.
      Named-found field url (document_fields s) (document-Named s)
        (sym (document_fields_lem s field) ∙ h),
)
