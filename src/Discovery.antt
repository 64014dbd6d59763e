-- ===== src/Discovery.antt =====
-- internal/idp/discovery.go: the discovery document, the published keys of key.go, and the CORS
-- headers of server.go.
pub mod Advertised
pub mod Origins
use Prim.Native.String.{◌++◌}
use minidp.Base.{
  String, ◌==◌, Bool, not, ◌&&◌, Option, none, some, List, [], ◌∷◌, Map, empty, put, if◌then◌else◌,
}
use mathlib.Core.List.{◌++◌ as ◌+++◌}
use minidp.Strings.{trim_last}
use minidp.Clients.{grant_authorization_code, grant_refresh_token, grant_client_credentials}
use minidp.Clients.Registry.{
  ClientRegistry, any_confidential, any_client_credentials, delegated_scopes,
}
use minidp.Tokens.Claims.{Claims, text, texts}
use minidp.Keys.{SigningKey, KeySet}
use minidp.Keys.Material.{KeyLibrary}
use minidp.Server.{Server}
use minidp.Handlers.Authorize.{supported_scopes}

unfoldable pub grant_types_supported : ClientRegistry → List String
grant_types_supported r =
    (grant_authorization_code ∷ grant_refresh_token ∷ [])
    +++ (if any_client_credentials r then grant_client_credentials ∷ [] else [])

unfoldable pub scopes_supported : ClientRegistry → List String
scopes_supported r = supported_scopes +++ delegated_scopes r

unfoldable pub client_auth_methods : ClientRegistry → List String
client_auth_methods r =
    "none" ∷ (if any_confidential r then "client_secret_basic" ∷ "client_secret_post" ∷ [] else [])

abbrev pub claims_supported : List String
claims_supported =
    "iss" ∷ "sub" ∷ "aud" ∷ "exp" ∷ "iat" ∷ "nbf" ∷ "client_id" ∷ "azp" ∷ "scp" ∷ "roles" ∷ "idtyp"
    ∷ "nonce" ∷ "preferred_username" ∷ "email" ∷ "name" ∷ []

unfoldable pub discovery_document : Server → Claims
unfolding grant_types_supported scopes_supported client_auth_methods
discovery_document s =
    let methods = client_auth_methods s.clients in
    put "issuer" (text s.issuer) (
      put "authorization_endpoint" (text (s.issuer ++ "/authorize")) (
        put "token_endpoint" (text (s.issuer ++ "/token")) (
          put "jwks_uri" (text (s.issuer ++ "/jwks")) (
            put "userinfo_endpoint" (text (s.issuer ++ "/userinfo")) (
              put "revocation_endpoint" (text (s.issuer ++ "/revoke")) (
                put "introspection_endpoint" (text (s.issuer ++ "/introspect")) (
                  put "end_session_endpoint" (text (s.issuer ++ "/end_session")) (
                    put "response_types_supported" (texts ("code" ∷ [])) (
                      put "grant_types_supported" (texts (grant_types_supported s.clients)) (
                        put "subject_types_supported" (texts ("public" ∷ [])) (
                          put "id_token_signing_alg_values_supported" (texts ("RS256" ∷ [])) (
                            put "token_endpoint_auth_methods_supported" (texts methods) (
                              put "revocation_endpoint_auth_methods_supported" (texts methods) (
                                put "introspection_endpoint_auth_methods_supported" (texts methods)
                                  (put "code_challenge_methods_supported" (texts ("S256" ∷ [])) (
                                    put "scopes_supported" (texts (scopes_supported s.clients)) (
                                      put "claims_supported" (texts claims_supported)
                                        empty)))))))))))))))))

-- A JSON Web Key. Its fields kty, use and alg are always "RSA", "sig" and "RS256".
pub record Jwk : Type 0 where
  pub kid : String
  pub n : String
  pub e : String

unfoldable pub jwk_of : KeyLibrary → SigningKey → Jwk
jwk_of lib k = record { kid = k.kid; n = lib.public_n k.key; e = lib.public_e k.key }

unfoldable pub jwks_of : KeyLibrary → List SigningKey → List Jwk
unfolding jwk_of
jwks_of lib [] = []
jwks_of lib (k ∷ ks) = jwk_of lib k ∷ jwks_of lib ks

-- The keys of the document that JWKS encodes.
unfoldable pub jwks : KeyLibrary → KeySet → List Jwk
unfolding jwks_of
jwks lib ks = jwks_of lib ks.published

-- withCORS: the origin that a response grants, if any.
unfoldable pub granted_origin : ClientRegistry → String → Option String
granted_origin r origin =
    if not (origin == "") && r.origins (trim_last b'/' origin) then some origin else none
