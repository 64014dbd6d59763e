-- ===== src/Handlers/Resources/Released.antt =====
-- internal/idp/handlers.go: what userinfo tells, and to whom introspection answers.
use minidp.Base.{suc, String, ◌≡◌, true, false, none, some, List}
use minidp.Errors.{ok}
use minidp.Tokens.{parse_scopes, has_scope}
use minidp.Tokens.Claims.{Claims, text, claim_string}
use minidp.Keys.{verify_key}
use minidp.Server.{Platform, Server, World}
use minidp.Handlers.{Request}
use minidp.Handlers.Accept.{bearer_token, accept_token}

-- A claim that the scopes do not ask for is left out, and the subject is told.
pub record IsScoped (scopes : List String) (sub : String) (out : Claims) : Type 0 where
  pub subject : out "sub" ≡ some (text sub)
  pub email : has_scope scopes "email" ≡ false → out "email" ≡ none
  pub name :
      has_scope scopes "profile" ≡ false → (out "name" ≡ none) × (out "preferred_username" ≡ none)

module _ (pf : Platform) (s : Server) where
  -- The claims are those of a token that was accepted, and they keep to its scopes.
  pub record IsReleased (r : Request) (w : World) (out : Claims) : Type 0 where
    pub claims : Claims
    pub accepted :
        accept_token s
          (pf.clock (suc w.reads))
          true
          w.store
          (pf.parse_valid (verify_key s.keys) s.issuer (pf.clock w.reads) (bearer_token r))
        ≡ ok claims
    pub openid : has_scope (parse_scopes (claim_string claims "scope")) "openid" ≡ true
    pub scoped :
        IsScoped (parse_scopes (claim_string claims "scope")) (claim_string claims "sub") out
