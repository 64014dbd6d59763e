-- ===== src/Handlers/Accept.antt =====
-- internal/idp/handlers.go: which tokens the resource endpoints and the logout accept.
use minidp.Base.{ℕ, String, ◌==◌, Bool, not, ◌&&◌, Option, none, some, List, [], ◌∷◌}
use minidp.Strings.{strip_fold, trim_space}
use minidp.Errors.{
  Result, ok, err, refuse_if, ◌>>◌, token_invalid, not_access_token, audience_missing,
  audience_rejected, token_revoked, not_id_token, issuer_foreign,
}
use minidp.Store.{Store, is_denied_jti}
use minidp.Clients.Validate.{is_empty}
use minidp.Clients.Registry.{RegisteredClient, lookup, audience_allowed, client_for_audience}
use minidp.Tokens.Claims.{Claims, claim_string, get_audience}
use minidp.Keys.{Token, typ_access_token, typ_id_token}
use minidp.Server.{Server}
use minidp.Handlers.{Request}

-- bearerToken
unfoldable pub bearer_token : Request → String
bearer_token r = elim (strip_fold "bearer " r.authorization) [
  | none ↦ ""
  | some rest ↦ trim_space rest
]

-- parseAccessToken, behind the library's parser; `later` is what the denylist's clock reads.
unfoldable pub accept_token : Server → ℕ → Bool → Store → Option Token → Result Claims
accept_token s later require_audience st none = err token_invalid
accept_token s later require_audience st (some t) = do
  refuse_if (not (t.typ == typ_access_token)) not_access_token
  refuse_if (is_empty (get_audience t.claims)) audience_missing
  refuse_if (require_audience && not (audience_allowed s.clients (get_audience t.claims)))
      audience_rejected
  refuse_if
      (not (claim_string t.claims "jti" == "")
        && is_denied_jti later (claim_string t.claims "jti") st)
      token_revoked
  ok t.claims

resolve_hint : Server → String → Result RegisteredClient
resolve_hint s aud = found (lookup s.clients aud) (client_for_audience s.clients aud)
  where
    found : Option RegisteredClient → Option RegisteredClient → Result RegisteredClient
    found (some rc) o = ok rc
    found none (some rc) = ok rc
    found none none = err audience_rejected

hinted_client : Server → List String → Result RegisteredClient
unfolding resolve_hint
hinted_client s [] = err audience_missing
hinted_client s (aud ∷ rest) = resolve_hint s aud

-- parseIDTokenHint, behind the library's parser
unfoldable pub accept_hint : Server → Option Token → Result (Claims × RegisteredClient)
unfolding hinted_client
accept_hint s none = err token_invalid
accept_hint s (some t) =
    refuse_if (not (t.typ == typ_id_token)) not_id_token
    >> (refuse_if (not (claim_string t.claims "iss" == s.issuer)) issuer_foreign
        >> pair (hinted_client s (get_audience t.claims)))
  where
    pair : Result RegisteredClient → Result (Claims × RegisteredClient)
    pair (ok rc) = ok (t.claims, rc)
    pair (err e) = err e
