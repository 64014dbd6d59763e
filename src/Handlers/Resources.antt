-- ===== src/Handlers/Resources.antt =====
-- internal/idp/handlers.go: the endpoints that read, check or end what the token endpoint issued.
pub mod Revoked
pub mod Logout
pub mod Kinds
pub mod Released
use minidp.Base.{
  ℕ, suc, ◌+◌, ◌*◌, String, ◌==◌, Bool, true, false, not, ◌&&◌, Option, none, some, List, [], ◌∷◌,
  empty, put, if◌then◌else◌,
}
use minidp.Durations.{shift, second}
use minidp.Strings.{strip_fold, trim_space}
use minidp.Errors.{Result, ok, err}
use minidp.Store.{deny_jti, revoke_token, revoke_family}
use minidp.Clients.{User}
use minidp.Clients.Validate.{is_empty}
use minidp.Clients.Registry.{
  RegisteredClient, UserStore, lookup, audience_allowed, client_for_audience,
}
use minidp.Tokens.{parse_scopes, has_scope}
use minidp.Tokens.Claims.{
  Value, Claims, text, flag, other, claim_string, get_audience, get_expiration,
}
use minidp.Keys.{Token, typ_access_token, typ_id_token, verify_key}
use minidp.Server.{Platform, Server, World}
use minidp.Server.Exec.{
  Exec, go, Reply, error, json, done, message, redirect, pure, stop_if, now, ◌>>◌, with_store,
  with_store_once, ◌>>=◌,
}
use minidp.Handlers.{Request}
use minidp.Handlers.ClientAuth.{require_client_auth, invalid_client}
use minidp.Handlers.Accept.{bearer_token, accept_token, accept_hint}
use minidp.Handlers.Authorize.{registered_entry, entries}

-- addScopeClaims
abbrev put_claim : Bool → String → String → Claims → Claims
put_claim wanted key value out =
    if wanted && not (value == "") then put key (text value) out else out

unfoldable pub add_scope_claims : Bool → Bool → String → String → String → Claims → Claims
add_scope_claims want_profile want_email username name email out =
    put_claim want_email "email" email (
      put_claim want_profile "name" name (put_claim want_profile "preferred_username" username out))

users_of : Option RegisteredClient → Option UserStore
users_of none = none
users_of (some rc) = some rc.users

or_users : Option UserStore → Option UserStore → Option UserStore
or_users none o = o
or_users (some st) o = some st

audience_users : Server → List String → Option UserStore
unfolding users_of
audience_users s [] = none
audience_users s (aud ∷ rest) = users_of (client_for_audience s.clients aud)

client_users : Server → String → Option UserStore
unfolding users_of
client_users s id = if id == "" then none else users_of (lookup s.clients id)

found_user : String → Option UserStore → Option User
found_user sub none = none
found_user sub (some st) = st sub

describe : Claims → Bool → Bool → Option User → Claims → Claims
unfolding add_scope_claims
describe claims want_profile want_email (some u) out =
    add_scope_claims want_profile want_email u.username u.name u.email out
describe claims want_profile want_email none out =
    add_scope_claims want_profile want_email (claim_string claims "preferred_username") ""
      (claim_string claims "email") out

unfoldable pub userinfo_claims : Server → Claims → List String → Claims
unfolding or_users audience_users client_users found_user describe
userinfo_claims s claims scopes =
    let sub = claim_string claims "sub" in
    let users =
      or_users (client_users s (claim_string claims "client_id"))
        (audience_users s (get_audience claims)) in
    describe claims (has_scope scopes "profile") (has_scope scopes "email") (found_user sub users)
      (put "sub" (text sub) empty)

abbrev invalid_token : Reply
invalid_token = error 401 "invalid_token"

abbrev inactive : Reply
inactive = json (put "active" (flag false) empty)

-- A claim that is missing is written as null.
abbrev or_null : Option Value → Value
or_null none = other
or_null (some v) = v

module _ (pf : Platform) (s : Server) where
  -- parseAccessToken: the parser reads the clock, and so does the denylist.
  unfoldable pub parse_access_token : String → Bool → Exec (Result Claims)
  parse_access_token raw require_audience w = (
    go (
        accept_token s (pf.clock (suc w.reads)) require_audience w.store
          (pf.parse_valid (verify_key s.keys) s.issuer (pf.clock w.reads) raw)),
    record w { reads = suc (suc w.reads) },
  )

  -- parseIDTokenHint
  unfoldable pub parse_id_token_hint : String → Result (Claims × RegisteredClient)
  parse_id_token_hint hint = accept_hint s (pf.parse_signed (verify_key s.keys) hint)

  scoped_userinfo : Claims → Reply
  scoped_userinfo claims =
      let scopes = parse_scopes (claim_string claims "scope") in
      if not (has_scope scopes "openid")
      then error 403 "insufficient_scope"
      else json (userinfo_claims s claims scopes)

  answer_userinfo : Result Claims → Reply
  unfolding scoped_userinfo
  answer_userinfo (err e) = invalid_token
  answer_userinfo (ok claims) = scoped_userinfo claims

  unfoldable pub handle_userinfo : Request → Exec Reply
  unfolding answer_userinfo
  handle_userinfo r = do
    parsed ← parse_access_token (bearer_token r) true
    pure (answer_userinfo parsed)

  answer_introspect : Result Claims → Reply
  answer_introspect (err e) = inactive
  answer_introspect (ok claims) =
      let sub = text (claim_string claims "sub") in
      json (
        put "active" (flag true) (
          put "sub" sub (
            put "client_id" (or_null (claims "client_id")) (
              put "scope" (text (claim_string claims "scope")) (
                put "iss" (or_null (claims "iss")) (
                  put "aud" (or_null (claims "aud")) (
                    put "exp" (or_null (claims "exp"))
                      (put "iat" (or_null (claims "iat")) (put "username" sub empty)))))))))

  module _ (r : Request) where
    -- The guards that introspection and revocation share: the body's error counts if the body is
    -- parsed here for the first time.
    abbrev with_credentials : Reply → Exec Reply → Exec Reply
    with_credentials unreadable next = do
      stop_if (not (require_client_auth s r pf).0) invalid_client
      stop_if (r.malformed && not (require_client_auth s r pf).1) unreadable
      next

    unfoldable pub handle_introspect : Exec Reply
    unfolding answer_introspect
    handle_introspect =
        with_credentials inactive (do
          parsed ← parse_access_token (r.post_form "token") true
          pure (answer_introspect parsed))

    unfoldable pub until_of : ℕ → Option ℕ → ℕ
    until_of at none = shift at s.access_token_ttl
    until_of at (some exp) = exp * second

    unfoldable pub revoke_parsed : String → Result Claims → Exec (Unit {0})
    unfolding until_of
    revoke_parsed token (err e) = with_store_once pf (λ t. revoke_token t token)
    revoke_parsed token (ok claims) = if claim_string claims "jti" == "" then pure tt else (do
      at ← now pf
      with_store (deny_jti (claim_string claims "jti") (until_of at (get_expiration claims))))

    unfoldable pub revoke_presented_token : String → Exec (Unit {0})
    unfolding revoke_parsed
    revoke_presented_token token = do
      parsed ← parse_access_token token false
      revoke_parsed token parsed

    unfoldable pub handle_revoke : Exec Reply
    handle_revoke = with_credentials done (
        if r.post_form "token" == ""
        then pure done
        else (do revoke_presented_token (r.post_form "token"); pure done))

    unfoldable pub end_family : RegisteredClient → String → Exec (Option RegisteredClient)
    end_family rc sid =
        if sid == ""
        then pure (some rc)
        else (do with_store_once pf (λ t. revoke_family t sid); pure (some rc))

    unfoldable pub end_hinted : Result (Claims × RegisteredClient) → Exec (Option RegisteredClient)
    unfolding end_family
    end_hinted (err e) = pure none
    end_hinted (ok (claims, rc)) = end_family rc (claim_string claims "sid")

    unfoldable pub hinted : Exec (Option RegisteredClient)
    unfolding end_hinted
    hinted =
        if r.query "id_token_hint" == ""
        then pure none
        else end_hinted (parse_id_token_hint (r.query "id_token_hint"))

    unfoldable pub named : Option RegisteredClient → Option RegisteredClient
    named (some rc) = some rc
    named none = if r.query "client_id" == "" then none else lookup s.clients (r.query "client_id")

    unfoldable pub registered_logout_redirect : String → String → String
    registered_logout_redirect id raw =
        registered_entry (entries (s.clients.logout_redirects id)) raw

    unfoldable pub leave : String → Option RegisteredClient → Reply
    unfolding registered_logout_redirect
    leave target none = message 200 "You have been signed out."
    leave target (some rc) =
        let allowed = registered_logout_redirect rc.client.client_id target in
        if not (target == "") && not (allowed == "")
        then redirect allowed []
        else message 200 "You have been signed out."

    unfoldable pub handle_end_session : Exec Reply
    unfolding hinted named leave
    handle_end_session = do
      rc ← hinted
      pure (leave (r.query "post_logout_redirect_uri") (named rc))
