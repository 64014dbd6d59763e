-- ===== src/Examples/Access.antt =====
-- Runs of revocation and logout in internal/idp/handlers.go.
use minidp.Base.{ℕ, String, min, ◌≡◌, ◌≢◌, refl, true, false, [], ◌∷◌, some, put, empty, arith}
use minidp.Errors.{ok}
use minidp.Clients.{Client, confidential, audience_of}
use minidp.Clients.Registry.{
  index, empty_registry, lookup, register, client_for_audience, index_users,
}
use minidp.Tokens.{has_scope}
use minidp.Keys.{Token}
use minidp.Tokens.Claims.{Claims, text, number, texts, claim_string, get_expiration, get_audience}
use minidp.Server.{Platform, Server}
use minidp.Server.Exec.{go, redirect}
use minidp.Store.Denial.{Outlives}
use mathlib.Core.Path.{subst}
use minidp.Routes.{Http}
use minidp.Routes.Codes.{serve_all}
use minidp.Routes.Denied.{IsUnique, revocation, revoked_stays_refused}
use minidp.Examples.Keys.{plain_keys}
use minidp.Examples.Running.{encoder}
use minidp.Examples.Traced.{plain_page}
use minidp.Handlers.{Request}
use minidp.Handlers.ClientAuth.{require_client_auth}
use minidp.Handlers.Accept.{accept_token}
use minidp.Handlers.Resources.{handle_end_session, parse_access_token, userinfo_claims}
use minidp.Handlers.Resources.Revoked.{Revokes}
use minidp.Handlers.Resources.Logout.{IsAllowedExit, handle_end_session-IsAllowedExit}
use minidp.Handlers.Authorize.{registered_entry}
use minidp.Store.{Store, is_denied_jti}
use minidp.Examples.{app, one_url, differ}
use minidp.Examples.Endpoint.{platform, server, start, form, redeem}

abbrev held_claims : Claims
held_claims = put "jti" (text "j1") (put "exp" (number 7) (put "aud" (texts ("app" ∷ [])) empty))

abbrev held : Token
held = record { typ = "at+jwt"; claims = held_claims }

-- A platform whose parser takes every text for the same access token.
abbrev checking : Platform
checking = record platform { parse_valid = λ key_of issuer at raw. some held }

abbrev revoke_it : Request
revoke_it = record redeem {
  post_form = form (("client_id", "app") ∷ ("client_secret", "s3cret") ∷ ("token", "t") ∷ []);
}

may_revoke : Revokes checking server revoke_it "t"
unfolding require_client_auth confidential index lookup register
may_revoke = record { allowed = refl; readable = refl; named = refl; given = differ "t" "" refl }

accepted : accept_token server 11 false start.store (some held) ≡ ok held_claims
unfolding accept_token get_audience claim_string is_denied_jti
accepted = refl

held_jti : claim_string held_claims "jti" ≢ ""
unfolding claim_string
held_jti = differ "j1" "" refl

held_expiry : get_expiration held_claims ≡ some 7
unfolding get_expiration
held_expiry = refl

held-Outlives : Outlives 60 (start.store.access_jti (claim_string held_claims "jti"))
unfolding claim_string
held-Outlives = omega arith

-- The same platform, with a clock that stops at the instant 60.
abbrev stopping : Platform
stopping = record checking { clock = λ n. min n 60 }

still_may_revoke : Revokes stopping server revoke_it "t"
unfolding require_client_auth confidential index lookup register
still_may_revoke = record {
  allowed = refl;
  readable = refl;
  named = refl;
  given = differ "t" "" refl;
}

only_held :
    (later : ℕ) (st : Store) (claims : Claims)
    → accept_token server later false st (some held) ≡ ok claims
    → held_claims ≡ claims
unfolding accept_token
only_held later st claims h = ground (arith, h)

held-IsUnique : IsUnique stopping server 0 (claim_string held_claims "jti") 7
held-IsUnique = record {
  fresh = λ n le.
      some_differ "drawn" (claim_string held_claims "jti")
        (unfold claim_string in differ "drawn" "j1" refl);
  expiry = λ claims a named.
      subst (λ (c : Claims). get_expiration c ≡ some 7) (only_held _ a.1 claims a.3) held_expiry;
}
  where
    some_differ : (a b : String) → a ≢ b → some a ≢ some b
    some_differ a b h = λ e. h (ground (arith, e))

abbrev post_token : Http
post_token = record { method = "POST"; path = "/token"; origin = ""; request = redeem }

revoked_stays_refused_example :
    (parse_access_token stopping server "t" true (
      serve_all plain_keys encoder stopping server plain_page
        (revocation "" revoke_it ∷ post_token ∷ revocation "" revoke_it ∷ [])
        start)).0
    ≢ go (ok held_claims)
revoked_stays_refused_example =
    revoked_stays_refused plain_keys encoder stopping server plain_page revoke_it "" "t" start
      held_claims 7 60 still_may_revoke accepted held_jti held_expiry
      (post_token ∷ revocation "" revoke_it ∷ []) "t" true (omega arith) held-Outlives
      (λ n. ground arith) held-IsUnique

abbrev leaving : Client
leaving = record app { post_logout_redirect_uris = "https://app/bye" ∷ [] }

abbrev leaving_server : Server
leaving_server = record server { clients = index one_url leaving empty_registry }

abbrev logout : Request
logout = record redeem {
  query = form (("client_id", "app") ∷ ("post_logout_redirect_uri", "https://app/bye") ∷ []);
}

left :
    handle_end_session platform leaving_server logout start
    ≡ (go (redirect "https://app/bye" []), start)
unfolding handle_end_session registered_entry index lookup register
left = refl

handle_end_session-IsAllowedExit_example : IsAllowedExit leaving_server logout "https://app/bye"
handle_end_session-IsAllowedExit_example =
    handle_end_session-IsAllowedExit platform leaving_server logout start start "https://app/bye" []
      left

abbrev openid_claims : Claims
openid_claims =
    put "sub" (text "alice")
      (put "scope" (text "openid email") (put "aud" (texts ("app" ∷ [])) empty))

-- A platform whose parser takes every text for an access token of alice.
abbrev knowing : Platform
knowing = record platform {
  parse_valid = λ key_of issuer at raw. some (record { typ = "at+jwt"; claims = openid_claims });
}

abbrev told : Claims
told = userinfo_claims server openid_claims ("openid" ∷ "email" ∷ [])

email_told : told "email" ≡ some (text "a@x")
unfolding userinfo_claims claim_string get_audience client_for_audience index audience_of register
    index_users has_scope
email_told = refl
