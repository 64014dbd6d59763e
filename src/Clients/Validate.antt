-- ===== src/Clients/Validate.antt =====
-- internal/idp/clients.go: what a client of the clients file must satisfy. `parse_url` is net/url's
-- parser, `none` where it reports an error.
use minidp.Base.{
  String, ◌==◌, Bool, true, false, not, ◌&&◌, ◌||◌, List, [], ◌∷◌, Option, none, some, contains,
  if◌then◌else◌,
}
use minidp.Strings.{trim_space, contains_blank, trim_prefix, cut}
use minidp.Errors.{
  Result, ok, err, ◌>>=◌, ◌>>◌, refuse_if, client_id_empty, padded_value, value_whitespace,
  public_client_secret, confidential_no_secret, client_type_must_be, whitespace_entry,
  duplicate_cc_role, grant_types_allowed, duplicate_grant_type, grant_not_enabled,
  grant_wants_confident, cc_scopes_required, allowed_scope_form, allowed_scope_own_aud,
  redirect_uri_required, empty_value, url_absolute, duplicate_client_id, upstream,
}
use minidp.Clients.{
  Client, confidential, allows_grant, interactive, audience_of, type_public, type_confidential,
  grant_authorization_code, grant_refresh_token, grant_client_credentials,
}
use minidp.Clients.Users.{validate_users}

pub record Url : Type 0 where
  pub scheme : String
  pub host : String
  pub fragment : String

abbrev pub is_empty {ℓ} : {A : Type ℓ} → List A → Bool
is_empty [] = true
is_empty (x ∷ xs) = false

unfoldable pub validate_identity : Client → Result (Unit {0})
validate_identity c = do
  refuse_if (trim_space c.client_id == "") client_id_empty
  refuse_if (not (c.client_id == trim_space c.client_id)) padded_value
  refuse_if (contains_blank c.client_id) value_whitespace

-- An entry of a list of names: empty, padded or with white space inside.
abbrev pub is_malformed : String → Bool
is_malformed s = s == "" || (not (s == trim_space s) || contains_blank s)

unfoldable pub validate_cc_role_list : List String → List String → Result (Unit {0})
validate_cc_role_list seen [] = ok tt
validate_cc_role_list seen (role ∷ roles) = do
  refuse_if (is_malformed role) whitespace_entry
  refuse_if (contains seen role) duplicate_cc_role
  validate_cc_role_list (role ∷ seen) roles

unfoldable pub validate_cc_roles : Client → Result (Unit {0})
validate_cc_roles c = if is_empty c.client_credentials_roles then ok tt else (do
  refuse_if (not (allows_grant c grant_client_credentials)) grant_not_enabled
  validate_cc_role_list [] c.client_credentials_roles)

abbrev pub is_known_grant : String → Bool
is_known_grant g =
    g == grant_authorization_code || (g == grant_refresh_token || g == grant_client_credentials)

-- The loop over the grant types, which also finds out whether client_credentials is among them.
unfoldable pub scan_grants : List String → Bool → List String → Result Bool
scan_grants seen has_cc [] = ok has_cc
scan_grants seen has_cc (g ∷ gs) = do
  refuse_if (not (is_known_grant g)) grant_types_allowed
  refuse_if (contains seen g) duplicate_grant_type
  scan_grants (g ∷ seen) (has_cc || g == grant_client_credentials) gs

unfoldable pub validate_cc_scopes : List String → Result (Unit {0})
validate_cc_scopes [] = ok tt
validate_cc_scopes (sc ∷ scs) = do
  refuse_if (trim_space sc == "" || (not (sc == trim_space sc) || contains_blank sc))
      whitespace_entry
  validate_cc_scopes scs

unfoldable pub check_cc_grant : Client → Bool → Result (Unit {0})
check_cc_grant c false = refuse_if (not (is_empty c.client_credentials_scopes)) grant_not_enabled
check_cc_grant c true = do
  refuse_if (not (confidential c)) grant_wants_confident
  refuse_if (is_empty c.client_credentials_scopes) cc_scopes_required
  validate_cc_scopes c.client_credentials_scopes

unfoldable pub validate_grants : Client → Result (Unit {0})
unfolding check_cc_grant
validate_grants c = do has_cc ← scan_grants [] false c.grant_types; check_cc_grant c has_cc

-- The tests on what strings.Cut returns for a scope.
unfoldable pub check_parts : String → Option (String × String) → Result (Unit {0})
check_parts want none = err allowed_scope_form
check_parts want (some (authority, name)) = do
  refuse_if (authority == "" || name == "") allowed_scope_form
  refuse_if (not (authority == want)) allowed_scope_own_aud

unfoldable pub validate_scope_list : String → List String → Result (Unit {0})
unfolding check_parts
validate_scope_list want [] = ok tt
validate_scope_list want (sc ∷ scs) = do
  refuse_if (is_malformed sc) whitespace_entry
  check_parts want (cut b'/' (trim_prefix "api://" sc))
  validate_scope_list want scs

unfoldable pub validate_allowed_scopes : Client → Result (Unit {0})
validate_allowed_scopes c =
    validate_scope_list (trim_prefix "api://" (audience_of c)) c.allowed_scopes

-- The switch on the type of the client; the warning about a short secret is only logged.
unfoldable pub check_type : Client → Result (Unit {0})
check_type c =
    if c.type == type_public
    then refuse_if (not (c.client_secret == "")) public_client_secret
    else (if c.type == type_confidential
        then refuse_if (c.client_secret == "") confidential_no_secret
        else err client_type_must_be)

unfoldable pub validate_profile : Client → Result (Unit {0})
validate_profile c = do
  check_type c
  refuse_if (contains_blank (audience_of c)) value_whitespace
  validate_grants c
  validate_cc_roles c
  validate_allowed_scopes c

module _ (parse_url : String → Option Url) where
  check_url : Option Url → Result (Unit {0})
  check_url none = err upstream
  check_url (some u) =
      refuse_if
        (not (u.scheme == "http" || u.scheme == "https")
          || (u.host == "" || not (u.fragment == "")))
        url_absolute

  -- validateAbsoluteHTTPURL
  unfoldable pub validate_url : String → Result (Unit {0})
  unfolding check_url
  validate_url raw = do
    refuse_if (trim_space raw == "") empty_value
    check_url (parse_url (trim_space raw))

  unfoldable pub validate_url_list : List String → Result (Unit {0})
  validate_url_list [] = ok tt
  validate_url_list (raw ∷ raws) = do validate_url raw; validate_url_list raws

  unfoldable pub validate_urls : Client → Result (Unit {0})
  validate_urls c = do
    refuse_if (interactive c && is_empty c.redirect_uris) redirect_uri_required
    validate_url_list c.redirect_uris
    validate_url_list c.post_logout_redirect_uris
    validate_url_list c.allowed_origins

  -- The method `validate`, and `ValidateClient`.
  unfoldable pub validate : Client → Result (Unit {0})
  validate c = do
    validate_identity c
    validate_profile c
    validate_urls c
    validate_users [] c.users

  -- validateClientSlice; `seen` holds the client ids before.
  unfoldable pub validate_clients : List String → List Client → Result (Unit {0})
  validate_clients seen [] = ok tt
  validate_clients seen (c ∷ cs) = do
    validate c
    refuse_if (contains seen c.client_id) duplicate_client_id
    validate_clients (c.client_id ∷ seen) cs
