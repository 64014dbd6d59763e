-- ===== src/Clients/Sound.antt =====
-- What internal/idp/clients.go guarantees of a client that passes `validate`.
use minidp.Base.{
  String, ◌==◌, ◌≡◌, ◌≢◌, ap, ◌⊎◌, inl, inr, refl, Bool, true, false, not, ◌&&◌, ◌||◌, List, [],
  ◌∷◌, Option, none, some, contains, eq_iff, eq_refl, arith, All,
}
use minidp.Strings.{trim_space, contains_blank, trim_prefix, cut}
use minidp.Errors.{Result-cases, ok, refuse_if, >>-eq-ok}
use minidp.Clients.{
  or_default, Client, User, confidential, allows_grant, interactive, audience_of, type_public,
  type_confidential, grant_client_credentials,
}
use minidp.Clients.Users.{validate_users}
use minidp.Clients.Validate.{
  Url, is_empty, validate, validate_identity, validate_profile, validate_urls, validate_grants,
  validate_cc_roles, validate_allowed_scopes, validate_scope_list, check_parts, check_type,
  scan_grants, is_malformed,
}

-- A scope that a client may register: its parts name the client's own audience and a permission.
abbrev pub NamesOwn : String → Option (String × String) → Type 0
NamesOwn want none = ⊥
NamesOwn want (some (authority, name)) = (authority ≡ want) × (name ≢ "")

abbrev pub IsOwnScope : String → String → Type 0
IsOwnScope want sc = NamesOwn want (cut b'/' (trim_prefix "api://" sc))

-- No username twice, and none of those in `seen`.
abbrev pub distinct_names : List String → List User → Bool
distinct_names seen [] = true
distinct_names seen (u ∷ us) =
    not (contains seen u.username) && distinct_names (u.username ∷ seen) us

pub record IsWellFormed (c : Client) : Type 0 where
  pub id_present : c.client_id ≢ ""
  pub id_unblank : contains_blank c.client_id ≡ false
  pub secret :
      ((c.type ≡ type_public) × (c.client_secret ≡ ""))
      ⊎ ((c.type ≡ type_confidential) × (c.client_secret ≢ ""))
  pub machine :
      (allows_grant c grant_client_credentials ≡ false)
      ⊎ ((confidential c ≡ true) × (is_empty c.client_credentials_scopes ≡ false))
  pub app_roles :
      (is_empty c.client_credentials_roles ≡ true)
      ⊎ (allows_grant c grant_client_credentials ≡ true)
  pub own_scopes : All (IsOwnScope (trim_prefix "api://" (audience_of c))) c.allowed_scopes
  pub redirects : (interactive c ≡ false) ⊎ (is_empty c.redirect_uris ≡ false)
  pub names : distinct_names [] c.users ≡ true

scan_grants_lem :
    (seen : List String) (b r : Bool) (gs : List String)
    → scan_grants seen b gs ≡ ok r
    → r ≡ (b || contains gs grant_client_credentials)
unfolding scan_grants
scan_grants_lem seen b r [] h = ground arith
scan_grants_lem seen b r (g ∷ gs) h =
    ground (arith, scan_grants_lem (g ∷ seen) (b || g == grant_client_credentials) r gs)

default_has_no_cc :
    (gs : List String)
    → contains (or_default gs) grant_client_credentials ≡ contains gs grant_client_credentials
unfolding or_default
default_has_no_cc [] = refl
default_has_no_cc (g ∷ gs) = refl

allows_cc :
    (c : Client)
    → allows_grant c grant_client_credentials ≡ contains c.grant_types grant_client_credentials
unfolding allows_grant
allows_cc c = default_has_no_cc c.grant_types

check_parts_lem :
    (want : String) (o : Option (String × String)) → check_parts want o ≡ ok tt → NamesOwn want o
unfolding check_parts
check_parts_lem want none h = cc
check_parts_lem want (some (authority, name)) h =
    (ground (arith, eq_iff authority want), ground (arith, eq_iff name ""))

validate_scope_list_lem :
    (want : String) (scs : List String)
    → validate_scope_list want scs ≡ ok tt
    → All (IsOwnScope want) scs
unfolding validate_scope_list
validate_scope_list_lem want [] h = tt
validate_scope_list_lem want (sc ∷ scs) h =
    let rest = (>>-eq-ok (refuse_if (is_malformed sc) _) _ h).1 in
    let parts = >>-eq-ok (check_parts want (cut b'/' (trim_prefix "api://" sc))) _ rest in
    (check_parts_lem want _ parts.0, validate_scope_list_lem want scs parts.1)

validate_users_lem :
    (seen : List String) (us : List User)
    → validate_users seen us ≡ ok tt
    → distinct_names seen us ≡ true
unfolding validate_users
validate_users_lem seen [] h = refl
validate_users_lem seen (u ∷ us) h = ground (arith, validate_users_lem (u.username ∷ seen) us)

module _ (c : Client) where
  check_type_lem :
      check_type c ≡ ok tt
      → ((c.type ≡ type_public) × (c.client_secret ≡ ""))
        ⊎ ((c.type ≡ type_confidential) × (c.client_secret ≢ ""))
  unfolding check_type
  check_type_lem h =
      ground (
        arith,
        eq_iff c.type type_public,
        eq_iff c.type type_confidential,
        eq_iff c.client_secret "",
      )

  identity_lem :
      validate_identity c ≡ ok tt → (c.client_id ≢ "") × (contains_blank c.client_id ≡ false)
  unfolding validate_identity trim_space
  identity_lem h = (
    λ e. ground (
      arith,
      ap trim_space e,
      eq_refl (trim_space c.client_id),
      eq_iff (trim_space c.client_id) "",
    ),
    ground arith,
  )

  grants_lem :
      validate_grants c ≡ ok tt
      → (allows_grant c grant_client_credentials ≡ false)
        ⊎ ((confidential c ≡ true) × (is_empty c.client_credentials_scopes ≡ false))
  unfolding validate_grants
  grants_lem h = elim (Result-cases (scan_grants [] false c.grant_types)) [
    | inl (e, p) ↦ ground (arith, p)
    | inr (r, p) ↦ ground (arith, p, allows_cc c, scan_grants_lem [] false r c.grant_types p)
  ]

  cc_roles_lem :
      validate_cc_roles c ≡ ok tt
      → (is_empty c.client_credentials_roles ≡ true)
        ⊎ (allows_grant c grant_client_credentials ≡ true)
  unfolding validate_cc_roles
  cc_roles_lem h = ground arith

module _ (parse_url : String → Option Url) (c : Client) where
  urls_lem :
      validate_urls parse_url c ≡ ok tt
      → (interactive c ≡ false) ⊎ (is_empty c.redirect_uris ≡ false)
  unfolding validate_urls
  urls_lem h = ground arith

  pub validate-IsWellFormed : validate parse_url c ≡ ok tt → IsWellFormed c
  unfolding validate validate_profile
  validate-IsWellFormed h =
      let identity = >>-eq-ok (validate_identity c) _ h in
      let profile = >>-eq-ok (validate_profile c) _ identity.1 in
      let kind = >>-eq-ok (check_type c) _ profile.0 in
      let aud = >>-eq-ok (refuse_if (contains_blank (audience_of c)) _) _ kind.1 in
      let grant = >>-eq-ok (validate_grants c) _ aud.1 in
      let roles = >>-eq-ok (validate_cc_roles c) _ grant.1 in
      let urls = >>-eq-ok (validate_urls parse_url c) _ profile.1 in
      record {
        id_present = (identity_lem c identity.0).0;
        id_unblank = (identity_lem c identity.0).1;
        secret = check_type_lem c kind.0;
        machine = grants_lem c grant.0;
        app_roles = cc_roles_lem c roles.0;
        own_scopes =
            unfold validate_allowed_scopes in validate_scope_list_lem _ c.allowed_scopes roles.1;
        redirects = urls_lem urls.0;
        names = validate_users_lem [] c.users urls.1;
      }
