-- ===== src/Ctl/Changes.antt =====
-- cmd/clientctl/main.go: the entry that `client add` builds, and the changes of `client update`.
pub mod Keeps
use minidp.Base.{
  String, ◌==◌, Bool, true, false, not, ◌&&◌, ◌||◌, List, [], ◌∷◌, contains, if◌then◌else◌,
}
use minidp.Errors.{Result, ok, ◌>>=◌, ◌>>◌, refuse_if, ctl, type_must_be, confidential_needs}
use minidp.Clients.{Client, confidential, type_public, type_confidential}
use minidp.Ctl.{parse_list, effective_grant_types}
use minidp.Ctl.Console.{Console, resolve_new_secret}

-- The flags of `client add` and `client update`, those of clientSelector first.
pub record ClientFlags : Type 0 where
  pub file : String
  pub client : String
  pub typ : String
  pub secret : String
  pub audience : String
  pub grant_types : String
  pub cc_scopes : String
  pub cc_roles : String
  pub allowed_scopes : String
  pub redirect : String
  pub post_logout : String
  pub origin : String

-- `provided` holds the names of the flags that were set.
pub record ClientChangeSpec : Type 0 where
  pub f : ClientFlags
  pub provided : List String

abbrev pub is_type : String → Bool
is_type typ = typ == type_public || typ == type_confidential

-- The entry that `client add` builds, with its secret.
unfoldable pub client_of : ClientFlags → String → Client
unfolding parse_list
client_of f secret = record {
  client_id = f.client;
  type = f.typ;
  client_secret = secret;
  audience = f.audience;
  grant_types = parse_list f.grant_types;
  client_credentials_scopes = parse_list f.cc_scopes;
  allowed_scopes = parse_list f.allowed_scopes;
  client_credentials_roles = parse_list f.cc_roles;
  redirect_uris = parse_list f.redirect;
  post_logout_redirect_uris = parse_list f.post_logout;
  allowed_origins = parse_list f.origin;
  users = [];
}

unfoldable pub new_client : Console → ClientFlags → Result Client
unfolding client_of confidential
new_client console f =
    let client = client_of f "" in
    if confidential client
    then (do
      secret ← resolve_new_secret console f.secret
      ok (record client { client_secret = secret }))
    else ok client

-- A client, and whether a flag has changed it.
abbrev pub Change : Type 0
Change = Client × Bool

-- The secret is dropped when a confidential client becomes public.
unfoldable pub drop_secret : Bool → Client → Client
unfolding confidential
drop_secret previous client =
    if previous && not (confidential client) then record client { client_secret = "" } else client

unfoldable pub apply_type : ClientChangeSpec → Client → Result Change
unfolding drop_secret confidential
apply_type spec client =
    if contains spec.provided "type"
    then (do
      refuse_if (not (is_type spec.f.typ)) (ctl type_must_be)
      ok (drop_secret (confidential client) (record client { type = spec.f.typ }), true))
    else ok (client, false)

unfoldable pub apply_secret : Console → ClientChangeSpec → Change → Result Change
apply_secret console spec (client, changed) =
    if contains spec.provided "secret"
    then (do
      secret ← resolve_new_secret console spec.f.secret
      ok (record client { client_secret = secret }, true))
    else ok (client, changed)

unfoldable pub apply_client_profile_change : Console → ClientChangeSpec → Client → Result Change
unfolding apply_type apply_secret
apply_client_profile_change console spec client = do
  typed ← apply_type spec client
  change ← apply_secret console spec typed
  refuse_if (confidential change.0 && change.0.client_secret == "") (ctl confidential_needs)
  ok change

-- if spec.provid[flag] { ...; changed = true }
abbrev pub apply_flag : ClientChangeSpec → String → (Client → Client) → Change → Change
apply_flag spec flag change (client, changed) =
    if contains spec.provided flag then (change client, true) else (client, changed)

unfoldable pub apply_flags : ClientChangeSpec → List (String × (Client → Client)) → Change → Change
apply_flags spec [] ch = ch
apply_flags spec ((flag, change) ∷ rest) ch = apply_flags spec rest (apply_flag spec flag change ch)

-- The flags in the order of the code, and what each sets.
abbrev pub endpoint_flags : ClientFlags → List (String × (Client → Client))
endpoint_flags f =
    ("audience", λ c. record c { audience = f.audience })
    ∷ ("grant-types", λ c. record c { grant_types = effective_grant_types f.grant_types })
    ∷ ("cc-scopes", λ c. record c { client_credentials_scopes = parse_list f.cc_scopes })
    ∷ ("cc-roles", λ c. record c { client_credentials_roles = parse_list f.cc_roles })
    ∷ ("allowed-scopes", λ c. record c { allowed_scopes = parse_list f.allowed_scopes })
    ∷ ("redirect", λ c. record c { redirect_uris = parse_list f.redirect })
    ∷ ("post-logout", λ c. record c { post_logout_redirect_uris = parse_list f.post_logout })
    ∷ ("origin", λ c. record c { allowed_origins = parse_list f.origin })
    ∷ []

unfoldable pub apply_client_endpoint_changes : ClientChangeSpec → Client → Change
unfolding apply_flags parse_list effective_grant_types
apply_client_endpoint_changes spec client = apply_flags spec (endpoint_flags spec.f) (client, false)

abbrev pub both : Bool → Change → Change
both changed (client, more) = (client, changed || more)

unfoldable pub apply_client_changes : Console → ClientChangeSpec → Client → Result Change
unfolding apply_client_profile_change apply_client_endpoint_changes
apply_client_changes console spec client = do
  profile ← apply_client_profile_change console spec client
  ok (both profile.1 (apply_client_endpoint_changes spec profile.0))
