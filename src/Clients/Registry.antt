-- ===== src/Clients/Registry.antt =====
-- internal/idp/clients.go: the index of the registered clients.
use minidp.Base.{
  String, ◌==◌, Bool, true, false, ◌&&◌, ◌||◌, List, [], ◌∷◌, ◌++◌, Option, none, some, contains,
  Map, empty, put, if◌then◌else◌,
}
use Prim.Native.String.{◌++◌ as str_append}
use minidp.Strings.{trim_space, trim_prefix, trim_last}
use minidp.Errors.{
  Result, ok, ◌>>◌, refuse_if, no_clients_registered, no_users_registered, duplicate_client_id,
}
use minidp.Clients.{
  User, Client, confidential, allows_grant, interactive, audience_of, grant_client_credentials,
}
use minidp.Clients.Validate.{Url, is_empty}

-- The accounts of a client by name. The hash that equalises response times has no effect on results.
abbrev pub UserStore : Type 0
UserStore = Map User

unfoldable pub index_users : UserStore → List User → UserStore
index_users m [] = m
index_users m (u ∷ us) = index_users (put u.username u m) us

-- A Go set of strings.
abbrev pub Set : Type 0
Set = String → Bool

abbrev pub add : String → Set → Set
add k s j = k == j || s j

abbrev pub no_strings : Set
no_strings j = false

pub record RegisteredClient : Type 0 where
  pub users : UserStore
  pub explicit_origins : Set
  pub client : Client

pub record ClientRegistry : Type 0 where
  pub by_id : Map RegisteredClient
  pub redirects : Map (List String)
  pub logout_redirects : Map (List String)
  pub audiences : Set
  pub origins : Set
  pub ids : List String
  pub has_confidential : Bool

abbrev pub empty_registry : ClientRegistry
empty_registry = record {
  by_id = empty;
  redirects = empty;
  logout_redirects = empty;
  audiences = no_strings;
  origins = no_strings;
  ids = [];
  has_confidential = false;
}

unfoldable pub explicit_origins_of : List String → Set → Set
explicit_origins_of [] s = s
explicit_origins_of (o ∷ os) s = explicit_origins_of os (add (trim_last b'/' o) s)

unfoldable pub register : Client → RegisteredClient
register c = record {
  users = index_users empty c.users;
  explicit_origins = explicit_origins_of c.allowed_origins no_strings;
  client = c;
}

module _ (parse_url : String → Option Url) where
  unfoldable pub add_host : Option Url → Set → Set
  add_host none s = s
  add_host (some u) s =
      if u.host == "" then s else add (str_append u.scheme (str_append "://" u.host)) s

  -- The hosts of the redirect URIs, as origins.
  unfoldable pub add_hosts : List String → Set → Set
  unfolding add_host
  add_hosts [] s = s
  add_hosts (raw ∷ raws) s = add_hosts raws (add_host (parse_url raw) s)

  unfoldable pub index : Client → ClientRegistry → ClientRegistry
  index c r = record {
    by_id = put c.client_id (register c) r.by_id;
    redirects = put c.client_id c.redirect_uris r.redirects;
    logout_redirects = put c.client_id c.post_logout_redirect_uris r.logout_redirects;
    audiences = add (audience_of c) r.audiences;
    origins = λ o. (register c).explicit_origins o || add_hosts c.redirect_uris r.origins o;
    ids = r.ids ++ c.client_id ∷ [];
    has_confidential = r.has_confidential || confidential c;
  }

  unfoldable pub is_registered : String → ClientRegistry → Bool
  is_registered id r = elim (r.by_id id) [ none ↦ false | some _ ↦ true ]

  -- The loop of newClientRegistry.
  unfoldable pub index_clients : List Client → ClientRegistry → Result ClientRegistry
  unfolding index is_registered
  index_clients [] r = ok r
  index_clients (c ∷ cs) r = do
    refuse_if (interactive c && is_empty c.users) no_users_registered
    refuse_if (is_registered c.client_id r) duplicate_client_id
    index_clients cs (index c r)

  unfoldable pub new_client_registry : List Client → Result ClientRegistry
  new_client_registry cs = do
    refuse_if (is_empty cs) no_clients_registered
    index_clients cs empty_registry

unfoldable pub lookup : ClientRegistry → String → Option RegisteredClient
lookup r id = r.by_id id

unfoldable pub any_confidential : ClientRegistry → Bool
any_confidential r = r.has_confidential

abbrev pub with_client {ℓ} : {A : Type ℓ} → Option RegisteredClient → A → (RegisteredClient → A) → A
with_client none a f = a
with_client (some rc) a f = f rc

unfoldable pub any_grants : Map RegisteredClient → List String → Bool
any_grants m [] = false
any_grants m (id ∷ ids) =
    with_client (m id) false (λ rc. allows_grant rc.client grant_client_credentials)
    || any_grants m ids

unfoldable pub any_client_credentials : ClientRegistry → Bool
unfolding any_grants
any_client_credentials r = any_grants r.by_id r.ids

unfoldable pub audience_allowed : ClientRegistry → List String → Bool
audience_allowed r [] = false
audience_allowed r (a ∷ aud) = r.audiences a || audience_allowed r aud

first_for_audience : Map RegisteredClient → String → List String → Option RegisteredClient
first_for_audience m aud [] = none
first_for_audience m aud (id ∷ ids) =
    let rest = first_for_audience m aud ids in
    with_client (m id) rest (λ rc. if audience_of rc.client == aud then some rc else rest)

unfoldable pub client_for_audience : ClientRegistry → String → Option RegisteredClient
unfolding first_for_audience
client_for_audience r aud = first_for_audience r.by_id aud r.ids

unfoldable pub collect_scopes : List String → List String → List String
collect_scopes seen [] = []
collect_scopes seen (sc ∷ scs) =
    let old = collect_scopes seen scs in
    let new = sc ∷ collect_scopes (sc ∷ seen) scs in if contains seen sc then old else new

-- The scopes of all clients, in file order.
unfoldable pub all_scopes : Map RegisteredClient → List String → List String
all_scopes m [] = []
all_scopes m (id ∷ ids) = with_client (m id) [] (λ rc. rc.client.allowed_scopes) ++ all_scopes m ids

unfoldable pub delegated_scopes : ClientRegistry → List String
unfolding collect_scopes all_scopes
delegated_scopes r = collect_scopes [] (all_scopes r.by_id r.ids)

-- The method `resolveClientCredentialsScopes`.
unfoldable pub pick_scope : String → List String → Option (List String)
pick_scope requested [] = none
pick_scope requested (sc ∷ scs) =
    if sc == requested then some (sc ∷ []) else pick_scope requested scs

unfoldable pub resolve_cc_scopes : Client → String → Option (List String)
unfolding pick_scope
resolve_cc_scopes c raw =
    let requested = trim_space raw in
    let audience = trim_prefix "api://" (audience_of c) in
    if requested == ""
    then some c.client_credentials_scopes
    else (if requested == str_append audience "/.default"
          || requested == str_append "api://" (str_append audience "/.default")
        then some c.client_credentials_scopes
        else pick_scope requested c.client_credentials_scopes)

unfoldable pub allows_scope : Client → String → Bool
allows_scope c sc = contains c.allowed_scopes sc

unfoldable pub redirect_uri_allowed : Client → String → Bool
redirect_uri_allowed c raw = contains c.redirect_uris raw
