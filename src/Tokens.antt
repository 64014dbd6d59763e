-- ===== src/Tokens.antt =====
-- internal/idp/tokens.go and the scope helpers of server.go: what the issued tokens say.
pub mod Claims
pub mod Scopes
use minidp.Base.{
  ℕ, ◌/◌, String, ◌==◌, Bool, true, false, ◌||◌, ◌≡◌, refl, List, [], ◌∷◌, Option, none, some,
  contains, Map, if◌then◌else◌,
}
use minidp.Durations.{second}
use minidp.Strings.{fields, join, cut, trim_prefix}
use minidp.Clients.{User}

-- A lifetime is an int, kept as its word.
pub record TokenResponse : Type 0 where
  pub access_token : String
  pub id_token : String
  pub refresh_token : String
  pub token_type : String
  pub scope : String
  pub expires_in : ℕ

-- jwt.RegisteredClaims, with instants in seconds, as jwt.NewNumericDate truncates them.
pub record RegisteredClaims : Type 0 where
  pub issuer : String
  pub subject : String
  pub audience : List String
  pub expires_at : ℕ
  pub not_before : ℕ
  pub issued_at : ℕ
  pub id : String

pub record AccessClaims : Type 0 where
  pub registered : RegisteredClaims
  pub open registered use *
  pub client_id : String
  pub azp : String
  pub idtyp : String
  pub scp : String
  pub scope : String
  pub username : String
  pub email : String
  pub roles : List String

pub record IdClaims : Type 0 where
  pub registered : RegisteredClaims
  pub open registered use *
  pub azp : String
  pub nonce : String
  pub email : String
  pub name : String
  pub preferred_username : String
  pub session_id : String
  pub roles : List String

pub record ProfileData : Type 0 where
  pub email : String
  pub name : String
  pub roles : List String

unfoldable pub or_openid : List String → List String
or_openid [] = "openid" ∷ []
or_openid scopes = scopes

-- parseScopes: the loop drops empty fields, of which strings.Fields returns none.
unfoldable pub parse_scopes : String → List String
unfolding or_openid
parse_scopes raw = if raw == "" then "openid" ∷ [] else or_openid (fields raw)

-- The loop of joinScopes; `seen` holds the scopes before.
unfoldable pub ordered : List String → List String → List String
ordered seen [] = []
ordered seen (sc ∷ scs) =
    let skip = ordered seen scs in
    let keep = sc ∷ ordered (sc ∷ seen) scs in if sc == "" || contains seen sc then skip else keep

unfoldable pub join_scopes : List String → String
unfolding ordered
join_scopes scopes = join (ordered [] scopes)

unfoldable pub has_scope : List String → String → Bool
has_scope scopes want = contains scopes want

abbrev short_name : Option (String × String) → List String → List String
short_name none names = names
short_name (some (authority, name)) names = if name == "" then names else name ∷ names

unfoldable pub short_scope_names : List String → List String
short_scope_names [] = []
short_scope_names (sc ∷ scs) =
    short_name (cut b'/' (trim_prefix "api://" sc)) (short_scope_names scs)

profile_of : Option User → Bool → Bool → ProfileData
profile_of none want_profile want_email = record { email = ""; name = ""; roles = [] }
profile_of (some u) want_profile want_email = record {
  email = if want_email then u.email else "";
  name = if want_profile then u.name else "";
  roles = u.roles;
}

unfoldable pub profile_for : Map User → String → Bool → Bool → ProfileData
unfolding profile_of
profile_for store sub want_profile want_email = profile_of (store sub) want_profile want_email

unfoldable pub registered_claims : String → String → String → String → ℕ → ℕ → RegisteredClaims
registered_claims issuer audience sub jti now expires = record {
  issuer = issuer;
  subject = sub;
  audience = audience ∷ [];
  expires_at = expires / second;
  not_before = now / second;
  issued_at = now / second;
  id = jti;
}

unfoldable pub new_access_claims :
    RegisteredClaims → String → List String → Bool → ProfileData → AccessClaims
new_access_claims rc client_id scopes want_profile p = record {
  registered = rc;
  client_id = client_id;
  azp = client_id;
  idtyp = "user";
  scp = join (short_scope_names scopes);
  scope = join_scopes scopes;
  username = if want_profile then rc.subject else "";
  email = p.email;
  roles = p.roles;
}

unfoldable pub new_id_claims :
    RegisteredClaims → String → String → String → Bool → ProfileData → IdClaims
new_id_claims rc azp nonce family want_profile p = record {
  registered = rc;
  azp = azp;
  nonce = nonce;
  email = p.email;
  name = if want_profile then p.name else "";
  preferred_username = if want_profile then rc.subject else "";
  session_id = family;
  roles = p.roles;
}

short_test : short_scope_names ("openid" ∷ "api://policy-api/read" ∷ []) ≡ "read" ∷ []
unfolding short_scope_names cut trim_prefix
short_test = refl

join_test : join_scopes ("openid" ∷ "email" ∷ "openid" ∷ []) ≡ "openid email"
unfolding join_scopes join
join_test = refl
