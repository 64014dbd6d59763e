-- ===== src/Clients.antt =====
-- internal/idp/clients.go: a client of the clients file, and users.go: an account of it.
pub mod Users
pub mod Hashes
pub mod Validate
pub mod Resources
pub mod Registry
pub mod Sound
pub mod Grants
pub mod Index
pub mod Origins
pub mod Accounts
pub mod Files
use minidp.Base.{String, ◌==◌, Bool, ◌||◌, List, [], ◌∷◌, contains, if◌then◌else◌}

pub record User : Type 0 where
  pub username : String
  pub password_hash : String
  pub email : String
  pub name : String
  pub roles : List String

pub record Client : Type 0 where
  pub client_id : String
  pub type : String
  pub client_secret : String
  pub audience : String
  pub grant_types : List String
  pub client_credentials_scopes : List String
  pub allowed_scopes : List String
  pub client_credentials_roles : List String
  pub redirect_uris : List String
  pub post_logout_redirect_uris : List String
  pub allowed_origins : List String
  pub users : List User

pub record ResourceDefinition : Type 0 where
  pub audience : String
  pub app_roles : List String

pub record ClientsFile : Type 0 where
  pub clients : List Client
  pub resources : List ResourceDefinition

abbrev pub type_public : String
type_public = "public"

abbrev pub type_confidential : String
type_confidential = "confidential"

abbrev pub grant_authorization_code : String
grant_authorization_code = "authorization_code"

abbrev pub grant_refresh_token : String
grant_refresh_token = "refresh_token"

abbrev pub grant_client_credentials : String
grant_client_credentials = "client_credentials"

unfoldable pub confidential : Client → Bool
confidential c = c.type == type_confidential

unfoldable pub or_default : List String → List String
or_default [] = grant_authorization_code ∷ grant_refresh_token ∷ []
or_default gs = gs

unfoldable pub grants : Client → List String
unfolding or_default
grants c = or_default c.grant_types

unfoldable pub allows_grant : Client → String → Bool
unfolding grants
allows_grant c grant = contains (grants c) grant

unfoldable pub interactive : Client → Bool
unfolding allows_grant
interactive c = allows_grant c grant_authorization_code || allows_grant c grant_refresh_token

-- The method `audience`, of the field `Audience`.
unfoldable pub audience_of : Client → String
audience_of c = if c.audience == "" then c.client_id else c.audience
