-- ===== src/Clients/Resources.antt =====
-- internal/idp/clients.go: the optional registry of roles per audience.
use minidp.Base.{
  String, ◌==◌, not, ◌||◌, List, [], ◌∷◌, Option, none, some, contains, Map, empty, put,
}
use minidp.Strings.{contains_blank}
use minidp.Errors.{
  Result, ok, ◌>>=◌, ◌>>◌, refuse_if, free_of_whitespace, duplicate_res_audience,
  app_roles_required, duplicate_app_role, cc_role_not_defined, user_role_not_defined, Error,
}
use minidp.Clients.{User, Client, ResourceDefinition, audience_of}
use minidp.Clients.Validate.{is_empty}

unfoldable pub scan_app_roles : List String → List String → Result (List String)
scan_app_roles defined [] = ok defined
scan_app_roles defined (role ∷ roles) = do
  refuse_if (role == "" || contains_blank role) free_of_whitespace
  refuse_if (contains defined role) duplicate_app_role
  scan_app_roles (role ∷ defined) roles

-- The set of roles that a resource defines, as a list.
unfoldable pub validate_resource_roles : ResourceDefinition → Result (List String)
validate_resource_roles res = do
  refuse_if (is_empty res.app_roles) app_roles_required
  scan_app_roles [] res.app_roles

unfoldable pub require_roles : Error → List String → List String → Result (Unit {0})
require_roles e defined [] = ok tt
require_roles e defined (role ∷ roles) = do
  refuse_if (not (contains defined role)) e
  require_roles e defined roles

unfoldable pub require_user_roles : List String → List User → Result (Unit {0})
require_user_roles defined [] = ok tt
require_user_roles defined (u ∷ us) = do
  require_roles user_role_not_defined defined u.roles
  require_user_roles defined us

unfoldable pub check_roles : Client → Option (List String) → Result (Unit {0})
check_roles c none = ok tt
check_roles c (some defined) = do
  require_roles cc_role_not_defined defined c.client_credentials_roles
  require_user_roles defined c.users

-- validateClientRolesAgainstRegistry
unfoldable pub validate_client_roles : Map (List String) → Client → Result (Unit {0})
validate_client_roles roles c = check_roles c (roles (audience_of c))

unfoldable pub scan_clients : Map (List String) → List Client → Result (Unit {0})
scan_clients roles [] = ok tt
scan_clients roles (c ∷ cs) = do validate_client_roles roles c; scan_clients roles cs

-- The loop over the resources; `seen` holds the audiences before.
unfoldable pub scan_resources :
    List String → Map (List String) → List ResourceDefinition → Result (Map (List String))
scan_resources seen roles [] = ok roles
scan_resources seen roles (res ∷ rest) = do
  refuse_if (res.audience == "" || contains_blank res.audience) free_of_whitespace
  refuse_if (contains seen res.audience) duplicate_res_audience
  defined ← validate_resource_roles res
  scan_resources (res.audience ∷ seen) (put res.audience defined roles) rest

unfoldable pub validate_resource_registry :
    List ResourceDefinition → List Client → Result (Unit {0})
validate_resource_registry resources clients = do
  roles ← scan_resources [] empty resources
  scan_clients roles clients
