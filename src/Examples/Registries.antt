-- ===== src/Examples/Registries.antt =====
-- Runs of the validation and the registry of internal/idp/clients.go, and of the scope lists of
-- internal/idp/tokens.go.
use minidp.Base.{◌≡◌, refl, not, ◌&&◌, [], ◌∷◌, some}
use minidp.Errors.{ok}
use minidp.Strings.{trim_space, trim_prefix}
use minidp.Clients.{Client, audience_of, interactive}
use minidp.Clients.Validate.{is_empty}
use minidp.Clients.Registry.{
  ClientRegistry, empty_registry, index, new_client_registry, resolve_cc_scopes, index_clients,
}
use minidp.Clients.Index.{Indexes, new_client_registry-Indexes}
use minidp.Clients.Accounts.{is_ok, can_start, new_client_registry-is_ok}
use minidp.Examples.{app, one_url}

abbrev spa : Client
spa = record {
  client_id = "spa";
  type = "";
  client_secret = "";
  audience = "";
  grant_types = [];
  client_credentials_scopes = [];
  allowed_scopes = "api://spa/read" ∷ [];
  client_credentials_roles = [];
  redirect_uris = "https://spa/cb" ∷ [];
  post_logout_redirect_uris = [];
  allowed_origins = [];
  users = [];
}

abbrev public_spa : Client
public_spa = record spa { type = "public" }

abbrev app_registry : ClientRegistry
app_registry = index one_url app empty_registry

app_registers : new_client_registry one_url (app ∷ []) ≡ ok app_registry
unfolding new_client_registry index_clients interactive
app_registers = refl

new_client_registry-Indexes_example : Indexes one_url (app ∷ []) app_registry
new_client_registry-Indexes_example =
    new_client_registry-Indexes one_url (app ∷ []) app_registry app_registers

jobs_picked : resolve_cc_scopes app " jobs" ≡ some ("jobs" ∷ [])
unfolding resolve_cc_scopes trim_space trim_prefix audience_of
jobs_picked = refl

new_client_registry-is_ok_example :
    is_ok (new_client_registry one_url (app ∷ app ∷ []))
    ≡ (not (is_empty (app ∷ app ∷ [])) && can_start [] (app ∷ app ∷ []))
new_client_registry-is_ok_example = new_client_registry-is_ok one_url (app ∷ app ∷ [])
