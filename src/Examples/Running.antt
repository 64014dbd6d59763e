-- ===== src/Examples/Running.antt =====
-- Runs of main.go, internal/idp/server.go and web.go.
use Prim.Native.String.{◌++◌}
use minidp.Base.{
  ◌<◌, length, All, String, ◌==◌, ◌≡◌, refl, true, [], ◌∷◌, none, some, empty, put, if◌then◌else◌,
}
use minidp.Errors.{ok, err, not_exist}
use minidp.JsonFile.{Disk}
use minidp.Clients.{Client}
use minidp.Clients.Registry.{ClientRegistry, index, empty_registry}
use minidp.Strings.{trim_space, contains_blank, is_blank}
use minidp.Clients.{audience_of, interactive, allows_grant, confidential, grants, or_default}
use minidp.Clients.Validate.{
  validate, validate_identity, validate_profile, check_type, validate_grants, scan_grants,
  validate_cc_roles, validate_allowed_scopes, validate_scope_list, validate_urls, validate_url_list,
  check_cc_grant, validate_cc_role_list, validate_cc_scopes, validate_clients,
}
use minidp.Clients.Users.{validate_users}
use minidp.Clients.Resources.{
  validate_resource_registry, scan_resources, scan_clients, validate_client_roles, check_roles,
}
use minidp.Clients.Registry.{new_client_registry, index_clients, is_registered}
use minidp.JsonFile.{read_scoped_file, read_found}
use minidp.Clients.Files.{
  Json, read_clients_file, parse_document, first_non_space, of_array, validate_file, load_clients,
}
use minidp.Config.{Config}
use minidp.Keys.Ring.{key_set_of, new_signing_key_set}
use minidp.Page.{
  AssetDir, new_login_template, load_asset, read_asset_override, read_opened, within_limit,
  unless_missing, or_embedded,
}
use minidp.Start.{
  Machine, Provider, serving, main, server_of, world_of, serve_with, new, new_with_keys, key_files,
}
use minidp.Start.Ready.{IsReady, main-IsReady}
use minidp.Strings.{trim_last}
use minidp.Page.Assets.{IsIntended, load_asset_lem}
use minidp.Routes.{
  Http, Encoder, ready, no_content, serve, key_set, landing, route, find_route, or_landing,
}
use minidp.Routes.Guards.{IsGuarded, granted_by, serve-IsGuarded}
use minidp.Routes.Effects.{serve-same}
use minidp.Discovery.{discovery_document}
use minidp.Tokens.Claims.{text}
use minidp.Routes.Advertised.{Reaches, advertised, names_url, advertised-Reaches}
use minidp.Routes.Reached.{started_ready}
use minidp.Examples.Endpoint.{platform, server, start, redeem}
use minidp.Examples.{one_url, app, differ}
use minidp.Examples.Ctl.{working, no_files}
use minidp.Examples.Keys.{plain_keys}
use minidp.Examples.Settings.{
  small_env, small_config, small_env-AtoiIsPositive, small_config_loaded, app_registered,
}

-- A client that is a machine.
abbrev batch : Client
batch = record {
  client_id = "batch";
  type = "confidential";
  client_secret = "s3cret";
  audience = "";
  grant_types = "client_credentials" ∷ [];
  client_credentials_scopes = "jobs" ∷ [];
  allowed_scopes = [];
  client_credentials_roles = [];
  redirect_uris = [];
  post_logout_redirect_uris = [];
  allowed_origins = [];
  users = [];
}

abbrev batch_file : Json
batch_file = record {
  marshal_array = λ cs. none;
  marshal_object = λ file. none;
  unmarshal_array = λ raw. if raw == "[batch]" then some (batch ∷ []) else none;
  unmarshal_object = λ raw. none;
}

-- The operator has placed a logo of their own.
abbrev own_logo : AssetDir
own_logo = record {
  open_root = ok tt;
  read_file = λ name. if name == "logo.svg" then ok "<svg/>" else err not_exist;
  embedded = λ path. ok "shipped";
  parse_template = λ path. ok (λ page. (page.title, true));
}

abbrev pub machine : Machine
machine = record {
  lib = plain_keys;
  io = working;
  io_ring = working;
  io_files = working;
  json = batch_file;
  parse_url = one_url;
  assets = own_logo;
  env = small_env;
  now = 7;
  limiter_start = 8;
  secret = some "k";
}

abbrev batch_registry : ClientRegistry
batch_registry = index one_url batch empty_registry

abbrev started : Provider
started = record {
  server =
      server_of small_config
        (key_set_of plain_keys working (record { key = "K1"; kid = "minidp-1" })) batch_registry
        "k";
  template = record {
    tmpl = λ page. (page.title, true);
    title = "minidp";
    subtitle = "Sign in to continue";
    css = "shipped";
    logo = "<svg/>";
  };
  world = world_of small_config 8;
}

abbrev config_files : Disk
config_files = put "clients.json" "[batch]" empty

batch_validates : validate one_url batch ≡ ok tt
unfolding validate validate_identity trim_space contains_blank validate_profile check_type
    audience_of validate_grants scan_grants validate_cc_roles validate_allowed_scopes
    validate_scope_list validate_urls interactive validate_url_list validate_users check_cc_grant
    validate_cc_role_list validate_cc_scopes allows_grant confidential grants or_default
batch_validates = refl

batch_read :
    read_clients_file one_url batch_file working "clients.json" config_files
    ≡ ok (record { clients = batch ∷ []; resources = [] })
unfolding read_clients_file read_scoped_file read_found parse_document first_non_space is_blank
    of_array validate_file validate_clients validate_resource_registry scan_resources scan_clients
    validate_client_roles check_roles
batch_read = rw batch_validates refl

batch_loaded :
    load_clients one_url batch_file working "clients.json" config_files ≡ ok batch_registry
unfolding load_clients new_client_registry index_clients is_registered interactive allows_grant
    grants or_default
batch_loaded = rw batch_read refl

batch_keys :
    new_signing_key_set plain_keys working "" "" 7 no_files ≡ (ok started.server.keys, no_files)
unfolding new_signing_key_set key_set_of server_of
batch_keys = refl

page_made : new_login_template own_logo "minidp" "Sign in to continue" ≡ ok started.template
unfolding new_login_template load_asset read_asset_override read_opened within_limit unless_missing
    or_embedded
page_made = refl

server_started : main machine [] config_files no_files ≡ (serving "0.0.0.0:8080" started, no_files)
unfolding main serve_with new new_with_keys key_files
server_started = rw (small_config_loaded, batch_keys, page_made, batch_loaded) refl

main-IsReady_example :
    (cfg : Config) × IsReady machine cfg config_files started
    × ("0.0.0.0:8080" ≡ cfg.host ++ (":" ++ cfg.port))
main-IsReady_example =
    main-IsReady machine config_files no_files no_files "0.0.0.0:8080" started
      small_env-AtoiIsPositive server_started

load_asset_lem_example :
    (load_asset own_logo "logo.svg" "web/logo.svg" ≡ ok "<svg/>"
      → IsIntended own_logo "logo.svg" "web/logo.svg" "<svg/>")
    × (IsIntended own_logo "logo.svg" "web/logo.svg" "<svg/>"
        → load_asset own_logo "logo.svg" "web/logo.svg" ≡ ok "<svg/>")
load_asset_lem_example = load_asset_lem own_logo "logo.svg" "web/logo.svg" "<svg/>"

abbrev pub encoder : Encoder
encoder = record { marshal_document = λ doc. some "{}"; marshal_keys = λ keys. some "[]" }

abbrev get : String → Http
get path = record { method = "GET"; path = path; origin = "https://app"; request = redeem }

started_ready_example :
    ((serve plain_keys encoder platform started.server started.template
        (get "/readyz")
        start).0.answer
      ≡ ready (length started.server.keys.published))
    × (0 < length started.server.keys.published)
started_ready_example =
    started_ready machine encoder platform config_files no_files no_files "0.0.0.0:8080" started
      "https://app" "{}" redeem start small_env-AtoiIsPositive server_started refl
      (differ "{}" "" refl)

serve-same_example :
    (serve plain_keys encoder platform started.server started.template (get "/jwks") start).1.store
    ≡ start.store
serve-same_example =
    serve-same plain_keys encoder platform started.server started.template (get "/jwks") start refl

advertised-Reaches_example :
    All (Reaches started.server) advertised
    × ((field url : String)
        → discovery_document started.server field ≡ some (text url)
        → names_url field advertised ≡ true)
advertised-Reaches_example = advertised-Reaches started.server

serve-IsGuarded_example :
    let (resp, w') =
      serve plain_keys encoder platform server started.template (get "/jwks") start in
    IsGuarded plain_keys encoder platform server started.template resp.headers
      (granted_by one_url (app ∷ []) "https://app")
    × (((get "/jwks").method ≡ "OPTIONS") → (resp.answer ≡ no_content) × (w' ≡ start))
serve-IsGuarded_example =
    serve-IsGuarded plain_keys encoder platform server started.template one_url (app ∷ [])
      (get "/jwks") start app_registered

granted_test : granted_by one_url (app ∷ []) "https://app" ≡ some "https://app"
unfolding trim_last
granted_test = refl

jwks_test : route "HEAD" "/jwks" ≡ some key_set
unfolding route find_route or_landing
jwks_test = refl

-- Only a GET or a HEAD of a path that is not routed shows the landing page.
unrouted_test : (route "POST" "/none" ≡ none) × (route "GET" "/none" ≡ some landing)
unfolding route find_route or_landing
unrouted_test = (refl, refl)
