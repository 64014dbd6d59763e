-- ===== src/Examples/Settings.antt =====
-- Runs of internal/idp/config.go and discovery.go.
use minidp.Durations.{seconds, shift}
use minidp.Base.{ℕ, ◌∷◌, ◌+◌, ◌<◌, ◌≡◌, refl, false, [], ◌==◌, if◌then◌else◌, some, arith}
use minidp.Errors.{ok}
use minidp.Config.{
  Environment, positive, unparsed, Config, load_config, load_key_retention, reject_variables,
  env_duration_seconds, env_int, env_or, parse_trusted_proxies, scan_cidrs,
}
use minidp.Config.Checked.{AtoiIsPositive, env_duration_seconds_lem, load_key_retention-covers}
use minidp.Clients.{allows_grant, interactive, grants, or_default}
use minidp.Clients.Registry.{
  new_client_registry, ClientRegistry, register, index, empty_registry, index_clients,
  is_registered, explicit_origins_of, add_hosts, add_host,
}
use minidp.Strings.{trim_last}
use minidp.Discovery.{granted_origin}
use minidp.Server.ClientIp.{split_commas}
use minidp.Strings.{trim_space}
use minidp.Examples.{app, one_url, differ}

-- Only the clients file is named.
abbrev pub small_env : Environment
small_env = record {
  getenv = λ name. if name == "IDP_CLIENTS_FILE" then "clients.json" else "";
  atoi = λ text. unparsed;
  is_cidr = λ cidr. false;
}

abbrev pub small_config : Config
small_config = record {
  host = "0.0.0.0";
  port = "8080";
  issuer = "http://localhost:8080";
  clients_file = "clients.json";
  title = "minidp";
  subtitle = "Sign in to continue";
  rsa_pem = "";
  key_dir = "";
  trusted_proxies = [];
  access_token_ttl = 3600000000000;
  refresh_token_ttl = 7200000000000;
  login_rate_limit = 20;
}

pub small_config_loaded : load_config small_env ≡ ok small_config
unfolding load_config reject_variables env_duration_seconds env_int env_or parse_trusted_proxies
    seconds scan_cidrs split_commas trim_space
small_config_loaded = refl

pub small_env-AtoiIsPositive : AtoiIsPositive small_env
small_env-AtoiIsPositive text n h = cc

small_lifetimes : 3600000000000 + 7200000000000 + 300000000000 < 9223372036854775808
small_lifetimes = ground arith

load_key_retention-covers_example :
    load_key_retention small_env ≡ ok (3600000000000 + 7200000000000 + 300000000000)
load_key_retention-covers_example =
    load_key_retention-covers small_env small_config refl small_config_loaded small_lifetimes

abbrev pub app_registry : ClientRegistry
app_registry = index one_url app empty_registry

pub app_registered : new_client_registry one_url (app ∷ []) ≡ ok app_registry
unfolding new_client_registry index_clients is_registered index interactive allows_grant grants
    or_default
app_registered = refl

granted_origin_test : granted_origin app_registry "https://app/" ≡ some "https://app/"
unfolding granted_origin index register explicit_origins_of add_hosts add_host trim_last
granted_origin_test = refl

-- One second more than a time.Duration can count.
abbrev long_env : Environment
long_env = record small_env {
  getenv = λ name. if name == "IDP_KEY_RETENTION" then "9223372037" else small_env.getenv name;
  atoi = λ text. if text == "9223372037" then positive 9223372037 else small_env.atoi text;
}

env_duration_seconds_lem_example :
    (d : ℕ) × (env_duration_seconds long_env "IDP_KEY_RETENTION" 0 ≡ ok d)
    × (shift 64000000000000000000 d ≡ 54776627963290448384)
env_duration_seconds_lem_example =
    env_duration_seconds_lem long_env "IDP_KEY_RETENTION" 0 9223372037 64000000000000000000
      (differ "9223372037" "" refl) refl (omega arith)
