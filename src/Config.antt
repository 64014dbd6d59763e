-- ===== src/Config.antt =====
-- internal/idp/config.go: the settings from the environment. Where the variables are not set, the
-- environment holds the empty text. strconv.Atoi and net.ParseCIDR are parameters, and a duration is
-- a word of Durations.
pub mod Checked
use minidp.Base.{
  ℕ, zero, suc, ◌+◌, ◌*◌, ◌%◌, ◌^◌, String, ◌==◌, Bool, true, false, not, ◌||◌, Option, none, some,
  List, [], ◌∷◌, if◌then◌else◌, leb,
}
use minidp.Durations.{word, seconds}
use minidp.Strings.{trim_space}
use minidp.Server.ClientIp.{split_commas}
use minidp.Errors.{
  Result, ok, err, ◌>>=◌, ◌>>◌, refuse_if, upstream, clients_file_unset, removed_variable,
  int_not_whole_number, int_not_positive,
}

-- What strconv.Atoi makes of a text: no number, a number that is not positive, or a positive one.
pub data Parsed : Type 0 where
  unparsed not_positive : Parsed
  positive : ℕ → Parsed

pub record Environment : Type 0 where
  pub getenv : String → String
  pub atoi : String → Parsed
  pub is_cidr : String → Bool

pub record Config : Type 0 where
  pub host : String
  pub port : String
  pub issuer : String
  pub clients_file : String
  pub title : String
  pub subtitle : String
  pub rsa_pem : String
  pub key_dir : String
  pub trusted_proxies : List String
  pub access_token_ttl : ℕ
  pub refresh_token_ttl : ℕ
  pub login_rate_limit : ℕ

abbrev pub removed_variables : List String
removed_variables =
    "IDP_USERNAME" ∷ "IDP_PASSWORD" ∷ "IDP_PASSWORD_BCRYPT" ∷ "IDP_PASSWORD_FILE" ∷ "IDP_CLIENT_ID"
    ∷ "IDP_AUDIENCE" ∷ "IDP_CLIENT_SECRET" ∷ "ALLOWED_REDIRECTS" ∷ "IDP_ALLOWED_ORIGINS"
    ∷ "IDP_USERS_FILE" ∷ "MINIDP_MODE" ∷ []

module _ (env : Environment) where
  unfoldable pub reject_variables : List String → Result (Unit {0})
  reject_variables [] = ok tt
  reject_variables (name ∷ names) = do
    refuse_if (not (env.getenv name == "")) removed_variable
    reject_variables names

  unfoldable pub positive_of : Parsed → Result ℕ
  positive_of unparsed = err int_not_whole_number
  positive_of not_positive = err int_not_positive
  positive_of (positive n) = ok n

  unfoldable pub env_int : String → ℕ → Result ℕ
  unfolding positive_of
  env_int key default =
      if env.getenv key == "" then ok default else positive_of (env.atoi (env.getenv key))

  unfoldable pub env_duration_seconds : String → ℕ → Result ℕ
  unfolding env_int seconds
  env_duration_seconds key default = do n ← env_int key default; ok (seconds n)

  unfoldable pub env_or : String → String → String
  env_or key default = if env.getenv key == "" then default else env.getenv key

  unfoldable pub scan_cidrs : List String → Result (List String)
  scan_cidrs [] = ok []
  scan_cidrs (raw ∷ raws) =
      let rest = scan_cidrs raws in
      let cidr = trim_space raw in
      if cidr == ""
      then rest
      else (do refuse_if (not (env.is_cidr cidr)) upstream; cidrs ← rest; ok (cidr ∷ cidrs))

  unfoldable pub parse_trusted_proxies : String → Result (List String)
  unfolding scan_cidrs
  parse_trusted_proxies raw =
      let proxies = scan_cidrs (split_commas raw) in if trim_space raw == "" then ok [] else proxies

  unfoldable pub load_config : Result Config
  unfolding reject_variables env_duration_seconds env_int env_or parse_trusted_proxies
  load_config = do
    reject_variables removed_variables
    access ← env_duration_seconds "IDP_ACCESS_TOKEN_TTL" 3600
    refresh ← env_duration_seconds "IDP_REFRESH_TOKEN_TTL" 7200
    limit ← env_int "IDP_LOGIN_RATE_LIMIT" 20
    refuse_if (env.getenv "IDP_CLIENTS_FILE" == "") clients_file_unset
    proxies ← parse_trusted_proxies (env.getenv "TRUSTED_PROXIES")
    ok (record {
      host = env_or "IDP_HOST" "0.0.0.0";
      port = env_or "IDP_PORT" "8080";
      issuer = env_or "IDP_ISSUER" "http://localhost:8080";
      clients_file = env.getenv "IDP_CLIENTS_FILE";
      title = env_or "IDP_TITLE" "minidp";
      subtitle = env_or "IDP_SUBTITLE" "Sign in to continue";
      rsa_pem = env.getenv "IDP_RSA_PEM";
      key_dir = env.getenv "IDP_KEY_DIR";
      trusted_proxies = proxies;
      access_token_ttl = access;
      refresh_token_ttl = refresh;
      login_rate_limit = limit;
    })

  unfoldable pub default_retention : Result ℕ
  unfolding env_duration_seconds
  default_retention = do
    access ← env_duration_seconds "IDP_ACCESS_TOKEN_TTL" 3600
    refresh ← env_duration_seconds "IDP_REFRESH_TOKEN_TTL" 7200
    ok ((access + refresh + seconds 300) % word)

  unfoldable pub load_key_retention : Result ℕ
  unfolding env_duration_seconds default_retention
  load_key_retention =
      if not (env.getenv "IDP_KEY_RETENTION" == "")
      then env_duration_seconds "IDP_KEY_RETENTION" 0
      else default_retention
