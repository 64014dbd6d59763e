-- ===== src/Examples/Endpoint.antt =====
-- Runs of the token endpoint of internal/idp/handlers.go.
use minidp.Durations.{shift, whole_seconds}
use minidp.Base.{
  ◌≡◌, refl, String, ◌==◌, if◌then◌else◌, true, false, List, [], ◌∷◌, none, some, arith,
}
use minidp.Clients.Registry.{
  index, empty_registry, lookup, register, index_users, explicit_origins_of, add_hosts,
}
use minidp.Store.{take_code, drop_expired, register_jti, add_refresh}
use minidp.Tokens.{
  TokenResponse, new_id_claims, registered_claims, ordered, short_scope_names, new_access_claims,
  join_scopes, has_scope, profile_for,
}
use minidp.Server.{Platform, Server, World}
use minidp.Server.Exec.{tokens, go}
use minidp.Handlers.{Request}
use minidp.Handlers.TokenEndpoint.{handle_code_grant, validate_code_grant, continue_code}
use minidp.Handlers.TokenEndpoint.Codes.{Served, handle_code_grant-Served}
use minidp.Clients.{confidential, audience_of}
use minidp.Strings.{cut, strip_prefix, trim_last, join, trim_prefix}
use minidp.Handlers.Pkce.{valid_pkce_verifier, verify_pkce, pkce_verifier_char, all_chars}
use minidp.Handlers.ClientAuth.{authenticate_client, identify_form_client, auth_client_basic}
use minidp.Handlers.Issue.{
  issue_id_token, issue_and_write_tokens, add_refresh_for, id_token_if_openid, issue_tokens,
}
use minidp.Keys.{sign_access, sign, sign_typed}
use minidp.Tokens.Claims.{of_id, of_access}
use minidp.Examples.{busy_store, app, one_url}

-- A platform whose clock reads 0, 1, 2 and so on, and whose signer always answers "signed".
abbrev pub platform : Platform
platform = record {
  clock = λ n. n;
  draw = λ n. some "drawn";
  parse_url = one_url;
  query_unescape = λ t. some t;
  pkce_s256 = λ t. t;
  verify_hash = λ hash pw. hash == pw;
  signed_string = λ key kid typ claims. some "signed";
  parse_valid = λ key_of issuer at raw. none;
  parse_signed = λ key_of raw. none;
  digests = record {
    sha256_hex = λ t. t;
    hmac = λ key t. t;
    encode64 = λ t. t;
    decode64 = λ t. some t;
    encode_values = λ vs. "";
    format_int = λ n. "9";
    parse_int = λ t. some 9;
  };
  parses_ip = λ t. true;
  contains_ip = λ cidr ip. cidr == ip;
}

abbrev pub server : Server
server = record {
  issuer = "https://idp";
  access_token_ttl = 3_000_000_000;
  refresh_token_ttl = 9_000_000_000;
  keys = record { active = record { key = "k"; kid = "1" }; published = [] };
  clients = index one_url app empty_registry;
  csrf = record { key = "k"; ttl = 900_000_000_000 };
  trusted_proxies = [];
}

abbrev pub start : World
start = record {
  store = busy_store;
  limiter = record { last_sweep = 0; buckets = []; per_minute = 5 };
  reads = 10;
  draws = 0;
}

-- The form with these fields; a missing field reads as empty.
abbrev pub form : List (String × String) → String → String
form [] k = ""
form ((j, v) ∷ fs) k = if j == k then v else form fs k

abbrev pub redeem : Request
redeem = record {
  basic = none;
  authorization = "";
  query = λ k. "";
  form = λ k. [];
  login_cookie = none;
  peer = record { host = "10.0.0.1"; forwarded_for = ""; real_ip = "" };
  post_form = form (
      ("grant_type", "authorization_code")
      ∷ ("code", "c1")
      ∷ ("client_id", "app")
      ∷ ("client_secret", "s3cret")
      ∷ ("redirect_uri", "https://app/cb")
      ∷ []);
  malformed = false;
}

abbrev pub token_set : TokenResponse
token_set = record {
  access_token = "signed";
  id_token = "signed";
  refresh_token = "drawn";
  token_type = "Bearer";
  scope = "openid";
  expires_in = 3;
}

abbrev later : World
later = (handle_code_grant platform server redeem start).1

redeemed : handle_code_grant platform server redeem start ≡ (go (tokens token_set), later)
unfolding handle_code_grant authenticate_client lookup index confidential register continue_code
    take_code validate_code_grant verify_pkce issue_and_write_tokens issue_tokens sign_access
    id_token_if_openid has_scope issue_id_token sign add_refresh_for add_hosts explicit_origins_of
    index_users audience_of auth_client_basic identify_form_client all_chars pkce_verifier_char
    valid_pkce_verifier sign_typed add_refresh drop_expired register_jti shift whole_seconds cut
    join strip_prefix trim_last trim_prefix of_access of_id join_scopes new_access_claims
    new_id_claims ordered profile_for registered_claims short_scope_names
redeemed = refl

handle_code_grant-Served_example : Served platform server redeem start
handle_code_grant-Served_example =
    handle_code_grant-Served platform server redeem start later (tokens token_set) (omega arith)
      redeemed
