-- ===== src/Examples.antt =====
-- Sample data for runs of the models of internal/idp, and the runs, by component.
mod Stores
mod Limits
mod Registries
mod Endpoint
mod Logins
mod Access
mod Ctl
mod Keys
mod Settings
mod Running
mod Traced
mod Rotations
mod Signed
use minidp.Base.{
  String, List, [], ◌∷◌, Option, some, empty, put, ◌==◌, ◌≡◌, ◌≢◌, false, eq_iff, arith,
}
use minidp.Store.{Store, AuthCode, RefreshEntry, JtiRecord}
use minidp.Clients.{Client, User}
use minidp.Clients.Validate.{Url}

abbrev pub alice_code : AuthCode
alice_code = record {
  expires_at = 50;
  sub = "alice";
  client_id = "app";
  redirect_uri = "https://app/cb";
  code_challenge = "";
  code_challenge_method = "";
  nonce = "";
  scopes = "openid" ∷ [];
}

abbrev pub alice_refresh : RefreshEntry
alice_refresh = record {
  expires_at = 100;
  sub = "alice";
  client_id = "app";
  nonce = "";
  family = "F";
  scopes = "openid" ∷ [];
}

abbrev pub alice_jti : JtiRecord
alice_jti = record { exp = 90; sub = "alice"; family = "F" }

-- One code, one live and one consumed refresh token, and one access token, of one family.
abbrev pub busy_store : Store
busy_store = record {
  codes = put "c1" alice_code empty;
  refresh = put "r1" alice_refresh empty;
  used_refresh = put "r0" alice_refresh empty;
  access_jti = put "j1" alice_jti empty;
  denied_jti = empty;
}

abbrev pub alice : User
alice = record {
  username = "alice";
  password_hash = "hash";
  email = "a@x";
  name = "Alice";
  roles = [];
}

abbrev pub app : Client
app = record {
  client_id = "app";
  type = "confidential";
  client_secret = "s3cret";
  audience = "";
  grant_types = "authorization_code" ∷ "refresh_token" ∷ "client_credentials" ∷ [];
  client_credentials_scopes = "jobs" ∷ "reports" ∷ [];
  allowed_scopes = "api://app/read" ∷ [];
  client_credentials_roles = [];
  redirect_uris = "https://app/cb" ∷ [];
  post_logout_redirect_uris = [];
  allowed_origins = [];
  users = alice ∷ [];
}

-- A URL parser that takes every URL for the same one.
abbrev pub one_url : String → Option Url
one_url raw = some (record { scheme = "https"; host = "app"; fragment = "" })

pub differ : (a b : String) → (a == b) ≡ false → a ≢ b
differ a b h = λ e. ground (arith, eq_iff a b)
