-- ===== src/Examples/Logins.antt =====
-- Runs of the authorization endpoint of internal/idp/handlers.go, and of the client's address.
use Prim.Native.String.{◌++◌}
use minidp.Base.{◌≡◌, refl, String, ◌==◌, Bool, not, [], ◌∷◌, some}
use minidp.Strings.{trim_space, fields}
use minidp.Store.{AuthCode}
use minidp.Clients.Registry.{register, lookup, index, allows_scope}
use minidp.Server.Exec.{go, reply_of}
use minidp.Server.ClientIp.{Peer, client_ip, split_commas, ip_trusted}
use minidp.Server.ClientIp.Spoofing.{client_ip-appended}
use minidp.Handlers.{Request}
use minidp.Handlers.ClientAuth.{authenticate_client}
use minidp.Handlers.ClientAuth.Sound.{Authentic, authenticate_client-Authentic}
use minidp.Handlers.Authorize.{
  handle_authorize_get, validate_authorize_request, handle_authorize_post, validate_pkce_params,
  validate_scopes_for, oauth_context_of,
}
use minidp.Clients.{confidential}
use minidp.Tokens.{parse_scopes}
use minidp.Handlers.Authorize.Redirects.{IsSafe, authorize-IsSafe}
use minidp.Examples.{app}
use minidp.Examples.Endpoint.{platform, server, start, form, redeem}

authenticated : authenticate_client server redeem platform ≡ go (register app)
unfolding authenticate_client lookup index confidential register
authenticated = refl

authenticate_client-Authentic_example : Authentic platform server redeem (register app)
authenticate_client-Authentic_example =
    authenticate_client-Authentic platform server redeem (register app) authenticated

abbrev asked : String → String
asked = form (("response_type", "code") ∷ ("scope", "openid api://app/read") ∷ [])

asked_passes : validate_authorize_request (register app) asked ≡ ""
unfolding validate_authorize_request validate_pkce_params confidential register validate_scopes_for
    parse_scopes fields allows_scope
asked_passes = refl

abbrev pub login : Request
login = record redeem {
  login_cookie = some "n";
  post_form = form (
      ("client_id", "app")
      ∷ ("redirect_uri", "https://app/cb")
      ∷ ("response_type", "code")
      ∷ ("scope", "openid")
      ∷ ("username", "alice")
      ∷ ("password", "hash")
      ∷ ("csrf_token", "9|/authorize||n.9|/authorize||n")
      ∷ []);
}

abbrev minted : AuthCode
minted = record {
  expires_at = 600_000_000_013;
  sub = "alice";
  client_id = "app";
  redirect_uri = "https://app/cb";
  code_challenge = "";
  code_challenge_method = "";
  nonce = "";
  scopes = "openid" ∷ [];
}

abbrev is_address : String → Bool
is_address t = not (t == "")

abbrev behind_proxy : Peer
behind_proxy = record {
  host = "10.0.0.1";
  forwarded_for = "6.6.6.6" ++ ("," ++ " 1.2.3.4");
  real_ip = "6.6.6.6";
}

abbrev same_address : String → String → Bool
same_address cidr ip = cidr == ip

client_ip-appended_example :
    client_ip is_address same_address ("10.0.0.1" ∷ []) behind_proxy ≡ trim_space " 1.2.3.4"
unfolding ip_trusted split_commas trim_space
client_ip-appended_example =
    client_ip-appended is_address same_address ("10.0.0.1" ∷ []) behind_proxy "6.6.6.6" " 1.2.3.4"
      refl refl refl refl refl refl

authorize-IsSafe_example :
    IsSafe server login.query (reply_of (handle_authorize_get platform server login start).0)
    × IsSafe server
        (oauth_context_of login.post_form)
        (reply_of (handle_authorize_post platform server login start).0)
authorize-IsSafe_example = authorize-IsSafe platform server login start
