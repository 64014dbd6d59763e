-- ===== src/Server.antt =====
-- internal/idp/server.go: the configured server, and the world that its handlers run in.
-- A handler runs to its end by itself; Store/History and Store/Revocation have the interleavings.
pub mod Exec
pub mod ClientIp
use minidp.Base.{ℕ, zero, suc, ◌+◌, String, Bool, Option, none, some, List, Map}
use minidp.Errors.{Result, ok, err}
use minidp.Clients.Validate.{Url}
use minidp.Clients.Registry.{ClientRegistry}
use minidp.Keys.{KeySet, SigningKey, Token}
use minidp.Tokens.Claims.{Claims}
use minidp.Csrf.{Digests, CsrfManager}
use minidp.Store.{Store}
use minidp.Limiter.{LoginLimiter}

-- What the server uses and this repository does not implement: the successive readings of the clock,
-- the successive encoded draws of crypto/rand (`none` where it fails), net/url's parser and query
-- decoding, SHA-256 with base64url as in PKCE, bcrypt, and the JWT library. `parse_valid` verifies a
-- signature with the key that the key function returns and the registered claims against an issuer
-- and an instant; `parse_signed` verifies the signature alone. `parses_ip` and `contains_ip` are
-- net.ParseIP and the test of net.ParseCIDR's network.
pub record Platform : Type 0 where
  pub clock : ℕ → ℕ
  pub draw : ℕ → Option String
  pub parse_url : String → Option Url
  pub query_unescape : String → Option String
  pub pkce_s256 : String → String
  pub verify_hash : String → String → Bool
  pub signed_string : String → String → String → Claims → Option String
  pub parse_valid : (String → Result SigningKey) → String → ℕ → String → Option Token
  pub parse_signed : (String → Result SigningKey) → String → Option Token
  pub digests : Digests
  pub parses_ip : String → Bool
  pub contains_ip : String → String → Bool

-- The lifetimes are words of Durations.
pub record Server : Type 0 where
  pub issuer : String
  pub access_token_ttl : ℕ
  pub refresh_token_ttl : ℕ
  pub keys : KeySet
  pub clients : ClientRegistry
  pub csrf : CsrfManager
  pub trusted_proxies : List String

-- The state that requests share, and how often the clock and the source of randomness were read.
pub record World : Type 0 where
  pub store : Store
  pub limiter : LoginLimiter
  pub reads : ℕ
  pub draws : ℕ
