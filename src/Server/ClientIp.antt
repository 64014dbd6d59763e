-- ===== src/Server/ClientIp.antt =====
-- internal/idp/server.go: the client address that the login limiter counts by.
pub mod Spoofing
use Prim.Native.Char.{code}
use minidp.Base.{
  ℕ, String, ◌==◌, Bool, true, false, not, ◌&&◌, ◌||◌, Option, none, some, List, [], ◌∷◌, ◌++◌, leb,
  if◌then◌else◌,
}
use minidp.Strings.{trim_space}

-- What of a request tells its address: the socket's address without its port, and two headers.
pub record Peer : Type 0 where
  pub host : String
  pub forwarded_for : String
  pub real_ip : String

abbrev cons_head : String → List String → List String
cons_head t [] = t ∷ []
cons_head t (p ∷ ps) = t ∷ p ∷ ps

abbrev extend_head : (String → String) → List String → List String
extend_head f [] = f "" ∷ []
extend_head f (p ∷ ps) = f p ∷ ps

-- strings.Split(s, ",")
unfoldable pub split_commas : String → List String
split_commas String.[] = "" ∷ []
split_commas (String.◌∷◌ c s) =
    let rest = split_commas s in
    if leb (code c) b',' && leb b',' (code c)
    then "" ∷ rest
    else extend_head (λ p. String.◌∷◌ c p) rest

-- `parses` is whether net.ParseIP reads an address, `contained` whether net.ParseCIDR reads a network, which
-- contains the address.
module _ (parses : String → Bool) (contained : String → String → Bool) where
  unfoldable pub ip_trusted : List String → String → Bool
  ip_trusted [] ip = false
  ip_trusted (cidr ∷ cidrs) ip = contained cidr ip || ip_trusted cidrs ip

  -- The entries that the loop has before it, in the order of the header; the last one counts first.
  unfoldable pub rightmost_untrusted : List String → List String → Option String
  rightmost_untrusted proxies [] = none
  rightmost_untrusted proxies (part ∷ parts) =
      let candidate = trim_space part in
      elim (rightmost_untrusted proxies parts) [
        | some found ↦ some found
        | none ↦
            if parses candidate && not (ip_trusted proxies candidate) then some candidate else none
      ]

  abbrev or_host : Option String → String → String
  or_host none host = host
  or_host (some ip) host = ip

  unfoldable pub forwarded_client_ip : List String → String → String → String
  forwarded_client_ip proxies xff host =
      or_host (rightmost_untrusted proxies (split_commas xff)) host

  real_ip_or_host : List String → String → String → String
  unfolding ip_trusted
  real_ip_or_host proxies ip host =
      if not (ip == "") && (parses ip && not (ip_trusted proxies ip)) then ip else host

  -- The method `clientIP`.
  unfoldable pub client_ip : List String → Peer → String
  unfolding real_ip_or_host
  client_ip proxies p =
      if not (parses p.host) || not (ip_trusted proxies p.host)
      then p.host
      else (if not (p.forwarded_for == "")
          then forwarded_client_ip proxies p.forwarded_for p.host
          else real_ip_or_host proxies (trim_space p.real_ip) p.host)
