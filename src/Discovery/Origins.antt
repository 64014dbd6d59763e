-- ===== src/Discovery/Origins.antt =====
-- internal/idp/server.go and clients.go: the origins that may read responses.
use minidp.Base.{String, ◌==◌, ◌≡◌, refl, not, ◌&&◌, Option, none, some, List, if◌then◌else◌}
use minidp.Strings.{trim_last}
use minidp.Errors.{ok, refuse_if, >>-eq-ok}
use minidp.Clients.{Client}
use minidp.Clients.Validate.{Url, is_empty}
use minidp.Clients.Registry.{ClientRegistry, empty_registry, new_client_registry}
use minidp.Clients.Origins.{any_client, grants_origin, origins_lem}
use minidp.Discovery.{granted_origin}

module _ (parse_url : String → Option Url) where
  -- A response grants an origin exactly if the request names one that, without a slash at its end, a client of the
  -- file lists or has registered a redirect URI of.
  pub granted_origin_lem :
      (cs : List Client) (r : ClientRegistry) (origin : String)
      → new_client_registry parse_url cs ≡ ok r
      → granted_origin r origin ≡ (
          if not (origin == "") && any_client (grants_origin parse_url (trim_last b'/' origin)) cs
          then some origin
          else none)
  unfolding new_client_registry granted_origin
  granted_origin_lem cs r origin h =
      let built = (>>-eq-ok (refuse_if (is_empty cs) _) _ h).1 in
      rw (origins_lem parse_url (trim_last b'/' origin) cs empty_registry r built) refl
