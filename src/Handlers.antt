-- ===== src/Handlers.antt =====
-- internal/idp/handlers.go: the endpoints.
pub mod ClientAuth
pub mod Pkce
pub mod Issue
pub mod TokenEndpoint
pub mod Authorize
pub mod Accept
pub mod Resources
pub mod Holding
use minidp.Base.{String, Bool, Option, List}
use minidp.Server.ClientIp.{Peer}

-- A request: the credentials of its Authorization header, if that is Basic, and the header itself;
-- the fields of its form body and of its query, read by `Get`; all values of a field in the body and then the query; whether
-- ParseForm reports an error; the login cookie; and what tells its address.
pub record Request : Type 0 where
  pub basic : Option (String × String)
  pub authorization : String
  pub post_form : String → String
  pub query : String → String
  pub form : String → List String
  pub malformed : Bool
  pub login_cookie : Option String
  pub peer : Peer
