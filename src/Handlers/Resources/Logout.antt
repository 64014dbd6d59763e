-- ===== src/Handlers/Resources/Logout.antt =====
-- Where the logout of internal/idp/handlers.go sends a browser.
use minidp.Base.{String, ◌≡◌, refl, true, Option, none, some, List, contains, eq_iff, arith}
use minidp.Server.{Platform, Server, World}
use minidp.Server.Exec.{go, redirect, >>=-eq-go}
use minidp.Clients.Registry.{RegisteredClient}
use minidp.Handlers.{Request}
use minidp.Handlers.Authorize.{registered_entry, entries}
use minidp.Handlers.Authorize.Redirects.{registered_entry_lem}
use minidp.Handlers.Resources.{handle_end_session, hinted, named, leave, registered_logout_redirect}

-- The URL is one that the client has registered for after a logout, and the one that was asked for.
pub record IsAllowedExit (s : Server) (r : Request) (target : String) : Type 0 where
  pub client_id : String
  pub listed : contains (entries (s.clients.logout_redirects client_id)) target ≡ true
  pub requested : r.query "post_logout_redirect_uri" ≡ target

module _ (pf : Platform) (s : Server) (r : Request) where
  leave-IsAllowedExit :
      (asked target : String) (ps : List (String × String)) (o : Option RegisteredClient)
      → r.query "post_logout_redirect_uri" ≡ asked
      → leave pf s r asked o ≡ redirect target ps
      → IsAllowedExit s r target
  unfolding leave registered_logout_redirect
  leave-IsAllowedExit asked target ps none q e = absurd (ground (arith, e))
  leave-IsAllowedExit asked target ps (some rc) q e =
      let listed = entries (s.clients.logout_redirects rc.client.client_id) in
      let entry = registered_entry_lem listed asked in
      record {
        client_id = rc.client.client_id;
        listed = ground (arith, entry, e, eq_iff (registered_entry listed asked) "");
        requested = ground (arith, entry, e, q, eq_iff (registered_entry listed asked) "");
      }

  -- A logout redirects only to the requested URL, and only if some client has registered it for that.
  pub handle_end_session-IsAllowedExit :
      (w w' : World) (target : String) (ps : List (String × String))
      → handle_end_session pf s r w ≡ (go (redirect target ps), w')
      → IsAllowedExit s r target
  unfolding handle_end_session
  handle_end_session-IsAllowedExit w w' target ps h =
      let rest = >>=-eq-go (hinted pf s r) _ w h in
      leave-IsAllowedExit (r.query "post_logout_redirect_uri") target ps (named pf s r rest.0) refl
        (ground (arith, rest.3))
