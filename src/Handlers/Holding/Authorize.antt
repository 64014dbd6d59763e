-- ===== src/Handlers/Holding/Authorize.antt =====
-- What the authorization endpoint of internal/idp/handlers.go leaves true of the store.
use minidp.Base.{ℕ, String, Bool, true, false, Option, none, some, List}
use minidp.Store.{Store}
use minidp.Clients.Registry.{RegisteredClient}
use minidp.Server.{Platform, Server}
use minidp.Server.Exec.Holds.{Holds, holds_rules}
use minidp.Handlers.{Request}
use minidp.Handlers.Authorize.{
  fresh_nonce, browser_nonce, render_login_page, render_authorize_error, continue_get,
  handle_authorize_get, answer_code, complete_authorize, continue_login, continue_context,
  authorize_context, limited, try_login, verified, handle_authorize_post,
}
use minidp.Handlers.Holding.{IsClosed, IsClosedUnderCodes}

module _ (pf : Platform) (s : Server) (d : ℕ) (P : Store → Type 0) (c : IsClosed pf s d P)
    (r : Request) where
  nonce-Holds : (o : Option String) → Holds d P (fresh_nonce pf s r o)
  unfolding fresh_nonce
  nonce-Holds none = search holds_rules
  nonce-Holds (some cookie) = search holds_rules

  browser-Holds : Holds d P (browser_nonce pf s r)
  unfolding browser_nonce
  browser-Holds = search (holds_rules, nonce-Holds)

  page-Holds :
      (status : ℕ) (problem username : String) (hidden : List (String × String))
      → Holds d P (render_login_page pf s r status problem username hidden)
  unfolding render_login_page
  page-Holds status problem username hidden = search (holds_rules, browser-Holds) depth 12

  error-Holds :
      (status : ℕ) (problem : String) → Holds d P (render_authorize_error pf s r status problem)
  unfolding render_authorize_error
  error-Holds status problem = page-Holds status problem "" _

  get-Holds : (rc : RegisteredClient) (code : String) → Holds d P (continue_get pf s r rc code)
  unfolding continue_get
  get-Holds rc code = search (holds_rules, page-Holds)

  pub authorize_get-Holds : Holds d P (handle_authorize_get pf s r)
  unfolding handle_authorize_get
  authorize_get-Holds = search (holds_rules, get-Holds)

  answer-Holds :
      (rc : RegisteredClient) (q : String → String) (o : Option String)
      → Holds d P (answer_code pf s r rc q o)
  unfolding answer_code
  answer-Holds rc q none = error-Holds 500 _
  answer-Holds rc q (some code) = search holds_rules

module _ (pf : Platform) (s : Server) (d : ℕ) (P : Store → Type 0) (c : IsClosed pf s d P)
    (adds : IsClosedUnderCodes pf d P) (r : Request) where
  complete-Holds :
      (rc : RegisteredClient) (q : String → String) (sub : String)
      → Holds d P (complete_authorize pf s r rc q sub)
  unfolding complete_authorize
  complete-Holds rc q sub = search (holds_rules, adds, answer-Holds pf s d P c r) depth 12

  login-Holds :
      (rc : RegisteredClient) (q : String → String) (o : Option String)
      → Holds d P (continue_login pf s r rc q o)
  unfolding continue_login
  login-Holds rc q none = page-Holds pf s d P c r 401 _ _ _
  login-Holds rc q (some sub) = complete-Holds rc q sub

  context-Holds : Holds d P (authorize_context pf s r)
  unfolding authorize_context continue_context
  context-Holds = search (holds_rules, login-Holds) depth 8

  limited-Holds : (b : Bool) → Holds d P (limited pf s r b)
  unfolding limited
  limited-Holds true = context-Holds
  limited-Holds false = error-Holds pf s d P c r 429 _

  attempt-Holds : Holds d P (try_login pf s r)
  unfolding try_login
  attempt-Holds = record { at = λ w h. record { drawn = h.drawn; holds = h.holds } }

  verified-Holds : (b : Bool) → Holds d P (verified pf s r b)
  unfolding verified
  verified-Holds false = error-Holds pf s d P c r 400 _
  verified-Holds true = search (holds_rules, attempt-Holds, limited-Holds)

  pub authorize_post-Holds : Holds d P (handle_authorize_post pf s r)
  unfolding handle_authorize_post
  authorize_post-Holds = search (holds_rules, verified-Holds)
