-- ===== src/Routes/Codes.antt =====
-- internal/idp/server.go: where the codes and tokens of a whole run of requests come from.
use mathlib.Core.List.{mem-cons_of_mem, mem-cons_self}
use minidp.Base.{
  suc, ◌≤◌, String, ◌==◌, ◌≡◌, refl, sym, ap, ◌∙◌, false, Option, none, some, List, [], ◌∷◌, Mem,
  Bool-cases, inl, inr, arith,
}
use minidp.Clients.{grant_authorization_code}
use minidp.Keys.Material.{KeyLibrary}
use minidp.Page.{LoginTemplate}
use minidp.Store.{Store, AuthCode}
use minidp.Tokens.{TokenResponse}
use minidp.Server.{Platform, Server, World}
use minidp.Server.Exec.{tokens}
use minidp.Handlers.{Request}
use minidp.Handlers.Authorize.Login.{LoggedIn, Since, authorize_post-Since}
use minidp.Handlers.TokenEndpoint.{handle_token}
use minidp.Handlers.TokenEndpoint.Codes.{Served, handle_code_grant-Served}
use minidp.Handlers.TokenEndpoint.Replay.{tokens_went_on, grant_of_code, served-LacksCode}
use minidp.Handlers.Holding.Codes.{
  handle_token-CodeIs, handle_revoke-CodeIs, handle_end_session-CodeIs,
}
use minidp.Routes.{
  Endpoint, find_route, or_landing, route, Http, Encoder, reply, run_endpoint, run_routed, serve,
  discovery, key_set, authorize_get, authorize_post, landing, token, userinfo, introspect, revoke,
  end_session, static_css, static_logo, healthz, readyz,
}
use minidp.Routes.Effects.{writes, run_endpoint-same}

-- One of the requests is a login form that leads to the code.
abbrev pub HasLogin : Platform → Server → List Http → AuthCode → Type 0
HasLogin pf s hs c =
    (h : Http) × Mem h hs
    × (route h.method h.path ≡ some authorize_post)
    × LoggedIn pf s h.request c

-- A request at the token endpoint.
abbrev pub redemption : String → Request → Http
redemption origin r = record { method = "POST"; path = "/token"; origin = origin; request = r }

module _ (lib : KeyLibrary) (enc : Encoder) (pf : Platform) (s : Server) (lt : LoginTemplate) where
  -- The requests of a run, one after the other.
  unfoldable pub serve_all : List Http → World → World
  serve_all [] w = w
  serve_all (h ∷ hs) w = serve_all hs (serve lib enc pf s lt h w).1

  module _ (id : String) (c : AuthCode) (Q : Type 0) where
    without_code : none ≡ some c → Q
    without_code e = cc

    same-Since : (st st' : Store) → st' ≡ st → Since id c Q st → Since id c Q st'
    same-Since st st' e h k = h (ap (λ (x : Store). x.codes id) (sym e) ∙ k)

    quiet-Since :
        (e : Endpoint) (r : Request) (w : World)
        → writes e ≡ false
        → Since id c Q w.store
        → Since id c Q (run_endpoint lib enc pf s lt e r w).1.store
    quiet-Since e r w q = same-Since w.store _ (run_endpoint-same lib enc pf s lt e r w q)

    endpoint-Since :
        (e : Endpoint) (r : Request) (w : World)
        → (e ≡ authorize_post → LoggedIn pf s r c → Q)
        → Since id c Q w.store
        → Since id c Q (run_endpoint lib enc pf s lt e r w).1.store
    unfolding run_endpoint
    endpoint-Since authorize_post r w k h = (authorize_post-Since pf s r id c (k refl)).at w h
    endpoint-Since token r w k h =
        handle_token-CodeIs id (λ o. o ≡ some c → Q) without_code pf s r w h
    endpoint-Since revoke r w k h =
        (handle_revoke-CodeIs id (λ o. o ≡ some c → Q) without_code pf s r).at w h
    endpoint-Since end_session r w k h =
        (handle_end_session-CodeIs id (λ o. o ≡ some c → Q) without_code pf s r).at w h
    endpoint-Since authorize_get r w k h = quiet-Since authorize_get r w refl h
    endpoint-Since userinfo r w k h = quiet-Since userinfo r w refl h
    endpoint-Since introspect r w k h = quiet-Since introspect r w refl h
    endpoint-Since discovery r w k h = h
    endpoint-Since key_set r w k h = h
    endpoint-Since landing r w k h = h
    endpoint-Since static_css r w k h = h
    endpoint-Since static_logo r w k h = h
    endpoint-Since healthz r w k h = h
    endpoint-Since readyz r w k h = h

    routed-Since :
        (o : Option Endpoint) (r : Request) (w : World)
        → (o ≡ some authorize_post → LoggedIn pf s r c → Q)
        → Since id c Q w.store
        → Since id c Q (run_routed lib enc pf s lt o r w).1.store
    unfolding run_routed
    routed-Since none r w k h = h
    routed-Since (some e) r w k h = endpoint-Since e r w (λ q. k (ap some q)) h

    serve-Since :
        (h : Http) (w : World)
        → (route h.method h.path ≡ some authorize_post → LoggedIn pf s h.request c → Q)
        → Since id c Q w.store
        → Since id c Q (serve lib enc pf s lt h w).1.store
    unfolding serve
    serve-Since h w k p = elim (Bool-cases (h.method == "OPTIONS")) [
      | inl e ↦ rw e p
      | inr e ↦ rw e (routed-Since (route h.method h.path) h.request w k p)
    ]

    serve_all-Since :
        (hs : List Http) (w : World)
        → (HasLogin pf s hs c → Q)
        → Since id c Q w.store
        → Since id c Q (serve_all hs w).store
    unfolding serve_all
    serve_all-Since [] w k p = p
    serve_all-Since (h ∷ hs) w k p =
        serve_all-Since hs (serve lib enc pf s lt h w).1
          (λ x. k (x.0, mem-cons_of_mem h x.1, x.2, x.3))
          (serve-Since h w (λ e l. k (h, mem-cons_self, e, l)) p)

  -- A code that a run of requests leaves in the store, and that was not there, comes from a login
  -- in that run.
  pub codes_earned :
      (id : String) (c : AuthCode) (hs : List Http) (w : World)
      → w.store.codes id ≡ none
      → (serve_all hs w).store.codes id ≡ some c
      → HasLogin pf s hs c
  codes_earned id c hs w h e =
      serve_all-Since id c (HasLogin pf s hs c) hs w (λ x. x) (λ k. absurd (ground (arith, h, k))) e

  -- If, after any run of requests, the server answers a code that was not in its store before the run with tokens,
  -- then the checks on the code have passed, and the run contains the login form of that very code: a genuine form, an
  -- acceptable request of a registered client and the password of one of its accounts; by a clock
  -- that does not run backwards between the two readings at the redemption.
  pub tokens_traced :
      (hs : List Http) (w : World) (origin : String) (r : Request) (t : TokenResponse)
      → let v : World = serve_all hs w in
        w.store.codes (r.post_form "code") ≡ none
        → r.post_form "grant_type" ≡ grant_authorization_code
        → pf.clock v.reads ≤ pf.clock (suc v.reads)
        → (serve lib enc pf s lt (redemption origin r) v).0.answer ≡ reply (tokens t)
        → (x : Served pf s r v) × HasLogin pf s hs x.code
  unfolding serve run_routed run_endpoint route find_route or_landing
  tokens_traced hs w origin r t h g le e =
      let v : World = serve_all hs w in
      let answered : (handle_token pf s r v).0 ≡ tokens t = cc in
      let granted = grant_of_code pf s r v t _ g (tokens_went_on pf s r v t answered) in
      let x = handle_code_grant-Served pf s r v _ (tokens t) le granted in
      (x, codes_earned (r.post_form "code") x.code hs w h x.stored)

  -- If the server answers a code with tokens and, after any run of requests, answers the same code with tokens again,
  -- then the checks on the code have passed again, and the run contains the login form of that very code; by a clock
  -- that does not run backwards between the two readings at the second redemption.
  pub answered_again :
      (hs : List Http) (w : World) (origin origin' : String) (r r' : Request) (t t' : TokenResponse)
      → let first = serve lib enc pf s lt (redemption origin r) w in
        let v : World = serve_all hs first.1 in
        r.post_form "grant_type" ≡ grant_authorization_code
        → r'.post_form "grant_type" ≡ grant_authorization_code
        → r'.post_form "code" ≡ r.post_form "code"
        → pf.clock v.reads ≤ pf.clock (suc v.reads)
        → first.0.answer ≡ reply (tokens t)
        → (serve lib enc pf s lt (redemption origin' r') v).0.answer ≡ reply (tokens t')
        → (x : Served pf s r' v) × HasLogin pf s hs x.code
  unfolding serve run_routed run_endpoint route find_route or_landing
  answered_again hs w origin origin' r r' t t' g g' same le e e' =
      let answered : (handle_token pf s r w).0 ≡ tokens t = cc in
      let used = served-LacksCode pf s r w t g answered in
      tokens_traced hs _ origin' r' t' (rw same used) g' le e'
