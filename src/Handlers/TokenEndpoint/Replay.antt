-- ===== src/Handlers/TokenEndpoint/Replay.antt =====
-- What the token endpoint of internal/idp/handlers.go does to the code that it answers with tokens.
use minidp.Base.{ℕ, String, ◌==◌, ◌≡◌, refl, ap, true, none, eq_iff, arith}
use mathlib.Core.Path.{subst}
use minidp.Store.{Store, take_code}
use minidp.Clients.{grant_authorization_code}
use minidp.Clients.Registry.{RegisteredClient}
use minidp.Tokens.{TokenResponse}
use minidp.Server.{Platform, Server, World}
use minidp.Server.Exec.{
  stop_if, lift, with_store_twice, Reply, tokens, Outcome, go, stop, IsRefusal, is_error,
}
use minidp.Server.Exec.Keeps.{WentOn, Makes, Makes-rest, Makes-first, Makes-with_store_twice}
use minidp.Handlers.{Request}
use minidp.Handlers.ClientAuth.{authenticate_client}
use minidp.Handlers.TokenEndpoint.{
  auth_error, handle_token, handle_code_grant, dispatch_grant, token_program,
}
use minidp.Handlers.Holding.Codes.{continue_code-Keeps}
use minidp.Store.Codes.{CodeIs}
use minidp.Handlers.TokenEndpoint.Refusals.{token_program-Refuses}

abbrev LacksCode : String → Store → Type 0
LacksCode id = CodeIs id (λ o. o ≡ none)

taken-LacksCode :
    (id j : String) → j ≡ id → (t u : ℕ) (st : Store) → LacksCode id (take_code t u j st).1
unfolding take_code
taken-LacksCode id j e t u st = ground (arith, eq_iff j id)

module _ (id : String) (pf : Platform) (s : Server) (r : Request) where
  code_grant-Makes : r.post_form "code" ≡ id → Makes (LacksCode id) (handle_code_grant pf s r)
  unfolding handle_code_grant
  code_grant-Makes e =
      Makes-rest (stop_if (r.post_form "code" == "") (auth_error "invalid_request")) _
        λ (u : Unit {0}).
          Makes-rest (lift (authenticate_client s r pf)) _ λ (rc : RegisteredClient).
            Makes-first (with_store_twice pf (λ t u. take_code t u (r.post_form "code"))) _
              (Makes-with_store_twice pf (λ t u. take_code t u (r.post_form "code"))
                (taken-LacksCode id (r.post_form "code") e))
              (continue_code-Keeps id (λ o. o ≡ none) refl pf s r rc.client)

module _ (pf : Platform) (s : Server) where
  -- Tokens in the answer come from a program that went on.
  pub tokens_went_on :
      (r : Request) (w : World) (t : TokenResponse)
      → (handle_token pf s r w).0 ≡ tokens t
      → token_program pf s r w ≡ (go (tokens t), (handle_token pf s r w).1)
  unfolding handle_token
  tokens_went_on r w t h = went_on (token_program pf s r w) refl
    where
      went_on :
          (x : Outcome Reply × World)
          → token_program pf s r w ≡ x
          → token_program pf s r w ≡ (go (tokens t), (handle_token pf s r w).1)
      went_on (go reply, v) e = ground (arith, e)
      went_on (stop reply, v) e =
          let refused : is_error reply ≡ true =
            subst IsRefusal (ap (λ (x : Outcome Reply × World). x.0) e)
              ((token_program-Refuses pf s r).at w) in
          ground (arith, e, refused)

  pub grant_of_code :
      (r : Request) (w : World) (t : TokenResponse) (w' : World)
      → r.post_form "grant_type" ≡ grant_authorization_code
      → token_program pf s r w ≡ (go (tokens t), w')
      → handle_code_grant pf s r w ≡ (go (tokens t), w')
  unfolding token_program dispatch_grant
  grant_of_code r w t w' g h =
      ground (arith, eq_iff (r.post_form "grant_type") grant_authorization_code)

  -- A code that was answered with tokens is not in the store any more.
  pub served-LacksCode :
      (r : Request) (w : World) (t : TokenResponse)
      → r.post_form "grant_type" ≡ grant_authorization_code
      → (handle_token pf s r w).0 ≡ tokens t
      → (handle_token pf s r w).1.store.codes (r.post_form "code") ≡ none
  served-LacksCode r w t g h =
      let first : handle_code_grant pf s r w ≡ (go (tokens t), (handle_token pf s r w).1) =
        grant_of_code r w t _ g (tokens_went_on r w t h) in
      subst (λ (x : Outcome Reply × World). WentOn x.0 → LacksCode (r.post_form "code") x.1.store)
        first ((code_grant-Makes (r.post_form "code") pf s r refl).at w) tt
