-- ===== src/Handlers/TokenEndpoint/Codes.antt =====
-- When the token endpoint of internal/idp/handlers.go serves an authorization code.
use minidp.Base.{
  suc, ◌≤◌, ◌≡◌, ◌≢◌, true, Option, none, some, eq_iff, arith, Option-cases, inl, inr, drop_where,
  ltb,
}
use minidp.Store.{AuthCode, take_code}
use minidp.Store.SingleUse.{take_code_lem}
use minidp.Clients.Registry.{RegisteredClient}
use minidp.Server.{Platform, Server, World}
use minidp.Server.Exec.{Reply, go}
use minidp.Handlers.{Request}
use minidp.Handlers.ClientAuth.{authenticate_client}
use minidp.Handlers.Pkce.{verify_pkce}
use minidp.Handlers.TokenEndpoint.{handle_code_grant, continue_code, validate_code_grant}

-- What has been checked when a code is served.
pub record Served (pf : Platform) (s : Server) (r : Request) (w : World) : Type 0 where
  pub client : RegisteredClient
  pub code : AuthCode
  pub authenticated : authenticate_client s r pf ≡ go client
  pub stored : w.store.codes (r.post_form "code") ≡ some code
  pub unexpired : pf.clock (suc w.reads) ≤ code.expires_at
  pub own : client.client.client_id ≡ code.client_id
  pub redirect : r.post_form "redirect_uri" ≡ code.redirect_uri
  pub pkce :
      verify_pkce pf.pkce_s256 code.code_challenge code.code_challenge_method
        (r.post_form "code_verifier")
      ≡ true

module _ (pf : Platform) (s : Server) (r : Request) where
  abbrev pub taken : World → Option AuthCode
  taken w = (take_code (pf.clock w.reads) (pf.clock (suc w.reads)) (r.post_form "code") w.store).0

  stored_of :
      (w : World) (ac : AuthCode)
      → taken w
        ≡ drop_where
            (λ c. ltb c.expires_at (pf.clock (suc w.reads)))
            w.store.codes
            (r.post_form "code")
      → taken w ≡ some ac
      → (w.store.codes (r.post_form "code") ≡ some ac) × (pf.clock (suc w.reads) ≤ ac.expires_at)
  stored_of w ac e k = ground arith

  module _ (w w' : World) (reply : Reply) (h : handle_code_grant pf s r w ≡ (go reply, w')) where
    has_client : (rc : RegisteredClient) × (authenticate_client s r pf ≡ go rc)
    unfolding handle_code_grant
    has_client = ground arith

    not_refused : taken w ≢ none
    unfolding handle_code_grant continue_code
    not_refused = λ e. ground arith

    has_code : (ac : AuthCode) × (taken w ≡ some ac)
    has_code = elim (Option-cases (taken w)) [ inl e ↦ absurd (not_refused e) | inr found ↦ found ]

    matches :
        (rc : RegisteredClient) (ac : AuthCode)
        → authenticate_client s r pf ≡ go rc
        → taken w ≡ some ac
        → (rc.client.client_id ≡ ac.client_id)
          × (r.post_form "redirect_uri" ≡ ac.redirect_uri)
          × (verify_pkce pf.pkce_s256 ac.code_challenge ac.code_challenge_method
                (r.post_form "code_verifier")
              ≡ true)
    unfolding handle_code_grant continue_code validate_code_grant
    matches rc ac e k = ground (
      arith,
      eq_iff rc.client.client_id ac.client_id,
      eq_iff (r.post_form "redirect_uri") ac.redirect_uri,
    )

  -- If the token endpoint goes on to issue tokens for a code, then the client has authenticated, and the code is stored,
  -- has not expired, was issued to that client for the redirect URI that the request repeats, and
  -- its PKCE challenge is met, by a clock that does not run backwards between two readings.
  pub handle_code_grant-Served :
      (w w' : World) (reply : Reply)
      → pf.clock w.reads ≤ pf.clock (suc w.reads)
      → handle_code_grant pf s r w ≡ (go reply, w')
      → Served pf s r w
  handle_code_grant-Served w w' reply le h =
      let client = has_client w w' reply h in
      let code = has_code w w' reply h in
      let rest = matches w w' reply h client.0 code.0 client.1 code.1 in
      let valid =
        stored_of w code.0
          (take_code_lem (pf.clock w.reads) (pf.clock (suc w.reads)) (r.post_form "code") w.store
            le).0
          code.1 in
      record {
        client = client.0;
        code = code.0;
        authenticated = client.1;
        stored = valid.0;
        unexpired = valid.1;
        own = rest.0;
        redirect = rest.1;
        pkce = rest.2;
      }
