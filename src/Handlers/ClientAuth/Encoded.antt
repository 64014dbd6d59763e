-- ===== src/Handlers/ClientAuth/Encoded.antt =====
-- internal/idp/handlers.go: HTTP Basic credentials at the token endpoint, and at introspection and
-- revocation.
use minidp.Base.{String, ◌≡◌, ◌≢◌, refl, true, false, some, eq_iff, eq_refl, arith}
use minidp.Clients.{confidential}
use minidp.Clients.Registry.{RegisteredClient, lookup}
use minidp.Server.{Platform, Server, World}
use minidp.Server.Exec.{stop, go}
use minidp.Handlers.{Request}
use minidp.Handlers.ClientAuth.{
  invalid_client, choose_auth, auth_client_basic, basic_decoded, basic_known, check_basic_secret,
  authenticate_client, names_secret, basic_accepted, require_client_auth,
}
use minidp.Handlers.Resources.{handle_introspect, handle_revoke}

module _ (pf : Platform) (s : Server) (r : Request) where
  -- The request carries the form-encoded id and secret of a confidential client as HTTP Basic credentials, as
  -- RFC 6749 wants them, and no credentials in its body.
  pub record SendsEncoded (rc : RegisteredClient) (id raw_id raw_secret : String) : Type 0 where
    pub basic : r.basic ≡ some (raw_id, raw_secret)
    pub id_decoded : pf.query_unescape raw_id ≡ some id
    pub secret_decoded : pf.query_unescape raw_secret ≡ some rc.client.client_secret
    pub registered : lookup s.clients id ≡ some rc
    pub kind : confidential rc.client ≡ true
    pub bare : r.post_form "client_id" ≡ ""

  accepted_at_token :
      (rc : RegisteredClient) (id raw_id raw_secret : String)
      → SendsEncoded rc id raw_id raw_secret
      → authenticate_client s r pf ≡ go rc
  unfolding authenticate_client choose_auth auth_client_basic basic_decoded basic_known
      check_basic_secret
  accepted_at_token rc id raw_id raw_secret sent =
      rw
        (
          sent.basic,
          sent.id_decoded,
          sent.secret_decoded,
          sent.registered,
          sent.kind,
          eq_refl rc.client.client_secret,
          sent.bare,
        )
        refl

  not_accepted :
      (rc : RegisteredClient) (id raw_id raw_secret : String)
      → SendsEncoded rc id raw_id raw_secret
      → raw_secret ≢ rc.client.client_secret
      → basic_accepted s r pf (some (raw_id, raw_secret)) ≡ false
  unfolding basic_accepted names_secret
  not_accepted rc id raw_id raw_secret sent other = ground (
    arith,
    sent.id_decoded,
    sent.registered,
    sent.kind,
    other,
    eq_iff raw_secret rc.client.client_secret,
  )

  refused_elsewhere :
      (rc : RegisteredClient) (id raw_id raw_secret : String)
      → SendsEncoded rc id raw_id raw_secret
      → s.clients.has_confidential ≡ true
      → raw_secret ≢ rc.client.client_secret
      → require_client_auth s r pf ≡ (false, true)
  unfolding require_client_auth
  refused_elsewhere rc id raw_id raw_secret sent has other =
      simp (has, sent.basic, not_accepted rc id raw_id raw_secret sent other, sent.bare)

  -- A confidential client that sends its form-encoded id and secret as HTTP Basic credentials authenticates at the
  -- token endpoint. Introspection and revocation refuse it with a 401 if its secret is not its own encoding.
  pub encoded_secret_refused :
      (rc : RegisteredClient) (w : World) (id raw_id raw_secret : String)
      → SendsEncoded rc id raw_id raw_secret
      → s.clients.has_confidential ≡ true
      → raw_secret ≢ rc.client.client_secret
      → (authenticate_client s r pf ≡ go rc)
        × ((handle_introspect pf s r w).0 ≡ stop invalid_client)
        × ((handle_revoke pf s r w).0 ≡ stop invalid_client)
  unfolding handle_introspect handle_revoke
  encoded_secret_refused rc w id raw_id raw_secret sent has other =
      let refused = refused_elsewhere rc id raw_id raw_secret sent has other in
      (accepted_at_token rc id raw_id raw_secret sent, rw refused refl, rw refused refl)
