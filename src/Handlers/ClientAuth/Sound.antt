-- ===== src/Handlers/ClientAuth/Sound.antt =====
-- Whom the token endpoint of internal/idp/handlers.go takes a request to come from.
use minidp.Base.{
  String, ◌≡◌, refl, ◌⊎◌, inl, inr, Option-cases, Bool-cases, true, false, Option, none, some,
  eq_iff, arith,
}
use minidp.Clients.{confidential}
use minidp.Clients.Registry.{RegisteredClient, lookup}
use minidp.Server.{Platform, Server}
use minidp.Server.Exec.{go}
use minidp.Handlers.{Request}
use minidp.Handlers.ClientAuth.{authenticate_client, auth_client_basic, identify_form_client}

-- The decoded Basic credentials are this id and this secret.
abbrev pub IsBasicOf : Platform → Option (String × String) → String → String → Type 0
IsBasicOf pf none id secret = ⊥
IsBasicOf pf (some (raw_id, raw_pw)) id secret =
    (pf.query_unescape raw_id ≡ some id) × (pf.query_unescape raw_pw ≡ some secret)

-- The form names this id, and presents the secret of a client that has one to keep.
abbrev pub IsFormOf : Request → RegisteredClient → String → Type 0
IsFormOf r rc id =
    (r.post_form "client_id" ≡ id)
    × ((confidential rc.client ≡ false) ⊎ (r.post_form "client_secret" ≡ rc.client.client_secret))

-- The decoded Basic credentials name no confidential client, or there are none.
abbrev pub LeavesForm : Platform → Server → Option (String × String) → Type 0
LeavesForm pf s none = Unit {0}
LeavesForm pf s (some (raw_id, raw_pw)) =
    (id : String) × (found : RegisteredClient) × (pf.query_unescape raw_id ≡ some id)
    × (lookup s.clients id ≡ some found)
    × (confidential found.client ≡ false)

-- The request names the client: by its decoded Basic credentials, with the secret of the confidential client, which
-- a form does not contradict; or by its form, where no Basic credentials of a confidential client are given.
pub record Authentic (pf : Platform) (s : Server) (r : Request) (rc : RegisteredClient)
    : Type 0 where
  pub id : String
  pub registered : lookup s.clients id ≡ some rc
  pub shown :
      (IsBasicOf pf r.basic id rc.client.client_secret
        × (confidential rc.client ≡ true)
        × ((r.post_form "client_id" ≡ "") ⊎ (r.post_form "client_id" ≡ rc.client.client_id)))
      ⊎ (IsFormOf r rc id × LeavesForm pf s r.basic)

module _ (pf : Platform) (s : Server) (r : Request) (rc : RegisteredClient) where
  form-Authentic : LeavesForm pf s r.basic → identify_form_client s r ≡ go rc → Authentic pf s r rc
  unfolding identify_form_client
  form-Authentic free h = record {
    id = r.post_form "client_id";
    registered = ground arith;
    shown = inr (
      (refl, ground (arith, eq_iff (r.post_form "client_secret") rc.client.client_secret)),
      free,
    );
  }

  module _ (raw_id raw_pw id pw : String) (given : r.basic ≡ some (raw_id, raw_pw))
      (named : pf.query_unescape raw_id ≡ some id)
      (shown : pf.query_unescape raw_pw ≡ some pw) where
    decoded-Authentic : auth_client_basic s r pf raw_id raw_pw ≡ go rc → Authentic pf s r rc
    unfolding auth_client_basic
    decoded-Authentic h = elim (Option-cases (lookup s.clients id)) [
      | inl unknown_id ↦ absurd (ground (arith))
      | inr (found, known) ↦ elim (Bool-cases (confidential found.client)) [
        | inl e ↦
            (let same : found ≡ rc = ground arith in
              record {
                id = id;
                registered = ground arith;
                shown = inl (
                  rw given (ground (arith, eq_iff pw found.client.client_secret)),
                  ground arith,
                  ground (
                    arith,
                    same,
                    eq_iff (r.post_form "client_id") "",
                    eq_iff (r.post_form "client_id") found.client.client_id,
                  ),
                );
              })
        | inr e ↦ form-Authentic (rw given (id, found, named, known, e)) (ground (arith))
      ]
    ]

  basic-Authentic :
      (raw_id raw_pw : String)
      → r.basic ≡ some (raw_id, raw_pw)
      → auth_client_basic s r pf raw_id raw_pw ≡ go rc
      → Authentic pf s r rc
  unfolding auth_client_basic
  basic-Authentic raw_id raw_pw given h = elim (Option-cases (pf.query_unescape raw_id)) [
    | inl undecoded ↦ absurd (ground (arith))
    | inr (id, named) ↦ elim (Option-cases (pf.query_unescape raw_pw)) [
      | inl undecoded ↦ absurd (ground (arith))
      | inr (pw, shown) ↦ decoded-Authentic raw_id raw_pw id pw given named shown h
    ]
  ]

  -- A client that authenticates is registered under the id that the request names. Either the decoded Basic credentials
  -- name it, it is confidential, they carry its secret, and the form names no other client; or the form names it, with
  -- its secret if it is confidential, and there are no Basic credentials, or those of a client that is not confidential.
  pub authenticate_client-Authentic : authenticate_client s r pf ≡ go rc → Authentic pf s r rc
  unfolding authenticate_client
  authenticate_client-Authentic h = elim (Option-cases r.basic) [
    | inl none_given ↦ form-Authentic (rw none_given tt) (ground arith)
    | inr ((raw_id, raw_pw), given) ↦ basic-Authentic raw_id raw_pw given (ground arith)
  ]
