-- ===== src/Handlers/ClientAuth.antt =====
-- internal/idp/handlers.go: which client a request to the token endpoint comes from.
pub mod Sound
pub mod Encoded
use minidp.Base.{String, ◌==◌, Bool, true, false, not, ◌&&◌, Option, none, some, if◌then◌else◌}
use minidp.Clients.{confidential}
use minidp.Clients.Registry.{RegisteredClient, lookup}
use minidp.Server.{Platform, Server}
use minidp.Server.Exec.{Reply, error, Outcome, go, stop}
use minidp.Handlers.{Request}

abbrev pub invalid_client : Reply
invalid_client = error 401 "invalid_client"

-- Equality in constant time is equality.
module _ (s : Server) (r : Request) where
  check_form_secret : RegisteredClient → Outcome RegisteredClient
  check_form_secret rc =
      if confidential rc.client && not (r.post_form "client_secret" == rc.client.client_secret)
      then stop invalid_client
      else go rc

  identify_known : Option RegisteredClient → Outcome RegisteredClient
  identify_known none =
      if not (r.post_form "client_secret" == "")
      then stop invalid_client
      else stop (error 400 "invalid_grant")
  identify_known (some rc) = check_form_secret rc

  -- identifyFormClient
  unfoldable pub identify_form_client : Outcome RegisteredClient
  unfolding check_form_secret identify_known
  identify_form_client =
      if r.post_form "client_id" == ""
      then stop (error 400 "invalid_request")
      else identify_known (lookup s.clients (r.post_form "client_id"))

  check_basic_secret : String → RegisteredClient → Outcome RegisteredClient
  check_basic_secret pw rc =
      if not (confidential rc.client)
      then identify_form_client
      else (if not (pw == rc.client.client_secret)
          then stop invalid_client
          else (if not (r.post_form "client_id" == "")
                && not (r.post_form "client_id" == rc.client.client_id)
              then stop invalid_client
              else go rc))

  basic_known : String → Option RegisteredClient → Outcome RegisteredClient
  basic_known pw none = stop invalid_client
  basic_known pw (some rc) = check_basic_secret pw rc

  basic_decoded : Option String → Option String → Outcome RegisteredClient
  basic_decoded (some id) (some pw) = basic_known pw (lookup s.clients id)
  basic_decoded (some id) none = stop invalid_client
  basic_decoded none _ = stop invalid_client

  -- authClientBasic
  unfoldable pub auth_client_basic : Platform → String → String → Outcome RegisteredClient
  unfolding check_basic_secret basic_known basic_decoded identify_form_client
  auth_client_basic pf raw_id raw_pw =
      basic_decoded (pf.query_unescape raw_id) (pf.query_unescape raw_pw)

  choose_auth : Platform → Option (String × String) → Outcome RegisteredClient
  choose_auth pf none = identify_form_client
  choose_auth pf (some (raw_id, raw_pw)) = auth_client_basic pf raw_id raw_pw

  unfoldable pub authenticate_client : Platform → Outcome RegisteredClient
  unfolding choose_auth auth_client_basic identify_form_client
  authenticate_client pf = choose_auth pf r.basic

  -- Whether a credential pair names a confidential client and carries its secret.
  unfoldable pub names_secret : String → String → Bool
  names_secret id pw = elim (lookup s.clients id) [
    | none ↦ false
    | some rc ↦ confidential rc.client && pw == rc.client.client_secret
  ]

  basic_accepted : Platform → Option (String × String) → Bool
  unfolding names_secret
  basic_accepted pf none = false
  basic_accepted pf (some (id, pw)) = elim (pf.query_unescape id) [
    | none ↦ false
    | some raw_id ↦ names_secret raw_id pw
  ]

  -- requireClientAuth: whether the request may go on, and whether its body has been parsed by then.
  unfoldable pub require_client_auth : Platform → Bool × Bool
  unfolding basic_accepted names_secret
  require_client_auth pf =
      if not s.clients.has_confidential
      then (true, false)
      else (if basic_accepted pf r.basic then (true, false) else (
        not (r.post_form "client_id" == "")
            && names_secret (r.post_form "client_id") (r.post_form "client_secret"),
        true,
      ))
