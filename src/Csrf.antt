-- ===== src/Csrf.antt =====
-- internal/idp/csrf.go: the signed tokens of the login form. Byte slices are texts.
pub mod RoundTrip
use Prim.Native.String.{◌++◌}
use minidp.Base.{ℕ, ◌+◌, ◌/◌, String, ◌==◌, Bool, false, not, ◌&&◌, Option, none, some, List, ltb}
use minidp.Strings.{cut}
use minidp.Durations.{second}

-- The functions of Go's library that the tokens are built with: SHA-256 in hexadecimal, HMAC with
-- SHA-256, unpadded base64url, `Values.Encode`, and decimal numbers; `parse_int` is `none` for a text that is no
-- number or a negative one.
pub record Digests : Type 0 where
  pub sha256_hex : String → String
  pub hmac : String → String → String
  pub encode64 : String → String
  pub decode64 : String → Option String
  pub encode_values : List (String × List String) → String
  pub format_int : ℕ → String
  pub parse_int : String → Option ℕ

pub record CsrfManager : Type 0 where
  pub key : String
  pub ttl : ℕ

abbrev pub Values : Type 0
Values = List (String × List String)

module _ (d : Digests) where
  unfoldable pub fingerprint : Values → String
  fingerprint params = d.sha256_hex (d.encode_values params)

  unfoldable pub nonce_fingerprint : String → String
  nonce_fingerprint nonce = d.sha256_hex nonce

  abbrev pub payload_of : ℕ → String → Values → String → String
  payload_of exp action params nonce =
      d.format_int (exp / second)
      ++ ("|" ++ (action ++ ("|" ++ (fingerprint params ++ ("|" ++ nonce_fingerprint nonce)))))

  -- The method `issue`; `at` is what the clock reads.
  unfoldable pub issue : CsrfManager → ℕ → String → Values → String → String
  issue m at action params nonce =
      let payload = payload_of (at + m.ttl) action params nonce in
      payload ++ ("." ++ d.encode64 (d.hmac m.key payload))

  is_text : Option String → String → Bool
  is_text none expected = false
  is_text (some t) expected = t == expected

  unfoldable pub valid_signature : CsrfManager → String → String → Bool
  unfolding is_text
  valid_signature m payload sig = is_text (d.decode64 sig) (d.hmac m.key payload)

  not_past : ℕ → Option ℕ → Bool
  not_past at none = false
  not_past at (some exp_unix) = not (ltb exp_unix (at / second))

  -- The parts of a payload, which are four.
  unfoldable pub claims_match :
      ℕ → String → String → String → String → String → Values → String → Bool
  unfolding not_past
  claims_match at exp act finger seed action params nonce =
      not_past at (d.parse_int exp)
      && (act == action && (finger == fingerprint params && seed == nonce_fingerprint nonce))

  match_last : ℕ → String → Values → String → String → String → Option (String × String) → Bool
  match_last at action params nonce exp act none = false
  match_last at action params nonce exp act (some (finger, seed)) =
      claims_match at exp act finger seed action params nonce

  match_middle : ℕ → String → Values → String → String → Option (String × String) → Bool
  unfolding match_last
  match_middle at action params nonce exp none = false
  match_middle at action params nonce exp (some (act, rest)) =
      match_last at action params nonce exp act (cut b'|' rest)

  match_parts : ℕ → String → Values → String → Option (String × String) → Bool
  unfolding match_middle
  match_parts at action params nonce none = false
  match_parts at action params nonce (some (exp, rest)) =
      match_middle at action params nonce exp (cut b'|' rest)

  verify_parts : CsrfManager → ℕ → String → Values → String → Option (String × String) → Bool
  unfolding match_parts valid_signature
  verify_parts m at action params nonce none = false
  verify_parts m at action params nonce (some (payload, sig)) =
      valid_signature m payload sig && match_parts at action params nonce (cut b'|' payload)

  -- The method `verify`.
  unfoldable pub verify : CsrfManager → ℕ → String → Values → String → String → Bool
  unfolding verify_parts
  verify m at action params nonce token =
      not (nonce == "") && verify_parts m at action params nonce (cut b'.' token)
