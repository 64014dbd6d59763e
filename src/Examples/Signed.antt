-- ===== src/Examples/Signed.antt =====
-- Runs on the tokens of the login form of internal/idp/csrf.go, on signed tokens, and on encoded
-- credentials.
use minidp.Base.{
  ℕ, zero, suc, ◌+◌, String, ◌==◌, ◌≡◌, ◌≢◌, refl, ap, true, not, ◌&&◌, [], some, empty, arith,
  if◌then◌else◌,
}
use minidp.Strings.{strip_fold, trim_space}
use minidp.Errors.{Error, ok, err}
use minidp.Clients.{Client, confidential}
use minidp.Clients.Registry.{index, empty_registry, register, lookup}
use minidp.Keys.{sign, sign_access, sign_typed}
use minidp.Csrf.{Digests, CsrfManager, issue, verify}
use minidp.Csrf.RoundTrip.{IsPlain, lacks, matches, verify-issue}
use minidp.Server.{Platform, Server}
use minidp.Server.Exec.{go, stop, error}
use minidp.Handlers.{Request}
use minidp.Handlers.Accept.{bearer_token}
use minidp.Handlers.ClientAuth.{authenticate_client, invalid_client}
use minidp.Handlers.ClientAuth.Encoded.{SendsEncoded, encoded_secret_refused}
use minidp.Handlers.Resources.{
  handle_userinfo, handle_introspect, handle_revoke, parse_id_token_hint,
}
use minidp.Handlers.Resources.Kinds.{KeepsTyp, kinds_apart}
use minidp.Examples.{app, one_url, differ}
use minidp.Examples.Endpoint.{platform, server, start, redeem}

-- A number as so many strokes.
strokes : ℕ → String
strokes zero = ""
strokes (suc n) = String.◌∷◌ "1" (strokes n)

count : String → ℕ
count String.[] = 0
count (String.◌∷◌ c s) = suc (count s)

count-strokes : (n : ℕ) → count (strokes n) ≡ n
unfolding count strokes
count-strokes zero = refl
count-strokes (suc n) = ap suc (count-strokes n)

strokes-lacks : (n : ℕ) → (lacks b'.' (strokes n) ≡ true) × (lacks b'|' (strokes n) ≡ true)
unfolding strokes
strokes-lacks zero = (refl, refl)
strokes-lacks (suc n) = strokes-lacks n

abbrev simple : Digests
simple = record {
  sha256_hex = λ t. "ab";
  hmac = λ key t. t;
  encode64 = λ t. t;
  decode64 = λ t. some t;
  encode_values = λ vs. "";
  format_int = strokes;
  parse_int = λ t. some (count t);
}

simple-IsPlain : IsPlain simple
simple-IsPlain = record {
  decodes = λ x. refl;
  parses = λ n. ap some (count-strokes n);
  number = strokes-lacks;
  digest = λ x. (refl, refl);
}

abbrev manager : CsrfManager
manager = record { key = "k"; ttl = 5_000_000_000 }

verify-issue_example :
    verify simple manager 4_000_000_000 "/authorize" [] "seed"
      (issue simple manager 1_000_000_000 "/authorize" [] "seed")
    ≡ (not ("seed" == "")
        && matches simple
            (1_000_000_000 + manager.ttl)
            4_000_000_000
            "/authorize"
            []
            "seed"
            "/authorize"
            []
            "seed")
verify-issue_example =
    verify-issue simple manager 1_000_000_000 4_000_000_000 "/authorize" [] "seed" "/authorize" []
      "seed" simple-IsPlain (refl, refl)

-- A library whose tokens are their types.
abbrev typed : Platform
typed = record platform {
  signed_string = λ key kid typ claims. some typ;
  parse_valid = λ find issuer at raw. some (record { typ = raw; claims = empty });
  parse_signed = λ find raw. some (record { typ = raw; claims = empty });
}

typed-KeepsTyp : KeepsTyp typed server
typed-KeepsTyp key kid typ raw claims find t signed =
    (λ parsed. ground (arith, signed, parsed), λ issuer at parsed. ground (arith, signed, parsed))

abbrev bearing : Request
bearing = record redeem { authorization = "Bearer JWT" }

kinds_apart_example :
    (sign typed.signed_string server.keys empty ≡ ok "JWT"
      → bearer_token bearing ≡ "JWT"
      → (handle_userinfo typed server bearing start).0 ≡ go (error 401 "invalid_token"))
    × (sign_access typed.signed_string server.keys empty ≡ ok "JWT"
        → (e : Error) × (parse_id_token_hint typed server "JWT" ≡ err e))
kinds_apart_example = kinds_apart typed server "JWT" empty bearing start typed-KeepsTyp

id_token_test :
    (sign typed.signed_string server.keys empty ≡ ok "JWT") × (bearer_token bearing ≡ "JWT")
unfolding sign sign_typed bearer_token strip_fold trim_space
id_token_test = (refl, refl)

abbrev spaced : Client
spaced = record app { client_secret = "a b" }

abbrev spaced_server : Server
spaced_server = record server { clients = index one_url spaced empty_registry }

abbrev decoding : Platform
decoding = record platform { query_unescape = λ t. if t == "a+b" then some "a b" else some t }

abbrev encoded : Request
encoded = record redeem { basic = some ("app", "a+b"); post_form = λ field. "" }

encoded-SendsEncoded :
    SendsEncoded decoding spaced_server encoded (register spaced) "app" "app" "a+b"
unfolding lookup index confidential register
encoded-SendsEncoded = record {
  basic = refl;
  id_decoded = refl;
  secret_decoded = refl;
  registered = refl;
  kind = refl;
  bare = refl;
}

has_confidential_test : spaced_server.clients.has_confidential ≡ true
unfolding index confidential
has_confidential_test = refl

spaced_differs : "a+b" ≢ (register spaced).client.client_secret
unfolding register
spaced_differs = differ "a+b" "a b" refl

encoded_secret_refused_example :
    (authenticate_client spaced_server encoded decoding ≡ go (register spaced))
    × ((handle_introspect decoding spaced_server encoded start).0 ≡ stop invalid_client)
    × ((handle_revoke decoding spaced_server encoded start).0 ≡ stop invalid_client)
encoded_secret_refused_example =
    encoded_secret_refused decoding spaced_server encoded (register spaced) start "app" "app" "a+b"
      encoded-SendsEncoded has_confidential_test spaced_differs
