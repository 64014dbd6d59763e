-- ===== src/Tokens/Claims.antt =====
-- The claims of a signed token as the program reads them back: internal/idp/tokens.go writes them
-- with the JSON names of its structs, and leaves out the empty ones that are marked `omitempty`.
use minidp.Base.{
  ℕ, String, ◌==◌, Bool, List, [], ◌∷◌, Option, none, some, Map, empty, put, if◌then◌else◌,
}
use minidp.Tokens.{RegisteredClaims, AccessClaims, IdClaims}

-- A JSON value, as far as the program tells values apart.
pub data Value : Type 0 where
  text : String → Value
  number : ℕ → Value
  texts : List String → Value
  flag : Bool → Value
  other : Value

abbrev pub Claims : Type 0
Claims = Map Value

-- claimString
claim_text : Option Value → String
claim_text (some (text s)) = s
claim_text _ = ""

unfoldable pub claim_string : Claims → String → String
unfolding claim_text
claim_string m key = claim_text (m key)

-- The claims `aud` and `exp`, as the library reads them: a single audience is a list of one.
audience_value : Option Value → List String
audience_value (some (text s)) = s ∷ []
audience_value (some (texts ss)) = ss
audience_value _ = []

unfoldable pub get_audience : Claims → List String
unfolding audience_value
get_audience m = audience_value (m "aud")

expiry_value : Option Value → Option ℕ
expiry_value (some (number n)) = some n
expiry_value _ = none

unfoldable pub get_expiration : Claims → Option ℕ
unfolding expiry_value
get_expiration m = expiry_value (m "exp")

abbrev put_text : String → String → Claims → Claims
put_text key s m = if s == "" then m else put key (text s) m

put_texts : String → List String → Claims → Claims
put_texts key [] m = m
put_texts key (s ∷ ss) m = put key (texts (s ∷ ss)) m

of_registered : RegisteredClaims → Claims
of_registered rc = put_text "iss" rc.issuer (
    put_text "sub" rc.subject (
      put "aud" (texts rc.audience) (
        put "exp" (number rc.expires_at) (
          put "nbf" (number rc.not_before)
            (put "iat" (number rc.issued_at) (put_text "jti" rc.id empty))))))

unfoldable pub of_access : AccessClaims → Claims
unfolding put_texts of_registered
of_access c = put "client_id" (text c.client_id) (
    put_text "azp" c.azp (
      put_text "idtyp" c.idtyp (
        put_text "scp" c.scp (
          put_text "scope" c.scope (
            put_text "preferred_username" c.username (
              put_text "email" c.email
                (put_texts "roles" c.roles (of_registered c.registered))))))))

unfoldable pub of_id : IdClaims → Claims
unfolding put_texts of_registered
of_id c = put_text "azp" c.azp (
    put_text "nonce" c.nonce (
      put_text "email" c.email (
        put_text "name" c.name (
          put_text "preferred_username" c.preferred_username (
            put_text "sid" c.session_id
              (put_texts "roles" c.roles (of_registered c.registered)))))))
