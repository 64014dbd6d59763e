-- ===== src/Keys.antt =====
-- internal/idp/key.go: the signing keys of a running provider.
pub mod Material
pub mod Ring
pub mod Rotate
pub mod Loading
pub mod Distinct
pub mod Signs
use minidp.Base.{String, ◌==◌, List, [], ◌∷◌, Option, none, some, if◌then◌else◌}
use minidp.Errors.{Result, ok, err, unknown_kid, upstream}
use minidp.Tokens.Claims.{Claims}

-- A key pair, by its private material; the public half is what verifies with it.
pub record SigningKey : Type 0 where
  pub key : String
  pub kid : String

pub record KeySet : Type 0 where
  pub active : SigningKey
  pub published : List SigningKey

abbrev pub typ_id_token : String
typ_id_token = "JWT"

abbrev pub typ_access_token : String
typ_access_token = "at+jwt"

-- A token whose signature was verified, as github.com/golang-jwt/jwt hands it over.
pub record Token : Type 0 where
  pub typ : String
  pub claims : Claims

unfoldable pub find_kid : String → List SigningKey → Result SigningKey
find_kid kid [] = err unknown_kid
find_kid kid (k ∷ ks) = if k.kid == kid then ok k else find_kid kid ks

-- The key function of the token parser.
unfoldable pub verify_key : KeySet → String → Result SigningKey
unfolding find_kid
verify_key ks kid = find_kid kid ks.published

abbrev or_upstream {ℓ} : {A : Type ℓ} → Option A → Result A
or_upstream none = err upstream
or_upstream (some a) = ok a

-- `signed_string` is the library's signer: the private key, the header's `kid` and `typ`, the claims.
module _ (signed_string : String → String → String → Claims → Option String) where
  unfoldable pub sign_typed : SigningKey → Claims → String → Result String
  sign_typed k claims typ = or_upstream (signed_string k.key k.kid typ claims)

  -- The methods `sign` and `signAccess` of a key set, which use the active key.
  unfoldable pub sign : KeySet → Claims → Result String
  unfolding sign_typed
  sign ks claims = sign_typed ks.active claims typ_id_token

  unfoldable pub sign_access : KeySet → Claims → Result String
  unfolding sign_typed
  sign_access ks claims = sign_typed ks.active claims typ_access_token
