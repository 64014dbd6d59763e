-- ===== src/Clients/Hashes.antt =====
-- internal/idp/users.go and clients.go: password hashes, and the hash that a login with an unknown
-- name is checked against. The package bcrypt is a parameter.
use Prim.Native.String.{len}
use minidp.Base.{
  ℕ, zero, suc, ◌≡◌, String, Bool, true, not, ◌||◌, Option, none, some, List, [], ◌∷◌, ltb,
  if◌then◌else◌, arith,
}
use minidp.Strings.{has_prefix}
use minidp.Errors.{
  Result, ok, err, ◌>>◌, refuse_if, upstream, bcrypt_cost_range, >>-eq-ok, refuse_if-eq-ok,
}
use minidp.Clients.{User}

-- `atoi` is strconv.Atoi, with `none` for a text that is no number or a negative one.
pub record Bcrypt : Type 0 where
  pub min_cost : ℕ
  pub max_cost : ℕ
  pub default_cost : ℕ
  pub generate : String → ℕ → Option String
  pub atoi : String → Option ℕ

abbrev hash_or_upstream : Option String → Result String
hash_or_upstream none = err upstream
hash_or_upstream (some hash) = ok hash

module _ (bcrypt : Bcrypt) where
  abbrev pub out_of_range : ℕ → Bool
  out_of_range cost = ltb cost bcrypt.min_cost || ltb bcrypt.max_cost cost

  unfoldable pub hash_password : String → ℕ → Result String
  hash_password password cost = do
    refuse_if (out_of_range cost) bcrypt_cost_range
    hash_or_upstream (bcrypt.generate password cost)

-- hash[4:6]
abbrev pub skip : ℕ → String → String
skip zero s = s
skip (suc n) String.[] = ""
skip (suc n) (String.◌∷◌ c s) = skip n s

abbrev pub first : ℕ → String → String
first zero s = ""
first (suc n) String.[] = ""
first (suc n) (String.◌∷◌ c s) = String.◌∷◌ c (first n s)

module _ (bcrypt : Bcrypt) where
  abbrev pub cost_or_default : Option ℕ → ℕ
  cost_or_default none = bcrypt.default_cost
  cost_or_default (some cost) = if out_of_range bcrypt cost then bcrypt.default_cost else cost

  unfoldable pub bcrypt_cost_of : String → ℕ
  bcrypt_cost_of hash =
      if ltb (len hash) 7 || not (has_prefix "$" hash)
      then bcrypt.default_cost
      else cost_or_default (bcrypt.atoi (first 2 (skip 4 hash)))

  -- `none` where the source panics.
  unfoldable pub new_dummy_hash : ℕ → Option String
  new_dummy_hash cost = bcrypt.generate "minidp-timing-equalizer-dummy" cost

  unfoldable pub store_cost : List User → ℕ
  unfolding bcrypt_cost_of
  store_cost [] = bcrypt.default_cost
  store_cost (u ∷ us) = bcrypt_cost_of u.password_hash

  -- The dummy hash of newStaticUserStore.
  unfoldable pub dummy_hash : List User → Option String
  unfolding new_dummy_hash store_cost
  dummy_hash users = new_dummy_hash (store_cost users)

  -- A hash that bcrypt generates has sixty bytes, and its cost as two digits after `$2a$`.
  abbrev pub IsModular : Type 0
  IsModular =
      (password : String) (cost : ℕ) (hash : String)
      → bcrypt.generate password cost ≡ some hash
      → (len hash ≡ 60)
        × (has_prefix "$" hash ≡ true)
        × (bcrypt.atoi (first 2 (skip 4 hash)) ≡ some cost)

  hash_or_upstream-ok :
      (o : Option String) (hash : String) → hash_or_upstream o ≡ ok hash → o ≡ some hash
  hash_or_upstream-ok none hash h = cc
  hash_or_upstream-ok (some given) hash h = cc

  -- A hash that was made for an account at some cost makes a login with an unknown name of this client burn a hash of
  -- the same cost, if the account is the first of the client.
  pub dummy_hash_lem :
      (password : String) (cost : ℕ) (u : User) (us : List User)
      → IsModular
      → hash_password bcrypt password cost ≡ ok u.password_hash
      → dummy_hash (u ∷ us) ≡ bcrypt.generate "minidp-timing-equalizer-dummy" cost
  unfolding hash_password dummy_hash store_cost bcrypt_cost_of new_dummy_hash
  dummy_hash_lem password cost u us modular h =
      let (fine, made) = >>-eq-ok (refuse_if (out_of_range bcrypt cost) bcrypt_cost_range) _ h in
      let within = refuse_if-eq-ok (out_of_range bcrypt cost) bcrypt_cost_range fine in
      let (long, dollar, digits) =
        modular password cost u.password_hash
          (hash_or_upstream-ok (bcrypt.generate password cost) u.password_hash made) in
      rw (long, dollar, digits, within) (ground arith)
