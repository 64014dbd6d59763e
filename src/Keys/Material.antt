-- ===== src/Keys/Material.antt =====
-- internal/idp/key.go: keys as files. The packages crypto/rsa, crypto/x509, encoding/pem,
-- encoding/json and crypto/sha256 are parameters; a private key is a text.
use Prim.Native.String.{◌++◌}
use minidp.Base.{ℕ, zero, suc, ltb, String, not, Option, none, some, List, put, if◌then◌else◌}
use minidp.Errors.{Result, ok, err, ◌>>=◌, upstream, no_pem_block, not_an_rsa_key, await_timed_out}
use minidp.JsonFile.{Io, Disk, is_some, read_scoped_file, remove_temp_file, write_temp}
use minidp.Keys.{SigningKey}

-- One entry of keyring.json. Instants count nanoseconds, and 0 is the zero time.
pub record KeyringEntry : Type 0 where
  pub created_at : ℕ
  pub retire_at : ℕ
  pub kid : String
  pub file : String
  pub state : String

-- What x509.ParsePKCS8PrivateKey finds.
pub data Pkcs8 : Type 0 where
  unparsed other_key : Pkcs8
  rsa_key : String → Pkcs8

pub record KeyLibrary : Type 0 where
  pub decode_pem : String → Option String
  pub encode_pem : String → String
  pub parse_pkcs1 : String → Option String
  pub parse_pkcs8 : String → Pkcs8
  -- the public exponent and modulus of a key, encoded, and SHA-256, encoded
  pub public_e : String → String
  pub public_n : String → String
  pub sha256 : String → String
  pub unmarshal_ring : String → Option (List KeyringEntry)
  pub marshal_ring : List KeyringEntry → Option String
  -- rsa.GenerateKey, and what has happened in the key directory after a wait of ten seconds
  pub generated : Option String
  pub after_wait : ℕ → Disk → Disk

abbrev pub key_file_name : String
key_file_name = "minidp-rsa.pem"

abbrev pub key_ring_file_name : String
key_ring_file_name = "keyring.json"

abbrev pub legacy_kid : String
legacy_kid = "minidp-1"

-- One round of the loop in persistentSigningKey: the result, or the directory to try again with.
pub data Round : Type 0 where
  ended : Result SigningKey → Disk → Round
  again : Disk → Round

module _ (lib : KeyLibrary) (io : Io) where
  unfoldable pub parse_block : Option String → Pkcs8 → Result SigningKey
  parse_block (some key) other = ok (record { key = key; kid = legacy_kid })
  parse_block none unparsed = err upstream
  parse_block none other_key = err not_an_rsa_key
  parse_block none (rsa_key key) = ok (record { key = key; kid = legacy_kid })

  unfoldable pub parse_pem : Option String → Result SigningKey
  unfolding parse_block
  parse_pem none = err no_pem_block
  parse_pem (some block) = parse_block (lib.parse_pkcs1 block) (lib.parse_pkcs8 block)

  unfoldable pub load_signing_key : String → Disk → Result SigningKey
  unfolding parse_pem
  load_signing_key path disk = do
    raw ← read_scoped_file io path disk
    parse_pem (lib.decode_pem raw)

  unfoldable pub jwk_thumbprint : String → String
  jwk_thumbprint key = lib.sha256 (
      "{\"e\":\""
      ++ (lib.public_e key ++ ("\",\"kty\":\"RSA\",\"n\":\"" ++ (lib.public_n key ++ "\"}"))))

  abbrev pub tmp_of : String → String
  tmp_of name = name ++ ".tmp"

  abbrev with_key : SigningKey → Result (Unit {0}) × Disk → Result SigningKey × Disk
  with_key k (err e, disk) = (err e, disk)
  with_key k (ok u, disk) = (ok k, disk)

  -- generateAndPersistKey, on the temporary file that was created.
  unfoldable pub generate_and_persist : Option String → String → Disk → Result SigningKey × Disk
  generate_and_persist none path disk = (err upstream, remove_temp_file io (tmp_of path) disk)
  generate_and_persist (some key) path disk =
      with_key (record { key = key; kid = legacy_kid })
        (write_temp io path (tmp_of path) io.partial (lib.encode_pem key) disk)

  -- waitForPeerKey
  unfoldable pub wait_for_peer_key : ℕ → Disk → Round
  wait_for_peer_key attempt disk =
      if is_some (disk key_file_name)
      then again disk
      else (if ltb 0 attempt
          then ended (err await_timed_out) disk
          else again (remove_temp_file io (tmp_of key_file_name) disk))

  unfoldable pub create_key : Disk → Round
  unfolding generate_and_persist
  create_key disk =
      if not io.creatable
      then ended (err upstream) disk
      else (let (made, disk') =
            generate_and_persist lib.generated key_file_name (put (tmp_of key_file_name) "" disk) in
          ended made disk')

  unfoldable pub round : ℕ → Disk → Round
  unfolding load_signing_key wait_for_peer_key create_key
  round attempt disk =
      if is_some (disk key_file_name)
      then ended (load_signing_key key_file_name disk) disk
      else (if is_some (disk (tmp_of key_file_name))
          then wait_for_peer_key attempt (lib.after_wait attempt disk)
          else create_key disk)

  abbrev pub go_on :
      (Disk → Option (Result SigningKey × Disk)) → Round → Option (Result SigningKey × Disk)
  go_on rest (ended made disk) = some (made, disk)
  go_on rest (again disk) = rest disk

  -- The loop, for at most so many rounds; `none` where they are used up.
  unfoldable pub rounds : ℕ → ℕ → Disk → Option (Result SigningKey × Disk)
  unfolding round
  rounds zero attempt disk = none
  rounds (suc fuel) attempt disk =
      go_on (λ disk'. rounds fuel (suc attempt) disk') (round attempt disk)

  abbrev pub or_failed : Option (Result SigningKey × Disk) → Disk → Result SigningKey × Disk
  or_failed none disk = (err upstream, disk)
  or_failed (some made) disk = made

  -- The loop ends within three rounds: Keys.Loading.
  unfoldable pub persistent_signing_key : Disk → Result SigningKey × Disk
  unfolding rounds
  persistent_signing_key disk =
      if io.opened then or_failed (rounds 3 0 disk) disk else (err upstream, disk)
