-- ===== src/Examples/Keys.antt =====
-- Runs of the key ring of internal/idp/key.go.
use minidp.Base.{◌≡◌, none, some}
use minidp.Errors.{Result}
use minidp.JsonFile.{Disk}
use minidp.Keys.{SigningKey}
use minidp.Keys.Material.{KeyLibrary, unparsed, rounds}
use minidp.Keys.Loading.{persistent_signing_key-ends}
use minidp.Examples.Ctl.{working, no_files}

-- Keys are stored as they are, and every key has the same thumbprint.
abbrev pub plain_keys : KeyLibrary
plain_keys = record {
  decode_pem = λ raw. some raw;
  encode_pem = λ key. key;
  parse_pkcs1 = λ block. some block;
  parse_pkcs8 = λ block. unparsed;
  public_e = λ key. "AQAB";
  public_n = λ key. key;
  sha256 = λ message. "thumb";
  unmarshal_ring = λ raw. none;
  marshal_ring = λ entries. none;
  generated = some "K1";
  after_wait = λ attempt disk. disk;
}

persistent_signing_key-ends_example :
    (made : Result SigningKey) × (d : Disk) × (rounds plain_keys working 3 0 no_files
      ≡ some (made, d))
persistent_signing_key-ends_example = persistent_signing_key-ends plain_keys working no_files
