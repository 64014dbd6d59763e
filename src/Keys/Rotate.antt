-- ===== src/Keys/Rotate.antt =====
-- internal/idp/key.go: staging a rotation of the signing key. `io` tells what the calls of the
-- operating system report up to the write of the new key, and `io_ring` what they report after it.
pub mod Retired
pub mod Staged
pub mod Restart
pub mod Saved
use Prim.Native.String.{◌++◌}
use minidp.Base.{
  ℕ, ◌+◌, String, ◌==◌, Bool, true, false, not, ◌||◌, ◌&&◌, Option, none, some, List, [], ◌∷◌,
  if◌then◌else◌,
}
use mathlib.Core.List.{◌++◌ as ◌+++◌}
use minidp.Durations.{shift}
use minidp.Strings.{trim_space}
use minidp.Errors.{
  Result, ok, err, ◌>>=◌, ◌>>◌, refuse_if, upstream, keyring_state_invalid, key_dir_required,
  generated_kid_exists,
}
use minidp.JsonFile.{Io, Disk, is_some, create_temp, write_temp}
use minidp.Keys.Material.{
  KeyringEntry, KeyLibrary, key_ring_file_name, key_file_name, legacy_kid, jwk_thumbprint, tmp_of,
}
use minidp.Keys.Ring.{
  key_state_active, key_state_retiring, is_active, is_retiring, is_missing, read_key_ring,
}

unfoldable pub retire_ring_keys : ℕ → List KeyringEntry → Result (List KeyringEntry)
retire_ring_keys retire_at [] = ok []
retire_ring_keys retire_at (e ∷ es) = do
  refuse_if (not (is_active e) && not (is_retiring e)) keyring_state_invalid
  rest ← retire_ring_keys retire_at es
  ok (
      (if is_active e then record e { state = key_state_retiring; retire_at = retire_at } else e)
      ∷ rest)

-- A kid of an entry.
unfoldable pub has_kid : String → List KeyringEntry → Bool
has_kid kid [] = false
has_kid kid (e ∷ es) = e.kid == kid || has_kid kid es

module _ (lib : KeyLibrary) (io io_ring : Io) where
  abbrev pub legacy_entry : ℕ → KeyringEntry
  legacy_entry now = record {
    created_at = now;
    retire_at = 0;
    kid = legacy_kid;
    file = key_file_name;
    state = key_state_active;
  }

  unfoldable pub or_fresh : ℕ → Bool → Result (List KeyringEntry) → Result (List KeyringEntry)
  or_fresh now has_key (ok entries) = ok entries
  or_fresh now has_key (err failure) =
      if is_missing lib io failure
      then ok (if has_key then legacy_entry now ∷ [] else [])
      else err failure

  unfoldable pub load_or_create_ring : ℕ → Disk → Result (List KeyringEntry)
  unfolding or_fresh read_key_ring
  load_or_create_ring now disk =
      or_fresh now (is_some (disk key_file_name)) (read_key_ring lib io disk)

  abbrev pub key_file_of : String → String
  key_file_of kid = "minidp-rsa-" ++ (kid ++ ".pem")

  abbrev pub new_entry : ℕ → String → KeyringEntry
  new_entry now kid = record {
    created_at = now;
    retire_at = 0;
    kid = kid;
    file = key_file_of kid;
    state = key_state_active;
  }

  unfoldable pub persist_key_pem : String → String → Disk → Result (Unit {0}) × Disk
  persist_key_pem name key disk = create_temp io name (tmp_of lib io name) (lib.encode_pem key) disk

  -- The temporary file is truncated where it exists.
  unfoldable pub write_ring : Option String → Disk → Result (Unit {0}) × Disk
  write_ring none disk = (err upstream, disk)
  write_ring (some raw) disk =
      if not io_ring.creatable
      then (err upstream, disk)
      else write_temp io_ring key_ring_file_name (tmp_of lib io key_ring_file_name) io_ring.partial
          (raw ++ "\n") disk

  unfoldable pub save_key_ring : List KeyringEntry → Disk → Result (Unit {0}) × Disk
  unfolding write_ring
  save_key_ring entries disk = write_ring (lib.marshal_ring entries) disk

  unfoldable pub then_save : List KeyringEntry → Result (Unit {0}) × Disk → Result (Unit {0}) × Disk
  unfolding save_key_ring
  then_save entries (err failure, disk) = (err failure, disk)
  then_save entries (ok u, disk) = save_key_ring entries disk

  -- The new key, and the ring without it: what RotateKeys computes before it writes.
  unfoldable pub staged : String → ℕ → ℕ → Disk → Result (String × List KeyringEntry)
  unfolding load_or_create_ring retire_ring_keys has_kid
  staged key_dir retention now disk = do
    refuse_if (trim_space key_dir == "") key_dir_required
    refuse_if (not io.opened) upstream
    ring ← load_or_create_ring now disk
    retired ← retire_ring_keys (shift now retention) ring
    key ← elim lib.generated [ none ↦ err upstream | some key ↦ ok key ]
    refuse_if (has_kid (jwk_thumbprint lib io key) retired) generated_kid_exists
    ok (key, retired)

  unfoldable pub write_staged :
      ℕ → Result (String × List KeyringEntry) → Disk → Result (Unit {0}) × Disk
  unfolding persist_key_pem then_save
  write_staged now (err failure) disk = (err failure, disk)
  write_staged now (ok (key, retired)) disk =
      let kid = jwk_thumbprint lib io key in
      then_save (retired +++ (new_entry now kid ∷ [])) (persist_key_pem (key_file_of kid) key disk)

  -- RotateKeys in the directory that `key_dir` names.
  unfoldable pub rotate_keys : String → ℕ → ℕ → Disk → Result (Unit {0}) × Disk
  unfolding staged write_staged
  rotate_keys key_dir retention now disk = write_staged now (staged key_dir retention now disk) disk
