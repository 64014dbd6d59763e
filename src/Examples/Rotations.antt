-- ===== src/Examples/Rotations.antt =====
-- Runs of a rotation of the signing keys, and of the start behind it.
use minidp.Durations.{seconds, shift}
use minidp.Base.{
  String, ◌==◌, ◌≡◌, refl, sym, ◌∙◌, Bool, true, false, ◌&&◌, List, [], ◌∷◌, none, some, empty, put,
  eq_iff, arith, if◌then◌else◌, if-cases, inl, inr,
}
use mathlib.Core.Path.{subst}
use minidp.Errors.{ok}
use minidp.Strings.{eqb, trim_space}
use minidp.JsonFile.{Disk, read_scoped_file, read_found, create_temp, write_temp, close_and_rename}
use minidp.Config.{unparsed, load_key_retention, default_retention, env_duration_seconds, env_int}
use minidp.Keys.{SigningKey, KeySet, verify_key}
use minidp.Keys.Material.{
  KeyLibrary, KeyringEntry, jwk_thumbprint, load_signing_key, parse_pem, parse_block,
}
use minidp.Keys.Ring.{
  check_entry, is_expired, load_published_keys, load_entries, publish_entry, publish, with_active,
  read_key_ring, new_signing_key_set,
}
use minidp.Keys.Rotate.{
  retire_ring_keys, has_kid, rotate_keys, staged, write_staged, load_or_create_ring, or_fresh,
  persist_key_pem, then_save, save_key_ring, write_ring,
}
use minidp.Keys.Rotate.Restart.{Current}
use minidp.Start.{Machine, exited, main, rotate_keys_command, rotate_for}
use minidp.Start.Rotation.{Untouched, ReadsBack, rotated_start}
use minidp.Examples.{differ}
use minidp.Examples.Ctl.{working, no_files}
use minidp.Examples.Keys.{plain_keys}
use minidp.Examples.Running.{machine}

abbrev old_entry : KeyringEntry
old_entry = record {
  created_at = 1;
  retire_at = 0;
  kid = "minidp-1";
  file = "minidp-rsa.pem";
  state = "active";
}

abbrev old_keys : KeySet
old_keys = record {
  active = record { key = "K0"; kid = "minidp-1" };
  published = record { key = "K0"; kid = "minidp-1" } ∷ [];
}

-- The ring behind a rotation at the instant 7.
abbrev new_ring : List KeyringEntry
new_ring =
    record old_entry { state = "retiring"; retire_at = 11_100_000_000_007 }
    ∷ record {
      created_at = 7;
      retire_at = 0;
      kid = "thumb";
      file = "minidp-rsa-thumb.pem";
      state = "active";
    }
    ∷ []

is_entry : KeyringEntry → KeyringEntry → Bool
is_entry e f =
    eqb e.created_at f.created_at
    && (eqb e.retire_at f.retire_at && (e.kid == f.kid && (e.file == f.file && e.state == f.state)))

is_entry-eq : (e f : KeyringEntry) → is_entry e f ≡ true → e ≡ f
unfolding is_entry
is_entry-eq e f h =
    let made : e.created_at ≡ f.created_at = ground (arith, h) in
    let retired : e.retire_at ≡ f.retire_at = ground (arith, h) in
    let kid : e.kid ≡ f.kid = ground (arith, h, eq_iff e.kid f.kid) in
    let file : e.file ≡ f.file = ground (arith, h, eq_iff e.file f.file) in
    let state : e.state ≡ f.state = ground (arith, h, eq_iff e.state f.state) in
    λ i. record {
      created_at = made i;
      retire_at = retired i;
      kid = kid i;
      file = file i;
      state = state i;
    }

is_ring : List KeyringEntry → List KeyringEntry → Bool
unfolding is_entry
is_ring [] [] = true
is_ring [] (f ∷ fs) = false
is_ring (e ∷ es) [] = false
is_ring (e ∷ es) (f ∷ fs) = is_entry e f && is_ring es fs

is_ring-eq : (es fs : List KeyringEntry) → is_ring es fs ≡ true → es ≡ fs
unfolding is_ring
is_ring-eq [] [] h = refl
is_ring-eq [] (f ∷ fs) h = cc
is_ring-eq (e ∷ es) [] h = cc
is_ring-eq (e ∷ es) (f ∷ fs) h =
    let first : is_entry e f ≡ true = ground (arith, h) in
    let rest : is_ring es fs ≡ true = ground (arith, h) in
    λ i. is_entry-eq e f first i ∷ is_ring-eq es fs rest i

-- An encoding of the two rings.
abbrev two_rings : KeyLibrary
two_rings = record plain_keys {
  marshal_ring = λ entries. if is_ring entries new_ring then some "new" else none;
  unmarshal_ring = λ raw. if raw == "old" then some (old_entry ∷ []) else some new_ring;
}

two_rings-ReadsBack : ReadsBack two_rings working
unfolding parse_pem parse_block
two_rings-ReadsBack = (
  λ key. refl,
  λ entries raw h. elim (if-cases (is_ring entries new_ring) _ _ h) [
    | inl e ↦
        (let named : "new" ≡ raw = ground (arith, e.1) in
          rw (← named, is_ring-eq entries new_ring e.0) refl)
    | inr e ↦ cc
  ],
)

abbrev key_machine : Machine
key_machine = record machine {
  lib = two_rings;
  env = record {
    getenv = λ name. if name == "IDP_KEY_DIR" then "keys" else "";
    atoi = λ text. unparsed;
    is_cidr = λ cidr. false;
  };
}

abbrev key_dir : Disk
key_dir = put "keyring.json" "old" (put "minidp-rsa.pem" "K0" empty)

abbrev rotated_dir : Disk
rotated_dir = (main key_machine ("rotate-keys" ∷ []) no_files key_dir).1

retention_test : load_key_retention key_machine.env ≡ ok 11_100_000_000_000
unfolding load_key_retention default_retention env_duration_seconds env_int seconds
retention_test = refl

rotation_test : main key_machine ("rotate-keys" ∷ []) no_files key_dir ≡ (exited 0, rotated_dir)
unfolding main rotate_keys_command rotate_for rotate_keys staged write_staged load_or_create_ring
    or_fresh read_key_ring read_scoped_file read_found retire_ring_keys has_kid jwk_thumbprint
    persist_key_pem then_save save_key_ring write_ring create_temp write_temp close_and_rename
    is_ring is_entry trim_space load_key_retention default_retention env_duration_seconds env_int
    seconds shift
rotation_test = refl

old_loaded : load_published_keys two_rings working (old_entry ∷ []) key_dir ≡ ok old_keys
unfolding load_signing_key parse_pem parse_block read_scoped_file read_found load_published_keys
    load_entries publish_entry publish with_active
old_loaded = refl

old_read : read_key_ring two_rings working key_dir ≡ ok (old_entry ∷ [])
unfolding read_key_ring read_scoped_file read_found
old_read = refl

old-Current : Current 50 [] (old_entry ∷ [])
unfolding check_entry is_expired
old-Current = (refl, refl, tt)

thumbprint_test : jwk_thumbprint two_rings working "K1" ≡ "thumb"
unfolding jwk_thumbprint
thumbprint_test = refl

old-Untouched : Untouched two_rings working working "thumb" old_entry
old-Untouched = (
  differ "minidp-rsa.pem" "minidp-rsa-thumb.pem" refl,
  differ "minidp-rsa.pem" "minidp-rsa-thumb.pem.tmp" refl,
  differ "minidp-rsa.pem" "keyring.json" refl,
  differ "minidp-rsa.pem" "keyring.json.tmp" refl,
)

rotated_start_example :
    (ks : KeySet) × (new_signing_key_set two_rings working "" "keys" 50 rotated_dir
      ≡ (ok ks, rotated_dir))
    × (ks.active.key ≡ "K1")
    × ((kid : String) (old : SigningKey)
        → verify_key old_keys kid ≡ ok old
        → verify_key ks kid ≡ ok old)
rotated_start_example =
    rotated_start key_machine working 50 11_100_000_000_000 no_files key_dir rotated_dir
      (old_entry ∷ []) "K1" old_keys rotation_test retention_test (unfold shift in ground arith)
      (refl, refl) two_rings-ReadsBack refl (λ e. differ "thumb" "" refl (sym thumbprint_test ∙ e))
      old_read old_loaded old-Current
      (
        subst (λ (kid : String). Untouched two_rings working working kid old_entry)
            (sym thumbprint_test) old-Untouched,
        tt,
      )
