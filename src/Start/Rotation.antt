-- ===== src/Start/Rotation.antt =====
-- main.go and internal/idp/key.go: `minidp rotate-keys`, and the next start of the server.
use Prim.Native.String.{◌++◌}
use minidp.Base.{
  ℕ, ◌≤◌, String, ◌==◌, ◌≡◌, ◌≢◌, refl, sym, ap, ◌∙◌, true, false, none, some, List, [], ◌∷◌, All,
  Bool-cases, inl, inr, eq_iff, arith,
}
use mathlib.Core.List.{◌++◌ as ◌+++◌}
use minidp.Durations.{shift}
use minidp.Strings.{trim_space, has_prefix}
use minidp.Errors.{Result, ok, err}
use minidp.JsonFile.{Io, Disk, read_found, read_scoped_file}
use minidp.Keys.{SigningKey, KeySet, verify_key}
use minidp.Keys.Material.{
  KeyringEntry, KeyLibrary, legacy_kid, key_ring_file_name, jwk_thumbprint, load_signing_key,
  parse_pem, tmp_of,
}
use minidp.Keys.Ring.{
  check_entry, is_expired, load_published_keys, of_ring, read_key_ring, key_set_from_dir,
  new_signing_key_set,
}
use minidp.Keys.Rotate.{has_kid, key_file_of, new_entry, rotate_keys}
use minidp.Keys.Rotate.Restart.{Current, restart_keeps_verifying}
use minidp.Keys.Rotate.Saved.{RingSaved, Rotated, load_entries-same, staged-ok, rotate_keys-Rotated}
use mathlib.Core.Path.{subst}
use text.Mathlib.TextLemmas.{cons-append}
use minidp.Config.{load_key_retention}
use minidp.Start.{Machine, Exit, exited, exit_of, rotate_for, rotate_keys_command, main}

-- A file of the key directory that a rotation to this key does not write.
abbrev pub Untouched : KeyLibrary → Io → Io → String → KeyringEntry → Type 0
Untouched lib io io_ring kid e =
    let path = key_file_of lib io io_ring kid in
    (e.file ≢ path)
    × (e.file ≢ tmp_of lib io path)
    × (e.file ≢ key_ring_file_name)
    × (e.file ≢ tmp_of lib io key_ring_file_name)

-- Private keys and key rings read back as they were written.
abbrev pub ReadsBack : KeyLibrary → Io → Type 0
ReadsBack lib io =
    ((key : String)
      → parse_pem lib io (lib.decode_pem (lib.encode_pem key))
        ≡ ok (record { key = key; kid = legacy_kid }))
    × ((entries : List KeyringEntry) (raw : String)
        → lib.marshal_ring entries ≡ some raw
        → lib.unmarshal_ring (raw ++ "\n") ≡ some entries)

key_file-begins : (rest : String) → has_prefix "m" ("minidp-rsa-" ++ rest) ≡ true
unfolding has_prefix
key_file-begins rest = rw (cons-append "m" "inidp-rsa-" rest) refl

-- The file of a key has not the name of the ring, nor of the ring's temporary file.
key_file-ne : (rest name : String) → has_prefix "m" name ≡ false → "minidp-rsa-" ++ rest ≢ name
key_file-ne rest name h = λ e.
    let same = sym (key_file-begins rest) ∙ ap (λ (t : String). has_prefix "m" t) e ∙ h in
    false-true same
  where
    false-true : true ≡ false → ⊥
    false-true z = cc

module _ (lib : KeyLibrary) (io io_ring : Io) where
  Untouched-same :
      (now : ℕ) (key : String) (retired es : List KeyringEntry) (d d' : Disk)
      → Rotated lib io io_ring now key retired d d'
      → All (Untouched lib io io_ring (jwk_thumbprint lib io key)) es
      → All (λ (e : KeyringEntry). d' e.file ≡ d e.file) es
  Untouched-same now key retired [] d d' w h = tt
  Untouched-same now key retired (e ∷ es) d d' w h =
      let (d1, one, (raw, marshalled, two)) = w in
      let (a, b, c, t) = h.0 in
      (two.1 e.file c t ∙ one.1 e.file a b, Untouched-same now key retired es d d' w h.1)

  ring-read :
      (io_start : Io) (entries : List KeyringEntry) (d d' : Disk)
      → io_start.readable ≡ true
      → ReadsBack lib io_start
      → RingSaved lib io io_ring entries d d'
      → read_key_ring lib io_start d' ≡ ok entries
  unfolding read_key_ring read_scoped_file read_found
  ring-read io_start entries d d' on back (raw, marshalled, saved) =
      rw (saved.0, on, back.1 entries raw marshalled) refl

  key-read :
      (io_start : Io) (path tmp key : String) (d d' : Disk)
      → io_start.readable ≡ true
      → ReadsBack lib io_start
      → d' path ≡ some (lib.encode_pem key)
      → load_signing_key lib io_start path d' ≡ ok (record { key = key; kid = legacy_kid })
  unfolding load_signing_key read_scoped_file read_found
  key-read io_start path tmp key d d' on back saved = rw (saved, on) (back.0 key)

thumbprint-same :
    (lib : KeyLibrary) (io io' : Io) (key : String)
    → jwk_thumbprint lib io key ≡ jwk_thumbprint lib io' key
unfolding jwk_thumbprint
thumbprint-same lib io io' key = refl

new-Current :
    (lib : KeyLibrary) (io io_ring : Io) (now later : ℕ) (kid : String)
    → kid ≢ ""
    → Current later [] (new_entry lib io io_ring now kid ∷ [])
unfolding check_entry is_expired has_prefix
new-Current lib io io_ring now later kid h =
    let named = key_file-ne (kid ++ ".pem") "" refl in
    let file = "minidp-rsa-" ++ (kid ++ ".pem") in
    (ground (arith, eq_iff kid "", eq_iff file "", h, named), refl, tt)

published-same :
    (lib : KeyLibrary) (io : Io) (es : List KeyringEntry) (d d' : Disk) (ks : KeySet)
    → All (λ (e : KeyringEntry). d' e.file ≡ d e.file) es
    → load_published_keys lib io es d ≡ ok ks
    → load_published_keys lib io es d' ≡ ok ks
unfolding load_published_keys
published-same lib io es d d' ks same h = rw (load_entries-same lib io es d d' none same) h

-- A start in the key directory reads the ring.
start_with_ring :
    (lib : KeyLibrary) (io : Io) (key_dir : String) (later : ℕ) (es : List KeyringEntry) (d : Disk)
    → io.opened ≡ true
    → trim_space key_dir ≢ ""
    → read_key_ring lib io d ≡ ok es
    → new_signing_key_set lib io "" key_dir later d ≡ of_ring lib io later (ok es) d
unfolding new_signing_key_set key_set_from_dir
start_with_ring lib io key_dir later es d on named ring =
    let set : (key_dir == "") ≡ false = elim (Bool-cases (key_dir == "")) [
      | inr e ↦ e
      | inl e ↦
          (let empty : key_dir ≡ "" = ground (arith, e, eq_iff key_dir "") in
            absurd (named (ap trim_space empty ∙ unfold trim_space in refl)))
    ] in
    simp (set, on, ring)

module _ (m : Machine) where
  rotated : (r : Result (Unit {0}) × Disk) (d : Disk) → exit_of m r ≡ (exited 0, d) → r ≡ (ok tt, d)
  rotated (err e, d') d h = cc
  rotated (ok u, d') d h = ap (λ (x : Exit × Disk). (ok tt, x.1)) h

  rotate_main :
      (retention : ℕ) (files dir d : Disk)
      → load_key_retention m.env ≡ ok retention
      → main m ("rotate-keys" ∷ []) files dir ≡ (exited 0, d)
      → rotate_keys m.lib m.io m.io_ring (m.env.getenv "IDP_KEY_DIR") retention m.now dir
        ≡ (ok tt, d)
  unfolding main rotate_keys_command rotate_for
  rotate_main retention files dir d r h =
      sym (ap (λ (x : Result ℕ). rotate_for m x dir) r) ∙ rotated (rotate_keys_command m dir) d h

  -- Suppose that a server can start at an instant `later` from a key directory with a key ring, of which nothing has
  -- expired by then, and that `minidp rotate-keys` succeeds in this directory, with a signed retention that
  -- reaches to `later`, a generated key with a thumbprint, and no entry of the ring in a file that it writes. If
  -- key files and rings read back as they are written, then a start at `later` from the files that the rotation
  -- left succeeds, signs with the generated key, and verifies every kid that the server verified before with
  -- the same key.
  pub rotated_start :
      (io_start : Io) (later retention : ℕ) (files dir dir' : Disk) (es : List KeyringEntry)
      (key : String) (ks : KeySet)
      → main m ("rotate-keys" ∷ []) files dir ≡ (exited 0, dir')
      → load_key_retention m.env ≡ ok retention
      → later ≤ shift m.now retention
      → (io_start.opened ≡ true) × (io_start.readable ≡ true)
      → ReadsBack m.lib io_start
      → m.lib.generated ≡ some key
      → jwk_thumbprint m.lib m.io key ≢ ""
      → read_key_ring m.lib m.io dir ≡ ok es
      → load_published_keys m.lib io_start es dir ≡ ok ks
      → Current later [] es
      → All (Untouched m.lib m.io m.io_ring (jwk_thumbprint m.lib m.io key)) es
      → let key_dir = m.env.getenv "IDP_KEY_DIR" in
        (ks' : KeySet) × (new_signing_key_set m.lib io_start "" key_dir later dir' ≡ (ok ks', dir'))
        × (ks'.active.key ≡ key)
        × ((kid : String) (old : SigningKey)
            → verify_key ks kid ≡ ok old
            → verify_key ks' kid ≡ ok old)
  rotated_start io_start later retention files dir dir' es key ks run kept before on back made print
        ring loaded current apart =
      let (made_key, retired, computed, wrote) =
        rotate_keys-Rotated m.lib m.io m.io_ring (m.env.getenv "IDP_KEY_DIR") retention m.now dir
          dir' (rotate_main retention files dir dir' kept run) in
      let (named, same_key, retires, fresh) =
        staged-ok m.lib m.io m.io_ring (m.env.getenv "IDP_KEY_DIR") retention m.now dir es made_key
          key retired ring made computed in
      let kid = jwk_thumbprint m.lib m.io key in
      let path = key_file_of m.lib m.io m.io_ring kid in
      let n = new_entry m.lib m.io m.io_ring m.now kid in
      let apart_ring = key_file-ne (kid ++ ".pem") key_ring_file_name (unfold has_prefix in refl) in
      let apart_tmp =
        key_file-ne (kid ++ ".pem") (tmp_of m.lib m.io key_ring_file_name)
          (unfold has_prefix in refl) in
      let rotated =
        subst (λ (k : String). Rotated m.lib m.io m.io_ring m.now k retired dir dir') same_key
          wrote in
      let (d1, saved, saved_ring) = rotated in
      let key_there = saved_ring.2.1 path apart_ring apart_tmp ∙ saved.0 in
      let (ks', started, signs, verifies) =
        restart_keeps_verifying m.lib io_start later (shift m.now retention) es retired n
          (record { key = key; kid = legacy_kid }) dir' ks
          (published-same m.lib io_start es dir dir' ks
            (Untouched-same m.lib m.io m.io_ring m.now key retired es dir dir' rotated apart)
            loaded)
          current retires before
          (key-read m.lib m.io m.io_ring io_start path "" key dir dir' on.1 back key_there)
          (thumbprint-same m.lib io_start m.io key) refl
          (new-Current m.lib m.io m.io_ring m.now later kid print)
          (subst (λ (k : String). has_kid (jwk_thumbprint m.lib m.io k) retired ≡ false) same_key
            fresh) in
      (
        ks',
        start_with_ring m.lib io_start (m.env.getenv "IDP_KEY_DIR") later (retired +++ (n ∷ []))
              dir' on.0 named
              (ring-read m.lib m.io m.io_ring io_start (retired +++ (n ∷ [])) d1 dir' on.1 back
                saved_ring)
            ∙ started,
        ap (λ (x : SigningKey). x.key) signs,
        verifies,
      )
