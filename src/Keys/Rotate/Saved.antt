-- ===== src/Keys/Rotate/Saved.antt =====
-- internal/idp/key.go: what a rotation that succeeds has computed and written.
use Prim.Native.String.{◌++◌}
use minidp.Base.{
  ℕ, String, ◌==◌, ◌≡◌, ◌≢◌, refl, sym, ap, ◌∙◌, false, not, ◌||◌, Option, none, some, List, [],
  ◌∷◌, All, Bool-cases, inl, inr, eq_iff, eq_refl, arith,
}
use mathlib.Core.List.{◌++◌ as ◌+++◌}
use mathlib.Core.Path.{subst}
use minidp.Durations.{shift}
use minidp.Strings.{trim_space}
use minidp.Errors.{
  Result, ok, err, ok-eq, >>-eq-ok, >>=-eq-ok, refuse_if, refuse_if-eq-ok, upstream,
  key_dir_required, generated_kid_exists,
}
use minidp.JsonFile.{Io, Disk, is_some, read_scoped_file, close_and_rename, write_temp, create_temp}
use minidp.Keys.{SigningKey}
use minidp.Keys.Material.{
  KeyringEntry, KeyLibrary, key_ring_file_name, jwk_thumbprint, load_signing_key, tmp_of,
}
use minidp.Keys.Ring.{load_found, load_entries, read_key_ring}
use minidp.Keys.Rotate.{
  retire_ring_keys, has_kid, load_or_create_ring, or_fresh, key_file_of, new_entry, persist_key_pem,
  write_ring, save_key_ring, then_save, staged, write_staged, rotate_keys,
}

-- A file was written, by way of the temporary file, and every other one is as it was.
abbrev pub Saved : String → String → String → Disk → Disk → Type 0
Saved path tmp raw d d' = (d' path ≡ some raw) × ((p : String) → p ≢ path → p ≢ tmp → d' p ≡ d p)

abbrev Written : String → String → String → Disk → Result (Unit {0}) × Disk → Type 0
Written path tmp raw d (err e, d') = Unit
Written path tmp raw d (ok u, d') = Saved path tmp raw d d'

write_temp-Written :
    (io : Io) (path tmp : String) (fate : Option String) (raw : String) (d : Disk)
    → Written path tmp raw d (write_temp io path tmp fate raw d)
unfolding write_temp close_and_rename
write_temp-Written io path tmp (some begun) raw d = tt
write_temp-Written io path tmp none raw d = elim (Bool-cases io.closed) [
  | inr e ↦ (simp e tt)
  | inl e ↦ elim (Bool-cases io.renamed) [
    | inr f ↦ (simp (e, f) tt)
    | inl f ↦
        (simp (e, f)
          (
            ground (arith, eq_refl path),
            λ p other temp. ground (arith, eq_iff path p, eq_iff tmp p),
          ))
  ]
]

create_temp-Written :
    (io : Io) (path tmp raw : String) (d : Disk)
    → Written path tmp raw d (create_temp io path tmp raw d)
unfolding create_temp
create_temp-Written io path tmp raw d = elim (Bool-cases (not io.creatable || is_some (d tmp))) [
  | inl e ↦ (rw e tt)
  | inr e ↦ (rw e (write_temp-Written io path tmp io.partial raw d))
]

write_ring-Written :
    (lib : KeyLibrary) (io io_ring : Io) (raw : String) (d : Disk)
    → Written key_ring_file_name
        (tmp_of lib io key_ring_file_name)
        (raw ++ "\n")
        d
        (write_ring lib io io_ring (some raw) d)
unfolding write_ring
write_ring-Written lib io io_ring raw d = elim (Bool-cases io_ring.creatable) [
  | inr e ↦ (simp e tt)
  | inl e ↦
      (simp e (
        write_temp-Written io_ring key_ring_file_name (tmp_of lib io key_ring_file_name)
          io_ring.partial (raw ++ "\n") d))
]

load_signing_key-same :
    (lib : KeyLibrary) (io : Io) (file : String) (d d' : Disk)
    → d' file ≡ d file
    → load_signing_key lib io file d' ≡ load_signing_key lib io file d
unfolding load_signing_key read_scoped_file
load_signing_key-same lib io file d d' e = rw e refl

-- The keys of a ring depend on the files of its entries alone.
pub load_entries-same :
    (lib : KeyLibrary) (io : Io) (es : List KeyringEntry) (d d' : Disk) (a : Option SigningKey)
    → All (λ (e : KeyringEntry). d' e.file ≡ d e.file) es
    → load_entries lib io es d' a ≡ load_entries lib io es d a
unfolding load_entries
load_entries-same lib io [] d d' a h = refl
load_entries-same lib io (e ∷ es) d d' a h = λ i.
    load_found lib io e a (λ met. load_entries-same lib io es d d' met h.1 i)
      (load_signing_key-same lib io e.file d d' h.0 i)

module _ (lib : KeyLibrary) (io io_ring : Io) where
  generated-ok :
      (o : Option String) (fresh key : String)
      → o ≡ some fresh
      → elim o as (λ b. Result String) [ none ↦ err upstream | some k ↦ ok k ] ≡ ok key
      → key ≡ fresh
  generated-ok none fresh key e h = cc
  generated-ok (some k) fresh key e h = ground (arith, e, h)

  pub staged-ok :
      (key_dir : String) (retention now : ℕ) (d : Disk) (es : List KeyringEntry)
      (key fresh : String) (retired : List KeyringEntry)
      → read_key_ring lib io d ≡ ok es
      → lib.generated ≡ some fresh
      → staged lib io io_ring key_dir retention now d ≡ ok (key, retired)
      → (trim_space key_dir ≢ "")
        × (key ≡ fresh)
        × (retire_ring_keys (shift now retention) es ≡ ok retired)
        × (has_kid (jwk_thumbprint lib io key) retired ≡ false)
  unfolding staged load_or_create_ring or_fresh
  staged-ok key_dir retention now d es key fresh retired ring made h =
      let bare = trim_space key_dir == "" in
      let (named, h1) = >>-eq-ok (refuse_if bare key_dir_required) _ h in
      let (opened, h2) = >>-eq-ok (refuse_if (not io.opened) upstream) _ h1 in
      let (found, l, h3) =
        >>=-eq-ok
          (or_fresh lib io io_ring now (is_some (d "minidp-rsa.pem")) (read_key_ring lib io d)) _
          h2 in
      let (late, r, h4) = >>=-eq-ok (retire_ring_keys (shift now retention) found) _ h3 in
      let (k, g, h5) = >>=-eq-ok _ _ h4 in
      let again = has_kid (jwk_thumbprint lib io k) late in
      let (fine, h6) = >>-eq-ok (refuse_if again generated_kid_exists) _ h5 in
      let off = refuse_if-eq-ok bare key_dir_required named in
      let new = refuse_if-eq-ok again generated_kid_exists fine in
      let same_key : k ≡ key = ap (λ (x : String × List KeyringEntry). x.0) (ok-eq h6) in
      let same_ring : late ≡ retired = ap (λ (x : String × List KeyringEntry). x.1) (ok-eq h6) in
      let listed : es ≡ found =
        ok-eq (sym (ap (or_fresh lib io io_ring now (is_some (d "minidp-rsa.pem"))) ring) ∙ l) in
      (
        ground (arith, off, eq_iff (trim_space key_dir) ""),
        sym same_key ∙ generated-ok lib.generated fresh k made g,
        ap (λ (x : List KeyringEntry). retire_ring_keys (shift now retention) x) listed
            ∙ r
            ∙ ap ok same_ring,
        sym (λ i. has_kid (jwk_thumbprint lib io (same_key i)) (same_ring i)) ∙ new,
      )

Written-Saved :
    (path tmp raw : String) (d d' : Disk) (r : Result (Unit {0}) × Disk)
    → Written path tmp raw d r
    → r ≡ (ok tt, d')
    → Saved path tmp raw d d'
Written-Saved path tmp raw d d' (err e, d'') w h = cc
Written-Saved path tmp raw d d' (ok u, d'') w h =
    subst (Saved path tmp raw d) (ap (λ (x : Result (Unit {0}) × Disk). x.1) h) w

module _ (lib : KeyLibrary) (io io_ring : Io) where
  -- The key ring was written with these entries.
  abbrev pub RingSaved : List KeyringEntry → Disk → Disk → Type 0
  RingSaved entries d d' =
      (raw : String) × (lib.marshal_ring entries ≡ some raw)
      × Saved key_ring_file_name (tmp_of lib io key_ring_file_name) (raw ++ "\n") d d'

  write_ring-ok :
      (o : Option String) (d d' : Disk)
      → write_ring lib io io_ring o d ≡ (ok tt, d')
      → (raw : String) × (o ≡ some raw)
        × Saved key_ring_file_name (tmp_of lib io key_ring_file_name) (raw ++ "\n") d d'
  unfolding write_ring
  write_ring-ok none d d' h = cc
  write_ring-ok (some raw) d d' h = (
    raw,
    refl,
    Written-Saved key_ring_file_name (tmp_of lib io key_ring_file_name) (raw ++ "\n") d d' _
        (write_ring-Written lib io io_ring raw d) h,
  )

  then_save-ok :
      (entries : List KeyringEntry) (r : Result (Unit {0}) × Disk) (d' : Disk)
      → then_save lib io io_ring entries r ≡ (ok tt, d')
      → (d : Disk) × (r ≡ (ok tt, d)) × RingSaved entries d d'
  unfolding then_save save_key_ring
  then_save-ok entries (err e, d) d' h = cc
  then_save-ok entries (ok u, d) d' h = (d, refl, write_ring-ok (lib.marshal_ring entries) d d' h)

  -- The new key and the ring that ends with its entry were written.
  abbrev pub Rotated : ℕ → String → List KeyringEntry → Disk → Disk → Type 0
  Rotated now key retired d d' =
      let kid = jwk_thumbprint lib io key in
      let path = key_file_of lib io io_ring kid in
      (d1 : Disk) × Saved path (tmp_of lib io path) (lib.encode_pem key) d d1
      × RingSaved (retired +++ (new_entry lib io io_ring now kid ∷ [])) d1 d'

  pub rotate_keys-Rotated :
      (key_dir : String) (retention now : ℕ) (d d' : Disk)
      → rotate_keys lib io io_ring key_dir retention now d ≡ (ok tt, d')
      → (key : String) × (retired : List KeyringEntry) × (staged lib io io_ring key_dir retention
            now d
          ≡ ok (key, retired))
        × Rotated now key retired d d'
  unfolding rotate_keys write_staged persist_key_pem
  rotate_keys-Rotated key_dir retention now d d' h =
      after (staged lib io io_ring key_dir retention now d) refl h
    where
      after :
          (r : Result (String × List KeyringEntry))
          → staged lib io io_ring key_dir retention now d ≡ r
          → write_staged lib io io_ring now r d ≡ (ok tt, d')
          → (key : String) × (retired : List KeyringEntry) × (staged lib io io_ring key_dir
                retention now d
              ≡ ok (key, retired))
            × Rotated now key retired d d'
      after (err e) q z = cc
      after (ok (key, retired)) q z =
          let kid = jwk_thumbprint lib io key in
          let path = key_file_of lib io io_ring kid in
          let (d1, made, ring) =
            then_save-ok (retired +++ (new_entry lib io io_ring now kid ∷ []))
              (persist_key_pem lib io io_ring path key d) d' z in
          (
            key,
            retired,
            q,
            (
              d1,
              Written-Saved path (tmp_of lib io path) (lib.encode_pem key) d d1 _
                  (create_temp-Written io path (tmp_of lib io path) (lib.encode_pem key) d) made,
              ring,
            ),
          )
