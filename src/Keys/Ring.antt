-- ===== src/Keys/Ring.antt =====
-- internal/idp/key.go: the key ring on disk, and the set of keys that a server starts with.
use minidp.Base.{
  ℕ, ltb, String, ◌==◌, Bool, true, false, not, ◌||◌, ◌&&◌, Option, none, some, List, [], ◌∷◌,
  contains, delete, if◌then◌else◌,
}
use minidp.Strings.{eqb}
use minidp.Errors.{
  Error, Result, ok, err, ◌>>=◌, ◌>>◌, refuse_if, upstream, not_exist, keyring_entry_incomplete,
  keyring_state_invalid, keyring_duplicate_kid, keyring_contains_no_keys,
  keyring_thumbprint_mismatch, keyring_multiple_active, keyring_no_active_key,
}
use minidp.JsonFile.{Io, Disk, is_some, read_scoped_file}
use minidp.Keys.{SigningKey, KeySet}
use minidp.Keys.Material.{
  KeyringEntry, KeyLibrary, key_ring_file_name, legacy_kid, load_signing_key, jwk_thumbprint,
  persistent_signing_key,
}

abbrev pub key_state_active : String
key_state_active = "active"

abbrev pub key_state_retiring : String
key_state_retiring = "retiring"

abbrev pub is_active : KeyringEntry → Bool
is_active e = e.state == key_state_active

abbrev pub is_retiring : KeyringEntry → Bool
is_retiring e = e.state == key_state_retiring

-- The tests on one entry; `seen` holds the kids before.
unfoldable pub check_entry : List String → KeyringEntry → Result (Unit {0})
check_entry seen e = do
  refuse_if (e.kid == "" || e.file == "") keyring_entry_incomplete
  refuse_if (not (is_active e) && not (is_retiring e)) keyring_state_invalid
  refuse_if (contains seen e.kid) keyring_duplicate_kid

-- The retention horizon has passed.
unfoldable pub is_expired : ℕ → KeyringEntry → Bool
is_expired now e = is_retiring e && (not (eqb e.retire_at 0) && ltb e.retire_at now)

abbrev pub keep_entry :
    KeyringEntry → Result (List KeyringEntry) × Disk → Result (List KeyringEntry) × Disk
keep_entry e (err failure, disk) = (err failure, disk)
keep_entry e (ok kept, disk) = (ok (e ∷ kept), disk)

-- root.Remove, which may find no such file.
unfoldable pub remove_key_file : Io → String → Disk → Result Disk
remove_key_file io name disk =
    if is_some (disk name) && not io.removed then err upstream else ok (delete name disk)

-- A failure ends the loop, with the directory as it is.
abbrev pub unless_failed {ℓ} :
    {A : Type ℓ}
    → Result A
    → Disk
    → Result (List KeyringEntry) × Disk
    → Result (List KeyringEntry) × Disk
unless_failed (err failure) disk rest = (err failure, disk)
unless_failed (ok a) disk rest = rest

unfoldable pub prune_entries :
    Io → ℕ → List String → List KeyringEntry → Disk → Result (List KeyringEntry) × Disk
unfolding check_entry is_expired remove_key_file
prune_entries io now seen [] disk = (ok [], disk)
prune_entries io now seen (e ∷ es) disk =
    let kept = keep_entry e (prune_entries io now (e.kid ∷ seen) es disk) in
    let pruned = prune_entries io now (e.kid ∷ seen) es (delete e.file disk) in
    unless_failed (check_entry seen e) disk (
      if is_expired now e then unless_failed (remove_key_file io e.file disk) disk pruned else kept)

abbrev pub not_empty : Result (List KeyringEntry) × Disk → Result (List KeyringEntry) × Disk
not_empty (ok [], disk) = (err keyring_contains_no_keys, disk)
not_empty (ok (e ∷ es), disk) = (ok (e ∷ es), disk)
not_empty (err failure, disk) = (err failure, disk)

unfoldable pub prune_retired_keys :
    Io → ℕ → List KeyringEntry → Disk → Result (List KeyringEntry) × Disk
unfolding prune_entries
prune_retired_keys io now entries disk = not_empty (prune_entries io now [] entries disk)

-- The active key, if one was met, and the published keys.
abbrev pub Loaded : Type 0
Loaded = Option SigningKey × List SigningKey

unfoldable pub publish : SigningKey → Result Loaded → Result Loaded
publish k (err failure) = err failure
publish k (ok (active, published)) = ok (active, k ∷ published)

module _ (lib : KeyLibrary) (io : Io) where
  -- What the loop does with the key of an entry, given how it goes on.
  unfoldable pub publish_entry :
      KeyringEntry
      → Option SigningKey
      → (Option SigningKey → Result Loaded)
      → SigningKey
      → Result Loaded
  unfolding jwk_thumbprint publish
  publish_entry e active rest found =
      let k : SigningKey = record { key = found.key; kid = e.kid } in
      if not (e.kid == legacy_kid) && not (jwk_thumbprint lib io found.key == e.kid)
      then err keyring_thumbprint_mismatch
      else (if is_active e
          then (if is_some active then err keyring_multiple_active else publish k (rest (some k)))
          else publish k (rest active))

  -- An entry whose key cannot be loaded: a retiring one is dropped.
  abbrev pub skip_entry : KeyringEntry → Result Loaded → Error → Result Loaded
  skip_entry e rest failure = if is_retiring e then rest else err failure

  abbrev pub load_found :
      KeyringEntry
      → Option SigningKey
      → (Option SigningKey → Result Loaded)
      → Result SigningKey
      → Result Loaded
  load_found e active rest (err failure) = skip_entry e (rest active) failure
  load_found e active rest (ok found) = publish_entry e active rest found

  -- The loop of loadPublishedKeys; `active` is the active key met so far.
  unfoldable pub load_entries : List KeyringEntry → Disk → Option SigningKey → Result Loaded
  unfolding publish_entry load_signing_key
  load_entries [] disk active = ok (active, [])
  load_entries (e ∷ es) disk active =
      load_found e active (λ met. load_entries es disk met) (load_signing_key lib io e.file disk)

  unfoldable pub key_set_of : SigningKey → KeySet
  key_set_of k = record { active = k; published = k ∷ [] }

  unfoldable pub with_active : Loaded → Result KeySet
  with_active (none, published) = err keyring_no_active_key
  with_active (some k, published) = ok (record { active = k; published = published })

  unfoldable pub load_published_keys : List KeyringEntry → Disk → Result KeySet
  unfolding load_entries with_active
  load_published_keys entries disk = do loaded ← load_entries entries disk none; with_active loaded

  unfoldable pub read_key_ring : Disk → Result (List KeyringEntry)
  read_key_ring disk = do
    raw ← read_scoped_file io key_ring_file_name disk
    elim (lib.unmarshal_ring raw) [ none ↦ err upstream | some entries ↦ ok entries ]

  abbrev pub of_single : Result SigningKey × Disk → Result KeySet × Disk
  of_single (err failure, disk) = (err failure, disk)
  of_single (ok k, disk) = (ok (key_set_of k), disk)

  abbrev pub of_pruned : Result (List KeyringEntry) × Disk → Result KeySet × Disk
  of_pruned (err failure, disk) = (err failure, disk)
  of_pruned (ok kept, disk) = (load_published_keys kept disk, disk)

  abbrev pub is_missing : Error → Bool
  is_missing not_exist = true
  is_missing failure = false

  unfoldable pub of_ring : ℕ → Result (List KeyringEntry) → Disk → Result KeySet × Disk
  unfolding load_published_keys prune_retired_keys key_set_of
  of_ring now (ok entries) disk = of_pruned (prune_retired_keys io now entries disk)
  of_ring now (err failure) disk =
      let legacy = of_single (persistent_signing_key lib io disk) in
      if is_missing failure then legacy else (err failure, disk)

  unfoldable pub key_set_from_dir : ℕ → Disk → Result KeySet × Disk
  unfolding of_ring read_key_ring
  key_set_from_dir now disk =
      if io.opened then of_ring now (read_key_ring disk) disk else (err upstream, disk)

  -- NewSigningKeySet and NewSigningKey: a PEM file, the key directory, or a key in memory.
  unfoldable pub new_signing_key_set : String → String → ℕ → Disk → Result KeySet × Disk
  unfolding key_set_from_dir
  new_signing_key_set pem_path key_dir now disk =
      if not (pem_path == "")
      then of_single (load_signing_key lib io pem_path disk, disk)
      else (if not (key_dir == "")
          then key_set_from_dir now disk
          else of_single (
            elim lib.generated [
              | none ↦ err upstream
              | some key ↦ ok (record { key = key; kid = legacy_kid })
            ],
            disk,
          ))
