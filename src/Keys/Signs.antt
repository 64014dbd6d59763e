-- ===== src/Keys/Signs.antt =====
-- internal/idp/key.go: a set of keys that a server starts with verifies what it signs.
use minidp.Base.{
  ℕ, String, ◌==◌, ◌≡◌, refl, sym, ap, ◌∙◌, true, false, not, ◌&&◌, Option, none, some, List, [],
  ◌∷◌, if-cases, inl, inr, ◌⊎◌, eq_iff, eq_refl, arith,
}
use minidp.Errors.{Result, ok, err, ok-eq, >>=-eq-ok}
use minidp.JsonFile.{Io, Disk, is_some}
use minidp.Keys.{SigningKey, KeySet, find_kid, verify_key}
use minidp.Keys.Material.{
  KeyringEntry, KeyLibrary, legacy_kid, load_signing_key, jwk_thumbprint, persistent_signing_key,
}
use minidp.Keys.Ring.{
  Loaded, is_active, is_retiring, prune_retired_keys, publish_entry, load_found, load_entries,
  with_active, load_published_keys, key_set_of, of_single, of_pruned, is_missing, of_ring,
  read_key_ring, key_set_from_dir, new_signing_key_set,
}
use minidp.Keys.Rotate.{has_kid}
use minidp.Keys.Rotate.Retired.{err-ok, publish-ok, keyed}
use minidp.Keys.Distinct.{Distinct, Distinct-absent, prune_retired_keys-Distinct}

-- A key set verifies with its active key what it signs with it.
abbrev pub SignsAsVerified : KeySet → Type 0
SignsAsVerified ks = verify_key ks ks.active.kid ≡ ok ks.active

module _ (lib : KeyLibrary) (io : Io) where
  -- What loading an entry has done: it was left out, or its key is published, and is the active one or not.
  abbrev Loads :
      KeyringEntry
      → Option SigningKey
      → (Option SigningKey → Result Loaded)
      → Option SigningKey
      → List SigningKey
      → Type 0
  Loads e a rest act ks =
      (rest a ≡ ok (act, ks))
      ⊎ ((k : SigningKey) × (tail : List SigningKey) × (k.kid ≡ e.kid)
          × (ks ≡ k ∷ tail)
          × (((a ≡ none) × (rest (some k) ≡ ok (act, tail))) ⊎ (rest a ≡ ok (act, tail))))

  not_some : (a : Option SigningKey) → is_some a ≡ false → a ≡ none
  not_some none h = refl
  not_some (some k) h = cc

  load_found-Loads :
      (e : KeyringEntry) (a act : Option SigningKey) (rest : Option SigningKey → Result Loaded)
      (r : Result SigningKey) (ks : List SigningKey)
      → load_found lib io e a rest r ≡ ok (act, ks)
      → Loads e a rest act ks
  unfolding publish_entry
  load_found-Loads e a act rest (err failure) ks h = elim (if-cases (is_retiring e) _ _ h) [
    | inl x ↦ inl x.1
    | inr x ↦ elim (err-ok x.1) [ ]
  ]
  load_found-Loads e a act rest (ok found) ks h =
      let k = keyed lib io found e.kid in
      elim (if-cases (not (e.kid == legacy_kid) && not (jwk_thumbprint lib io found.key == e.kid)) _
        _ h) [
          | inl x ↦ elim (err-ok x.1) [ ]
          | inr x ↦ elim (if-cases (is_active e) _ _ x.1) [
            | inl y ↦ elim (if-cases (is_some a) _ _ y.1) [
              | inl z ↦ elim (err-ok z.1) [ ]
              | inr z ↦
                  (let (tail, f, t) = publish-ok k (rest (some k)) act ks z.1 in
                    inr (k, tail, refl, t, inl (not_some a z.0, f)))
            ]
            | inr y ↦
                (let (tail, f, t) = publish-ok k (rest a) act ks y.1 in
                  inr (k, tail, refl, t, inr f))
          ]
        ]

  load_entries-Loads :
      (e : KeyringEntry) (es : List KeyringEntry) (d : Disk) (a act : Option SigningKey)
      (ks : List SigningKey)
      → load_entries lib io (e ∷ es) d a ≡ ok (act, ks)
      → Loads e a (λ met. load_entries lib io es d met) act ks
  unfolding load_entries
  load_entries-Loads e es d a act ks h =
      load_found-Loads e a act (λ met. load_entries lib io es d met)
        (load_signing_key lib io e.file d) ks h

  load_entries-nil :
      (d : Disk) (a act : Option SigningKey) (ks : List SigningKey)
      → load_entries lib io [] d a ≡ ok (act, ks)
      → (a ≡ act) × ([] ≡ ks)
  unfolding load_entries
  load_entries-nil d a act ks h =
      (ap (λ (x : Loaded). x.0) (ok-eq h), ap (λ (x : Loaded). x.1) (ok-eq h))

  -- Once an active key is met, it stays the active one.
  active_kept :
      (es : List KeyringEntry) (d : Disk) (k : SigningKey) (act : Option SigningKey)
      (ks : List SigningKey)
      → load_entries lib io es d (some k) ≡ ok (act, ks)
      → act ≡ some k
  active_kept [] d k act ks h = sym (load_entries-nil d (some k) act ks h).0
  active_kept (e ∷ es) d k act ks h = elim (load_entries-Loads e es d (some k) act ks h) [
    | inl f ↦ active_kept es d k act ks f
    | inr (new, tail, kid, q, inl (none_met, f)) ↦ cc
    | inr (new, tail, kid, q, inr f) ↦ active_kept es d k act tail f
  ]

  -- A kid that is published is a kid of the ring.
  published_listed :
      (es : List KeyringEntry) (d : Disk) (a act : Option SigningKey) (ks : List SigningKey)
      (kid : String) (k : SigningKey)
      → load_entries lib io es d a ≡ ok (act, ks)
      → find_kid kid ks ≡ ok k
      → has_kid kid es ≡ true
  unfolding has_kid find_kid
  published_listed [] d a act ks kid k h f =
      let (met, q) = load_entries-nil d a act ks h in elim (err-ok (ap (find_kid kid) q ∙ f)) [ ]
  published_listed (e ∷ es) d a act ks kid k h f = elim (load_entries-Loads e es d a act ks h) [
    | inl g ↦ ground (arith, published_listed es d a act ks kid k g f)
    | inr (new, tail, same, q, inl (none_met, g)) ↦
        ground (arith, published_listed es d (some new) act tail kid k g)
    | inr (new, tail, same, q, inr g) ↦ ground (arith, published_listed es d a act tail kid k g)
  ]

  active_found :
      (seen : List String) (es : List KeyringEntry) (d : Disk) (k : SigningKey)
      (ks : List SigningKey)
      → Distinct seen es
      → load_entries lib io es d none ≡ ok (some k, ks)
      → find_kid k.kid ks ≡ ok k
  unfolding find_kid
  active_found seen [] d k ks u h = let (met, q) = load_entries-nil d none (some k) ks h in cc
  active_found seen (e ∷ es) d k ks u h = elim (load_entries-Loads e es d none (some k) ks h) [
    | inl g ↦ active_found (e.kid ∷ seen) es d k ks u.1 g
    | inr (new, tail, same, q, inl (none_met, g)) ↦
        (let m : some k ≡ some new = active_kept es d new (some k) tail g in
          ground (arith, q, m, eq_refl k.kid))
    | inr (new, tail, same, q, inr g) ↦
        (let f = active_found (e.kid ∷ seen) es d k tail u.1 g in
          let listed = published_listed es d none (some k) tail k.kid k g f in
          let fresh = Distinct-absent (e.kid ∷ seen) e.kid es (ground (arith, eq_refl e.kid)) u.1 in
          ground (arith, q, f, listed, fresh, same, eq_iff new.kid k.kid))
  ]

  with_active-Signs :
      (found : Loaded) (ks : KeySet)
      → with_active lib io found ≡ ok ks
      → (found.0 ≡ some ks.active) × (found.1 ≡ ks.published)
  unfolding with_active
  with_active-Signs (none, keys) ks h = cc
  with_active-Signs (some k, keys) ks h =
      (ap (λ (x : KeySet). some x.active) (ok-eq h), ap (λ (x : KeySet). x.published) (ok-eq h))

  load_published_keys-Signs :
      (es : List KeyringEntry) (d : Disk) (ks : KeySet)
      → Distinct [] es
      → load_published_keys lib io es d ≡ ok ks
      → SignsAsVerified ks
  unfolding load_published_keys verify_key
  load_published_keys-Signs es d ks u h =
      let (found, l, w) = >>=-eq-ok (load_entries lib io es d none) _ h in
      let (a, p) = with_active-Signs found ks w in
      active_found [] es d ks.active ks.published u (l ∙ ap ok (λ i. (a i, p i)))

  key_set_of-Signs : (k : SigningKey) → SignsAsVerified (key_set_of lib io k)
  unfolding key_set_of verify_key find_kid
  key_set_of-Signs k = rw (eq_refl k.kid) refl

  of_single-Signs :
      (r : Result SigningKey × Disk) (ks : KeySet) (d : Disk)
      → of_single lib io r ≡ (ok ks, d)
      → SignsAsVerified ks
  of_single-Signs (err e, d') ks d h = cc
  of_single-Signs (ok k, d') ks d h =
      let q : key_set_of lib io k ≡ ks = ok-eq (ap (λ (x : Result KeySet × Disk). x.0) h) in
      rw (← q) (key_set_of-Signs k)

  of_ring-Signs :
      (now : ℕ) (ring : Result (List KeyringEntry)) (d d' : Disk) (ks : KeySet)
      → of_ring lib io now ring d ≡ (ok ks, d')
      → SignsAsVerified ks
  unfolding of_ring
  of_ring-Signs now (err e) d d' ks h = elim (if-cases (is_missing lib io e) _ _ h) [
    | inl x ↦ of_single-Signs (persistent_signing_key lib io d) ks d' x.1
    | inr x ↦ cc
  ]
  of_ring-Signs now (ok es) d d' ks h = pruned (prune_retired_keys io now es d) refl
    where
      pruned :
          (r : Result (List KeyringEntry) × Disk)
          → prune_retired_keys io now es d ≡ r
          → SignsAsVerified ks
      pruned (err e, d'') p =
          let z : of_pruned lib io (err e, d'') ≡ (ok ks, d') =
            sym (ap (λ (x : Result (List KeyringEntry) × Disk). of_pruned lib io x) p) ∙ h in
          cc
      pruned (ok kept, d'') p =
          let z : of_pruned lib io (ok kept, d'') ≡ (ok ks, d') =
            sym (ap (λ (x : Result (List KeyringEntry) × Disk). of_pruned lib io x) p) ∙ h in
          load_published_keys-Signs kept d'' ks (prune_retired_keys-Distinct io now es kept d d'' p)
            (ap (λ (x : Result KeySet × Disk). x.0) z)

  -- The keys that a server starts with, from a file, from the key directory or in memory, verify with the active key
  -- itself what is signed with it: no other published key goes by its id.
  pub new_signing_key_set-Signs :
      (pem_path key_dir : String) (now : ℕ) (d d' : Disk) (ks : KeySet)
      → new_signing_key_set lib io pem_path key_dir now d ≡ (ok ks, d')
      → SignsAsVerified ks
  unfolding new_signing_key_set key_set_from_dir
  new_signing_key_set-Signs pem_path key_dir now d d' ks h =
      elim (if-cases (not (pem_path == "")) _ _ h) [
        | inl x ↦ of_single-Signs (load_signing_key lib io pem_path d, d) ks d' x.1
        | inr x ↦ elim (if-cases (not (key_dir == "")) _ _ x.1) [
          | inl y ↦ elim (if-cases io.opened _ _ y.1) [
            | inl z ↦ of_ring-Signs now (read_key_ring lib io d) d d' ks z.1
            | inr z ↦ cc
          ]
          | inr y ↦ of_single-Signs _ ks d' y.1
        ]
      ]
