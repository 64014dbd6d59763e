-- ===== src/Keys/Rotate/Restart.antt =====
-- internal/idp/key.go: a start after a rotation and before the horizon prunes no key of the ring.
use mathlib.Core.Path.{subst}
use minidp.Base.{
  ℕ, ◌≤◌, String, ◌≡◌, refl, sym, ap, ◌∙◌, true, false, List, [], ◌∷◌, ◌++◌, contains, Bool-cases,
  inl, inr, arith,
}
use minidp.Errors.{ok, ok-eq}
use minidp.JsonFile.{Io, Disk}
use minidp.Keys.{SigningKey, KeySet, verify_key}
use minidp.Keys.Material.{KeyringEntry, KeyLibrary, load_signing_key, jwk_thumbprint}
use minidp.Keys.Ring.{
  is_active, check_entry, is_expired, prune_entries, prune_retired_keys, load_published_keys,
  of_ring, not_empty,
}
use minidp.Keys.Rotate.{retire_ring_keys, has_kid}
use minidp.Keys.Rotate.Retired.{retired_entry, retire-cons, retired-same}
use minidp.Keys.Rotate.Staged.{rotation_keeps_verifying}

-- The entries pass the tests of a start at an instant, and none of them has passed its horizon.
abbrev pub Current : ℕ → List String → List KeyringEntry → Type 0
Current later seen [] = Unit
Current later seen (e ∷ es) =
    (check_entry seen e ≡ ok tt) × (is_expired later e ≡ false) × Current later (e.kid ∷ seen) es

prune_entries-Current :
    (io : Io) (later : ℕ) (seen : List String) (es : List KeyringEntry) (d : Disk)
    → Current later seen es
    → prune_entries io later seen es d ≡ (ok es, d)
unfolding prune_entries
prune_entries-Current io later seen [] d h = refl
prune_entries-Current io later seen (e ∷ es) d h =
    rw (h.0, h.1, prune_entries-Current io later (e.kid ∷ seen) es d h.2) refl

retired-fresh :
    (h later : ℕ) (seen : List String) (e : KeyringEntry)
    → later ≤ h
    → check_entry seen e ≡ ok tt
    → is_expired later e ≡ false
    → (check_entry seen (retired_entry h e) ≡ ok tt)
      × (is_expired later (retired_entry h e) ≡ false)
unfolding check_entry is_expired
retired-fresh h later seen e before c x = elim (Bool-cases (is_active e)) [
  | inl on ↦ (simp on (ground arith, ground arith))
  | inr off ↦
      (let same : retired_entry h e ≡ e = simp off refl in
        (ap (check_entry seen) same ∙ c, ap (is_expired later) same ∙ x))
]

retired-Current :
    (h later : ℕ) (seen : List String) (es es' : List KeyringEntry)
    → later ≤ h
    → Current later seen es
    → retire_ring_keys h es ≡ ok es'
    → Current later seen es'
retired-Current h later seen [] es' before c r =
    let q : [] ≡ es' = ok-eq (unfold retire_ring_keys in r) in subst (Current later seen) q tt
retired-Current h later seen (e ∷ es) es' before c r =
    let (rest, r', same, _) = retire-cons h e es es' r in
    let (x, y) = retired-fresh h later seen e before c.0 c.1 in
    let kid = (retired-same h e).0 in
    let next = retired-Current h later (e.kid ∷ seen) es rest before c.2 r' in
    subst (Current later seen) (sym same)
      (x, y, subst (λ (k : String). Current later (k ∷ seen) rest) (sym kid) next)

append-Current :
    (later : ℕ) (seen : List String) (es : List KeyringEntry) (n : KeyringEntry)
    → Current later seen es
    → Current later [] (n ∷ [])
    → contains seen n.kid ≡ false
    → has_kid n.kid es ≡ false
    → Current later seen (es ++ (n ∷ []))
unfolding has_kid check_entry
append-Current later seen [] n c new f g = (ground (arith, new.0), new.1, tt)
append-Current later seen (e ∷ es) n c new f g =
    (c.0, c.1, append-Current later (e.kid ∷ seen) es n c.2 new (ground arith) (ground arith))

not_empty-append :
    (es : List KeyringEntry) (n : KeyringEntry) (d : Disk)
    → not_empty (ok (es ++ (n ∷ [])), d) ≡ (ok (es ++ (n ∷ [])), d)
not_empty-append [] n d = refl
not_empty-append (e ∷ es) n d = refl

module _ (lib : KeyLibrary) (io : Io) where
  -- Suppose that a ring can be loaded from a directory and passes the tests of a start at an instant `later`, that it
  -- is rotated with a horizon that is not before `later`, and that a key of the thumbprint that a new active entry
  -- names can be loaded. A start at `later` with the rotated ring then prunes nothing and succeeds. It signs with the
  -- new key, and every kid that the old ring verified is verified with the same key as before.
  pub restart_keeps_verifying :
      (later horizon : ℕ) (es es' : List KeyringEntry) (n : KeyringEntry) (k : SigningKey)
      (d : Disk) (ks : KeySet)
      → load_published_keys lib io es d ≡ ok ks
      → Current later [] es
      → retire_ring_keys horizon es ≡ ok es'
      → later ≤ horizon
      → load_signing_key lib io n.file d ≡ ok k
      → jwk_thumbprint lib io k.key ≡ n.kid
      → is_active n ≡ true
      → Current later [] (n ∷ [])
      → has_kid n.kid es' ≡ false
      → (ks' : KeySet) × (of_ring lib io later (ok (es' ++ (n ∷ []))) d ≡ (ok ks', d))
        × (ks'.active ≡ record { key = k.key; kid = n.kid })
        × ((kid : String) (old : SigningKey)
            → verify_key ks kid ≡ ok old
            → verify_key ks' kid ≡ ok old)
  unfolding of_ring prune_retired_keys
  restart_keeps_verifying later horizon es es' n k d ks l c r before m t on new fresh =
      let (ks', loaded, signs, verifies) =
        rotation_keeps_verifying lib io horizon es es' n k d ks l r m t on in
      let current =
        append-Current later [] es' n (retired-Current horizon later [] es es' before c r) new refl
          fresh in
      (
        ks',
        rw
            (
              prune_entries-Current io later [] (es' ++ (n ∷ [])) d current,
              not_empty-append es' n d,
              loaded,
            )
            refl,
        signs,
        verifies,
      )
