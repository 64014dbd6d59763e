-- ===== src/Keys/Rotate/Staged.antt =====
-- internal/idp/key.go: a rotated key ring publishes every key that the old one published, and signs
-- with the new key.
use minidp.Base.{
  ℕ, String, ◌==◌, ◌≡◌, refl, ap, ◌∙◌, true, not, ◌&&◌, Option, none, some, List, [], ◌∷◌, ◌++◌,
  Bool-cases, if-cases, inl, inr, eq_refl,
}
use minidp.Errors.{Result, ok, err, ok-eq, >>=-eq-ok}
use minidp.JsonFile.{Io, Disk, is_some}
use minidp.Keys.{SigningKey, KeySet, verify_key, find_kid}
use minidp.Keys.Material.{KeyringEntry, KeyLibrary, legacy_kid, load_signing_key, jwk_thumbprint}
use minidp.Keys.Ring.{
  Loaded, is_active, is_retiring, publish, publish_entry, load_found, load_entries,
  load_published_keys, with_active,
}
use minidp.Keys.Rotate.{retire_ring_keys}
use minidp.Keys.Rotate.Retired.{err-ok, publish-ok, keyed, load-retired}

module _ (lib : KeyLibrary) (io : Io) where
  publish-append :
      (k : SigningKey) (r s : Result Loaded) (act c : Option SigningKey) (ks more : List SigningKey)
      → ((tail : List SigningKey) → r ≡ ok (act, tail) → s ≡ ok (c, tail ++ more))
      → publish k r ≡ ok (act, ks)
      → publish k s ≡ ok (c, ks ++ more)
  publish-append k r s act c ks more next h =
      let (tail, f, t) = publish-ok k r act ks h in rw (next tail f, t) (unfold publish in refl)

  found-append :
      (e : KeyringEntry) (a act c : Option SigningKey) (F G : Option SigningKey → Result Loaded)
      (r : Result SigningKey) (ks more : List SigningKey)
      → ((met : Option SigningKey) (tail : List SigningKey)
          → F met ≡ ok (act, tail)
          → G met ≡ ok (c, tail ++ more))
      → load_found lib io e a F r ≡ ok (act, ks)
      → load_found lib io e a G r ≡ ok (c, ks ++ more)
  unfolding publish_entry
  found-append e a act c F G (err failure) ks more next h = elim (if-cases (is_retiring e) _ _ h) [
    | inl x ↦ rw x.0 (next a ks x.1)
    | inr x ↦ elim (err-ok x.1) [ ]
  ]
  found-append e a act c F G (ok found) ks more next h =
      let k = keyed lib io found e.kid in
      elim (if-cases (not (e.kid == legacy_kid) && not (jwk_thumbprint lib io found.key == e.kid)) _
        _ h) [
          | inl x ↦ elim (err-ok x.1) [ ]
          | inr x ↦ elim (if-cases (is_active e) _ _ x.1) [
            | inl y ↦ elim (if-cases (is_some a) _ _ y.1) [
              | inl z ↦ elim (err-ok z.1) [ ]
              | inr z ↦
                  rw (x.0, y.0, z.0)
                    (publish-append k (F (some k)) (G (some k)) act c ks more (next (some k)) z.1)
            ]
            | inr y ↦ rw (x.0, y.0) (publish-append k (F a) (G a) act c ks more (next a) y.1)
          ]
        ]

  load-append :
      (es more : List KeyringEntry) (d : Disk) (a act c : Option SigningKey)
      (ks new : List SigningKey)
      → load_entries lib io es d a ≡ ok (act, ks)
      → load_entries lib io more d act ≡ ok (c, new)
      → load_entries lib io (es ++ more) d a ≡ ok (c, ks ++ new)
  unfolding load_entries
  load-append [] more d a act c ks new l m =
      let q : a ≡ act = ap (λ (x : Loaded). x.0) (ok-eq l) in
      let t : [] ≡ ks = ap (λ (x : Loaded). x.1) (ok-eq l) in rw (q, ← t) m
  load-append (e ∷ es) more d a act c ks new l m =
      found-append e a act c (λ met. load_entries lib io es d met)
        (λ met. load_entries lib io (es ++ more) d met) (load_signing_key lib io e.file d) ks new
        (λ met tail f. load-append es more d met act c tail new f m) l

  load-new :
      (n : KeyringEntry) (k : SigningKey) (d : Disk)
      → load_signing_key lib io n.file d ≡ ok k
      → jwk_thumbprint lib io k.key ≡ n.kid
      → is_active n ≡ true
      → load_entries lib io (n ∷ []) d none
        ≡ ok (some (keyed lib io k n.kid), keyed lib io k n.kid ∷ [])
  unfolding load_entries publish_entry publish
  load-new n k d l t on = elim (Bool-cases (n.kid == legacy_kid)) [
    | inl e ↦ rw (l, t, eq_refl n.kid, on, e) refl
    | inr e ↦ rw (l, t, eq_refl n.kid, on, e) refl
  ]

  find_kid-append :
      (kid : String) (ks more : List SigningKey) (k : SigningKey)
      → find_kid kid ks ≡ ok k
      → find_kid kid (ks ++ more) ≡ ok k
  unfolding find_kid
  find_kid-append kid [] more k h = cc
  find_kid-append kid (x ∷ ks) more k h = elim (if-cases (x.kid == kid) _ _ h) [
    | inl e ↦ rw e.0 e.1
    | inr e ↦ rw e.0 (find_kid-append kid ks more k e.1)
  ]

  with_active-published :
      (act : Option SigningKey) (keys : List SigningKey) (ks : KeySet)
      → with_active lib io (act, keys) ≡ ok ks
      → keys ≡ ks.published
  unfolding with_active
  with_active-published none keys ks h = cc
  with_active-published (some k) keys ks h = ap (λ (x : KeySet). x.published) (ok-eq h)

  published-all :
      (es : List KeyringEntry) (d : Disk) (ks : KeySet)
      → load_published_keys lib io es d ≡ ok ks
      → (act : Option SigningKey) × (load_entries lib io es d none ≡ ok (act, ks.published))
  unfolding load_published_keys
  published-all es d ks h =
      let ((act, keys), l, w) = >>=-eq-ok (load_entries lib io es d none) _ h in
      (act, l ∙ ap (λ (x : List SigningKey). ok (act, x)) (with_active-published act keys ks w))

  -- If a ring can be loaded from a directory, and so can a new key of the thumbprint that a new active entry names,
  -- then the rotated ring with this entry can be loaded. It signs with the new key, and every kid that the old ring
  -- verified is verified with the same key as before.
  pub rotation_keeps_verifying :
      (horizon : ℕ) (es es' : List KeyringEntry) (n : KeyringEntry) (k : SigningKey) (d : Disk)
      (ks : KeySet)
      → load_published_keys lib io es d ≡ ok ks
      → retire_ring_keys horizon es ≡ ok es'
      → load_signing_key lib io n.file d ≡ ok k
      → jwk_thumbprint lib io k.key ≡ n.kid
      → is_active n ≡ true
      → (ks' : KeySet) × (load_published_keys lib io (es' ++ (n ∷ [])) d ≡ ok ks')
        × (ks'.active ≡ record { key = k.key; kid = n.kid })
        × ((kid : String) (old : SigningKey)
            → verify_key ks kid ≡ ok old
            → verify_key ks' kid ≡ ok old)
  unfolding load_published_keys with_active verify_key
  rotation_keeps_verifying horizon es es' n k d ks l r m t on =
      let (act, old) = published-all es d ks l in
      let new = keyed lib io k n.kid in
      let kept = load-retired lib io horizon es es' d none none act ks.published old r in
      let both =
        load-append es' (n ∷ []) d none none (some new) ks.published (new ∷ []) kept
          (load-new n k d m t on) in
      (
        record { active = new; published = ks.published ++ (new ∷ []) },
        rw both refl,
        refl,
        λ kid older h. find_kid-append kid ks.published (new ∷ []) older h,
      )
