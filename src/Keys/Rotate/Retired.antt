-- ===== src/Keys/Rotate/Retired.antt =====
-- internal/idp/key.go: the keys of a ring whose entries are retired are loaded as before.
use minidp.Base.{
  ℕ, String, ◌==◌, ◌≡◌, refl, sym, ap, ◌∙◌, true, false, not, ◌&&◌, Option, some, List, [], ◌∷◌,
  Bool-cases, if-cases, inl, inr, arith, if◌then◌else◌,
}
use minidp.Errors.{
  Error, Result, ok, err, ok-eq, >>-eq-ok, >>=-eq-ok, refuse_if, refuse_if-eq-ok,
  keyring_state_invalid,
}
use minidp.JsonFile.{Io, Disk, is_some}
use minidp.Keys.{SigningKey}
use minidp.Keys.Material.{KeyringEntry, KeyLibrary, legacy_kid, load_signing_key, jwk_thumbprint}
use minidp.Keys.Ring.{
  Loaded, is_active, is_retiring, key_state_retiring, publish, publish_entry, load_found,
  load_entries,
}
use minidp.Keys.Rotate.{retire_ring_keys}

pub err-ok {ℓ} : {A : Type ℓ} {e : Error} {a : A} → err e ≡ ok a → ⊥
err-ok h = cc

-- An entry after the rotation.
abbrev pub retired_entry : ℕ → KeyringEntry → KeyringEntry
retired_entry h e =
    if is_active e then record e { state = key_state_retiring; retire_at = h } else e

pub retire-cons :
    (h : ℕ) (e : KeyringEntry) (es es' : List KeyringEntry)
    → retire_ring_keys h (e ∷ es) ≡ ok es'
    → (rest : List KeyringEntry) × (retire_ring_keys h es ≡ ok rest)
      × (es' ≡ retired_entry h e ∷ rest)
      × ((not (is_active e) && not (is_retiring e)) ≡ false)
unfolding retire_ring_keys
retire-cons h e es es' r =
    let bad = not (is_active e) && not (is_retiring e) in
    let (fine, r1) = >>-eq-ok (refuse_if bad keyring_state_invalid) _ r in
    let (rest, r2, r3) = >>=-eq-ok (retire_ring_keys h es) _ r1 in
    (rest, r2, sym (ok-eq r3), refuse_if-eq-ok bad keyring_state_invalid fine)

pub publish-ok :
    (k : SigningKey) (rest : Result Loaded) (a : Option SigningKey) (ks : List SigningKey)
    → publish k rest ≡ ok (a, ks)
    → (tail : List SigningKey) × (rest ≡ ok (a, tail)) × (ks ≡ k ∷ tail)
unfolding publish
publish-ok k (err e) a ks h = cc
publish-ok k (ok (b, tail)) a ks h = (tail, ground arith, ground arith)

retired-states :
    (h : ℕ) (e : KeyringEntry)
    → (not (is_active e) && not (is_retiring e)) ≡ false
    → (is_active (retired_entry h e) ≡ false) × (is_retiring (retired_entry h e) ≡ true)
retired-states h e fine = elim (Bool-cases (is_active e)) [
  | inl on ↦ (simp on (refl, refl))
  | inr off ↦ (simp off (refl, ground arith))
]

pub retired-same :
    (h : ℕ) (e : KeyringEntry)
    → ((retired_entry h e).kid ≡ e.kid) × ((retired_entry h e).file ≡ e.file)
retired-same h e = elim (Bool-cases (is_active e)) [
  | inl on ↦ (simp on (refl, refl))
  | inr off ↦ (simp off (refl, refl))
]

module _ (lib : KeyLibrary) (io : Io) where
  abbrev pub keyed : SigningKey → String → SigningKey
  keyed found kid = record { key = found.key; kid = kid }

  -- An entry whose key is accepted as that of an active or of a retiring entry is accepted as retiring.
  publish-retired :
      (e e' : KeyringEntry) (a b act : Option SigningKey) (F G : Option SigningKey → Result Loaded)
      (found : SigningKey) (ks : List SigningKey)
      → e'.kid ≡ e.kid
      → is_active e' ≡ false
      → ((met : Option SigningKey) (tail : List SigningKey)
          → F met ≡ ok (act, tail)
          → G b ≡ ok (b, tail))
      → publish_entry lib io e a F found ≡ ok (act, ks)
      → publish_entry lib io e' b G found ≡ ok (b, ks)
  unfolding publish_entry
  publish-retired e e' a b act F G found ks same off next h =
      let k = keyed found e.kid in
      elim (if-cases (not (e.kid == legacy_kid) && not (jwk_thumbprint lib io found.key == e.kid)) _
        _ h) [
          | inl x ↦ elim (err-ok x.1) [ ]
          | inr x ↦ elim (if-cases (is_active e) _ _ x.1) [
            | inl y ↦ elim (if-cases (is_some a) _ _ y.1) [
              | inl z ↦ elim (err-ok z.1) [ ]
              | inr z ↦
                  (let (tail, f, t) = publish-ok k (F (some k)) act ks z.1 in
                    rw (same, x.0, off, next (some k) tail f, t) (unfold publish in refl))
            ]
            | inr y ↦
                (let (tail, f, t) = publish-ok k (F a) act ks y.1 in
                  rw (same, x.0, off, next a tail f, t) (unfold publish in refl))
          ]
        ]

  found-retired :
      (e e' : KeyringEntry) (a b act : Option SigningKey) (F G : Option SigningKey → Result Loaded)
      (r : Result SigningKey) (ks : List SigningKey)
      → e'.kid ≡ e.kid
      → is_active e' ≡ false
      → is_retiring e' ≡ true
      → ((met : Option SigningKey) (tail : List SigningKey)
          → F met ≡ ok (act, tail)
          → G b ≡ ok (b, tail))
      → load_found lib io e a F r ≡ ok (act, ks)
      → load_found lib io e' b G r ≡ ok (b, ks)
  found-retired e e' a b act F G (ok found) ks same off on next h =
      publish-retired e e' a b act F G found ks same off next h
  found-retired e e' a b act F G (err failure) ks same off on next h =
      elim (if-cases (is_retiring e) _ _ h) [
        | inl x ↦ rw (on, next a ks x.1) refl
        | inr x ↦ elim (err-ok x.1) [ ]
      ]

  pub load-retired :
      (h : ℕ) (es es' : List KeyringEntry) (d : Disk) (a b act : Option SigningKey)
      (ks : List SigningKey)
      → load_entries lib io es d a ≡ ok (act, ks)
      → retire_ring_keys h es ≡ ok es'
      → load_entries lib io es' d b ≡ ok (b, ks)
  unfolding load_entries
  load-retired h [] es' d a b act ks l r =
      let q : [] ≡ es' = ok-eq (unfold retire_ring_keys in r) in
      let t : [] ≡ ks = ap (λ (x : Loaded). x.1) (ok-eq l) in rw (← q, ← t) refl
  load-retired h (e ∷ es) es' d a b act ks l r =
      let (rest, r', eq, fine) = retire-cons h e es es' r in
      let (off, on) = retired-states h e fine in
      let (kid, file) = retired-same h e in
      let e' = retired_entry h e in
      let done =
        found-retired e e' a b act (λ met. load_entries lib io es d met)
          (λ met. load_entries lib io rest d met) (load_signing_key lib io e.file d) ks kid off on
          (λ met tail f. load-retired h es rest d met b act tail f r') l in
      ap (λ (x : List KeyringEntry). load_entries lib io x d b) eq
      ∙ ap
          (λ (x : String).
            load_found lib io e' b (λ met. load_entries lib io rest d met)
              (load_signing_key lib io x d))
          file
      ∙ done
