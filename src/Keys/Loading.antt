-- ===== src/Keys/Loading.antt =====
-- internal/idp/key.go: the loop of persistentSigningKey ends.
use minidp.Base.{
  ℕ, suc, not, sym, ap, ◌∙◌, ◌≡◌, refl, some, if-cases, inl, inr, ◌⊎◌, true, false, arith, ltb,
}
use minidp.Errors.{Result}
use minidp.JsonFile.{Io, Disk, is_some}
use minidp.Keys.{SigningKey}
use minidp.Keys.Material.{
  KeyLibrary, Round, ended, again, round, rounds, wait_for_peer_key, create_key, key_file_name,
  tmp_of, load_signing_key,
}

module _ (lib : KeyLibrary) (io : Io) where
  abbrev Ends : ℕ → ℕ → Disk → Type 0
  Ends fuel attempt d =
      (made : Result SigningKey) × (d' : Disk) × (rounds lib io fuel attempt d ≡ some (made, d'))

  Round-cases :
      (r : Round)
      → ((made : Result SigningKey) × (d' : Disk) × (r ≡ ended made d'))
        ⊎ ((d' : Disk) × (r ≡ again d'))
  Round-cases (ended made d') = inl (made, d', refl)
  Round-cases (again d') = inr (d', refl)

  again-eq : (d d' : Disk) → again d ≡ again d' → d ≡ d'
  again-eq d d' h = cc

  ended-again : (made : Result SigningKey) (d d' : Disk) → ended made d ≡ again d' → ⊥
  ended-again made d d' h = cc

  wait-again :
      (attempt : ℕ) (d d' : Disk)
      → wait_for_peer_key lib io attempt d ≡ again d'
      → (is_some (d' key_file_name) ≡ true) ⊎ (ltb 0 attempt ≡ false)
  unfolding wait_for_peer_key
  wait-again attempt d d' h = elim (if-cases (is_some (d key_file_name)) _ _ h) [
    | inl e ↦ inl (ap (λ (x : Disk). is_some (x key_file_name)) (sym (again-eq d d' e.1)) ∙ e.0)
    | inr e ↦ elim (if-cases (ltb 0 attempt) _ _ e.1) [
      | inl f ↦ elim (ended-again _ _ _ f.1) [ ]
      | inr f ↦ inr f.0
    ]
  ]

  -- A round is tried again only if the key file has appeared, or after the first.
  round-again :
      (attempt : ℕ) (d d' : Disk)
      → round lib io attempt d ≡ again d'
      → (is_some (d' key_file_name) ≡ true) ⊎ (ltb 0 attempt ≡ false)
  unfolding round create_key
  round-again attempt d d' h = elim (if-cases (is_some (d key_file_name)) _ _ h) [
    | inl e ↦ elim (ended-again _ _ _ e.1) [ ]
    | inr e ↦ elim (if-cases (is_some (d (tmp_of lib io key_file_name))) _ _ e.1) [
      | inl f ↦ wait-again attempt (lib.after_wait attempt d) d' f.1
      | inr f ↦ elim (if-cases (not io.creatable) _ _ f.1) [
        | inl g ↦ elim (ended-again _ _ _ g.1) [ ]
        | inr g ↦ elim (ended-again _ _ _ g.1) [ ]
      ]
    ]
  ]

  present-Ends :
      (fuel attempt : ℕ) (d : Disk) → is_some (d key_file_name) ≡ true → Ends (suc fuel) attempt d
  unfolding rounds round
  present-Ends fuel attempt d h = (load_signing_key lib io key_file_name d, d, rw h refl)

  later-Ends : (attempt : ℕ) (d : Disk) → Ends 2 (suc attempt) d
  unfolding rounds
  later-Ends attempt d = elim (Round-cases (round lib io (suc attempt) d)) [
    | inl (made, d', e) ↦ (made, d', rw e refl)
    | inr (d', e) ↦ elim (round-again (suc attempt) d d' e) [
      | inl here ↦
          (let (made, d'', f) = present-Ends 0 (suc (suc attempt)) d' here in (made, d'', rw e f))
      | inr first ↦ ground arith
    ]
  ]

  -- Whatever happens in the directory while the loop waits, it ends within three rounds.
  pub persistent_signing_key-ends :
      (d : Disk)
      → (made : Result SigningKey) × (d' : Disk) × (rounds lib io 3 0 d ≡ some (made, d'))
  unfolding rounds
  persistent_signing_key-ends d = elim (Round-cases (round lib io 0 d)) [
    | inl (made, d', e) ↦ (made, d', rw e refl)
    | inr (d', e) ↦ (let (made, d'', f) = later-Ends 0 d' in (made, d'', rw e f))
  ]
