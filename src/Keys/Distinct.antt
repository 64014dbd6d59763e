-- ===== src/Keys/Distinct.antt =====
-- internal/idp/key.go: the published keys have distinct ids, so that a set of keys verifies what it
-- signs.
use minidp.Base.{
  ℕ, String, ◌≡◌, refl, true, false, List, [], ◌∷◌, contains, if-cases, inl, inr, eq_iff, arith,
  delete,
}
use minidp.Errors.{Result, ok, err}
use minidp.JsonFile.{Io, Disk}
use minidp.Keys.Material.{KeyringEntry}
use minidp.Keys.Ring.{
  check_entry, is_expired, remove_key_file, keep_entry, unless_failed, prune_entries, not_empty,
  prune_retired_keys,
}
use minidp.Keys.Rotate.{has_kid}

-- No kid twice, and none of those in `seen`.
abbrev pub Distinct : List String → List KeyringEntry → Type 0
Distinct seen [] = Unit
Distinct seen (e ∷ es) = (contains seen e.kid ≡ false) × Distinct (e.kid ∷ seen) es

-- Each text of one list is in the other.
Distinct-fewer :
    (seen more : List String) (es : List KeyringEntry)
    → ((kid : String) → contains seen kid ≡ true → contains more kid ≡ true)
    → Distinct more es
    → Distinct seen es
Distinct-fewer seen more [] h d = tt
Distinct-fewer seen more (e ∷ es) h d = (
  ground (arith, h e.kid, d.0),
  Distinct-fewer (e.kid ∷ seen) (e.kid ∷ more) es (λ kid f. ground (arith, h kid, f)) d.1,
)

pub Distinct-absent :
    (seen : List String) (kid : String) (es : List KeyringEntry)
    → contains seen kid ≡ true
    → Distinct seen es
    → has_kid kid es ≡ false
unfolding has_kid
Distinct-absent seen kid [] h d = refl
Distinct-absent seen kid (e ∷ es) h d =
    ground
      (arith, eq_iff e.kid kid, d.0, Distinct-absent (e.kid ∷ seen) kid es (ground (arith, h)) d.1)

unless_failed-ok {ℓ} :
    {A : Type ℓ} (r : Result A) (d d' : Disk) (rest : Result (List KeyringEntry) × Disk)
    (kept : List KeyringEntry)
    → unless_failed r d rest ≡ (ok kept, d')
    → ((a : A) × (r ≡ ok a)) × (rest ≡ (ok kept, d'))
unless_failed-ok (err e) d d' rest kept h = cc
unless_failed-ok (ok a) d d' rest kept h = ((a, refl), h)

keep_entry-ok :
    (e : KeyringEntry) (r : Result (List KeyringEntry) × Disk) (kept : List KeyringEntry) (d : Disk)
    → keep_entry e r ≡ (ok kept, d)
    → (rest : List KeyringEntry) × (r ≡ (ok rest, d)) × (kept ≡ e ∷ rest)
keep_entry-ok e (err f, d') kept d h = cc
keep_entry-ok e (ok rest, d') kept d h = (rest, ground arith, ground arith)

check_entry-fresh :
    (seen : List String) (e : KeyringEntry)
    → check_entry seen e ≡ ok tt
    → contains seen e.kid ≡ false
unfolding check_entry
check_entry-fresh seen e h = ground arith

prune_entries-Distinct :
    (io : Io) (now : ℕ) (seen : List String) (es kept : List KeyringEntry) (d d' : Disk)
    → prune_entries io now seen es d ≡ (ok kept, d')
    → Distinct seen kept
unfolding prune_entries
prune_entries-Distinct io now seen [] kept d d' h = let q : [] ≡ kept = ground arith in rw (← q) tt
prune_entries-Distinct io now seen (e ∷ es) kept d d' h =
    let ((u, checked), h1) = unless_failed-ok (check_entry seen e) d d' _ kept h in
    elim (if-cases (is_expired now e) _ _ h1) [
      | inl x ↦
          (let (gone, h2) = unless_failed-ok (remove_key_file io e.file d) d d' _ kept x.1 in
            Distinct-fewer seen (e.kid ∷ seen) kept (λ kid f. ground (arith, f))
              (prune_entries-Distinct io now (e.kid ∷ seen) es kept (delete e.file d) d' h2))
      | inr x ↦
          (let (rest, h2, q) =
              keep_entry-ok e (prune_entries io now (e.kid ∷ seen) es d) kept d' x.1 in
            rw q (
              check_entry-fresh seen e checked,
              prune_entries-Distinct io now (e.kid ∷ seen) es rest d d' h2,
            ))
    ]

not_empty-ok :
    (r : Result (List KeyringEntry) × Disk) (kept : List KeyringEntry) (d : Disk)
    → not_empty r ≡ (ok kept, d)
    → r ≡ (ok kept, d)
not_empty-ok (ok [], d') kept d h = cc
not_empty-ok (ok (e ∷ es), d') kept d h = h
not_empty-ok (err e, d') kept d h = h

-- What the pruning of a key ring keeps has distinct kids.
pub prune_retired_keys-Distinct :
    (io : Io) (now : ℕ) (es kept : List KeyringEntry) (d d' : Disk)
    → prune_retired_keys io now es d ≡ (ok kept, d')
    → Distinct [] kept
unfolding prune_retired_keys
prune_retired_keys-Distinct io now es kept d d' h =
    prune_entries-Distinct io now [] es kept d d'
      (not_empty-ok (prune_entries io now [] es d) kept d' h)
