-- ===== src/Ctl/Entries.antt =====
-- cmd/clientctl/main.go: the entries of a list by name, and what the changes at an index do to them.
use mathlib.Core.Option
use minidp.Base.{
  ℕ, zero, suc, String, ◌==◌, ◌≡◌, refl, sym, ap, ◌∙◌, Bool, true, false, not, ◌&&◌, Option, none,
  some, List, [], ◌∷◌, ◌++◌, contains, eq_iff, eq_refl, arith, if◌then◌else◌, ◌⊎◌, inl, inr,
  Bool-cases,
}
use minidp.Ctl.{index_from, get_elem?, set_at, remove_at}

module _ {ℓ} {A : Type ℓ} (key : A → String) where
  -- The first entry with a name.
  abbrev pub named : String → List A → Option A
  named name [] = none
  named name (x ∷ xs) = if key x == name then some x else named name xs

  -- No name twice, and none of those in `seen`.
  abbrev pub distinct : List String → List A → Bool
  distinct seen [] = true
  distinct seen (x ∷ xs) = not (contains seen (key x)) && distinct (key x ∷ seen) xs

  -- The entry of one name is `entry`, and every other name keeps its own.
  abbrev pub Changed : String → Option A → List A → List A → Type ℓ
  Changed name entry xs ys =
      (other : String) → named other ys ≡ (if name == other then entry else named other xs)

  index_from-suc :
      (i : ℕ) (name : String) (xs : List A)
      → index_from key (suc i) name xs ≡ Option.map suc (index_from key i name xs)
  unfolding index_from
  index_from-suc i name [] = refl
  index_from-suc i name (x ∷ xs) = ground (arith, index_from-suc (suc i) name xs)

  first_hit :
      (b : Bool) (later : Option ℕ)
      → (if b then some 0 else Option.map suc later) ≡ some 0
      → b ≡ true
  first_hit true later h = refl
  first_hit false none h = cc
  first_hit false (some k) h = ground arith

  later_hit :
      (b : Bool) (later : Option ℕ) (k : ℕ)
      → (if b then some 0 else Option.map suc later) ≡ some (suc k)
      → (b ≡ false) × (later ≡ some k)
  later_hit true later k h = ground arith
  later_hit false none k h = cc
  later_hit false (some j) k h = (refl, ground arith)

  index-cons :
      (name : String) (x : A) (xs : List A)
      → index_from key 0 name (x ∷ xs)
        ≡ (if key x == name then some 0 else Option.map suc (index_from key 0 name xs))
  unfolding index_from
  index-cons name x xs =
      ap (λ (o : Option ℕ). if key x == name then some 0 else o) (index_from-suc 0 name xs)

  pub get_index :
      (name : String) (xs : List A) (k : ℕ)
      → index_from key 0 name xs ≡ some k
      → get_elem? xs k ≡ named name xs
  unfolding index_from get_elem?
  get_index name [] k h = cc
  get_index name (x ∷ xs) zero h =
      rw (first_hit (key x == name) _ (sym (index-cons name x xs) ∙ h)) refl
  get_index name (x ∷ xs) (suc k) h =
      let (e, f) = later_hit (key x == name) _ k (sym (index-cons name x xs) ∙ h) in
      rw e (get_index name xs k f)

  pub set_at-Changed :
      (name : String) (y : A) (xs : List A) (k : ℕ)
      → index_from key 0 name xs ≡ some k
      → key y ≡ name
      → Changed name (some y) xs (set_at k y xs)
  unfolding set_at
  set_at-Changed name y [] k h e other = unfold index_from in cc
  set_at-Changed name y (x ∷ xs) zero h e other =
      let f = first_hit (key x == name) _ (sym (index-cons name x xs) ∙ h) in
      ground (
        arith,
        e,
        f,
        eq_iff (key x) name,
        eq_iff (key x) other,
        eq_iff name other,
        eq_iff (key y) other,
      )
  set_at-Changed name y (x ∷ xs) (suc k) h e other =
      let (f, g) = later_hit (key x == name) _ k (sym (index-cons name x xs) ∙ h) in
      ground (
        arith,
        f,
        set_at-Changed name y xs k g e other,
        eq_iff (key x) name,
        eq_iff (key x) other,
        eq_iff name other,
      )

  named-seen :
      (seen : List String) (name : String) (xs : List A)
      → contains seen name ≡ true
      → distinct seen xs ≡ true
      → named name xs ≡ none
  named-seen seen name [] h d = refl
  named-seen seen name (x ∷ xs) h d =
      ground (arith, eq_iff (key x) name, named-seen (key x ∷ seen) name xs)

  pub remove_at-Changed :
      (seen : List String) (name : String) (xs : List A) (k : ℕ)
      → distinct seen xs ≡ true
      → index_from key 0 name xs ≡ some k
      → Changed name none xs (remove_at k xs)
  unfolding remove_at
  remove_at-Changed seen name [] k d h other = unfold index_from in cc
  remove_at-Changed seen name (x ∷ xs) zero d h other =
      let f = first_hit (key x == name) _ (sym (index-cons name x xs) ∙ h) in
      ground (
        arith,
        f,
        eq_iff (key x) name,
        eq_iff (key x) other,
        eq_iff name other,
        named-seen (key x ∷ seen) other xs,
        eq_refl (key x),
      )
  remove_at-Changed seen name (x ∷ xs) (suc k) d h other =
      let (f, g) = later_hit (key x == name) _ k (sym (index-cons name x xs) ∙ h) in
      ground (
        arith,
        f,
        remove_at-Changed (key x ∷ seen) name xs k _ g other,
        eq_iff (key x) name,
        eq_iff (key x) other,
        eq_iff name other,
      )

  pub append-Changed :
      (y : A) (xs : List A) → named (key y) xs ≡ none → Changed (key y) (some y) xs (xs ++ (y ∷ []))
  append-Changed y [] h other = refl
  append-Changed y (x ∷ xs) h other = ground (
    arith,
    λ (e : named (key y) xs ≡ none). append-Changed y xs e other,
    eq_iff (key x) other,
    eq_iff (key y) other,
    eq_iff (key x) (key y),
  )

  pub index_from-none :
      (i : ℕ) (name : String) (xs : List A) → index_from key i name xs ≡ none → named name xs ≡ none
  unfolding index_from
  index_from-none i name [] h = refl
  index_from-none i name (x ∷ xs) h = ground (arith, index_from-none (suc i) name xs)

  pub named-key : (name : String) (xs : List A) (x : A) → named name xs ≡ some x → key x ≡ name
  named-key name [] x h = cc
  named-key name (y ∷ xs) x h = ground (arith, named-key name xs x, eq_iff (key y) name)

  pub named-cases :
      (name : String) (y : A) (xs : List A) (x : A)
      → named name (y ∷ xs) ≡ some x
      → (y ≡ x) ⊎ (named name xs ≡ some x)
  named-cases name y xs x h = elim (Bool-cases (key y == name)) [
    | inl e ↦ inl (ground arith)
    | inr e ↦ inr (ground arith)
  ]

  pub index_from-some :
      (i : ℕ) (name : String) (xs : List A) (k : ℕ)
      → index_from key i name xs ≡ some k
      → (x : A) × (named name xs ≡ some x)
  unfolding index_from
  index_from-some i name [] k h = cc
  index_from-some i name (x ∷ xs) k h = elim (Bool-cases (key x == name)) [
    | inl e ↦ (x, rw e refl)
    | inr e ↦ (let (y, f) = index_from-some (suc i) name xs k (ground arith) in (y, rw e f))
  ]

  pub Changed-to :
      (name : String) (entry : Option A) (xs ys zs : List A)
      → ys ≡ zs
      → Changed name entry xs ys
      → Changed name entry xs zs
  Changed-to name entry xs ys zs e h other = ap (named other) (sym e) ∙ h other

  pub Changed-from :
      (name : String) (entry : Option A) (xs ys zs : List A)
      → xs ≡ ys
      → Changed name entry xs zs
      → Changed name entry ys zs
  Changed-from name entry xs ys zs e h other =
      h other ∙ ap (λ (l : List A). if name == other then entry else named other l) e
