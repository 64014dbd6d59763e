-- ===== src/Clients/Grants.antt =====
-- The scopes that internal/idp/clients.go grants without a user, and the ones that it advertises.
use minidp.Base.{
  String, ◌==◌, ◌≡◌, refl, true, List, [], ◌∷◌, Option, none, some, contains, eq_iff, eq_refl,
  arith, All, if◌then◌else◌, Bool-cases, inl, inr,
}
use mathlib.Core.Path.{subst}
use minidp.Strings.{trim_space}
use minidp.Clients.{Client}
use minidp.Clients.Registry.{resolve_cc_scopes, pick_scope}

-- Every member of `xs` is one of `ys`.
abbrev pub IsSubset : List String → List String → Type 0
IsSubset xs ys = All (λ x. contains ys x ≡ true) xs

IsSubset-cons : (y : String) (xs ys : List String) → IsSubset xs ys → IsSubset xs (y ∷ ys)
IsSubset-cons y [] ys h = tt
IsSubset-cons y (x ∷ xs) ys h = (ground arith, IsSubset-cons y xs ys h.1)

IsSubset-refl : (xs : List String) → IsSubset xs xs
IsSubset-refl [] = tt
IsSubset-refl (x ∷ xs) = (ground (arith, eq_refl x), IsSubset-cons x xs xs (IsSubset-refl xs))

abbrev GrantsWithin : List String → Option (List String) → Type 0
GrantsWithin ys none = Unit {0}
GrantsWithin ys (some xs) = IsSubset xs ys

widen :
    (y : String) (ys : List String) (o : Option (List String))
    → GrantsWithin ys o
    → GrantsWithin (y ∷ ys) o
widen y ys none h = tt
widen y ys (some xs) h = IsSubset-cons y xs ys h

pick_scope-within :
    (requested : String) (ys : List String) → GrantsWithin ys (pick_scope requested ys)
unfolding pick_scope
pick_scope-within requested [] = tt
pick_scope-within requested (y ∷ ys) = elim (Bool-cases (y == requested)) [
  | inl e ↦ rw e (ground (arith, eq_refl y), tt)
  | inr e ↦ rw e (widen y ys (pick_scope requested ys) (pick_scope-within requested ys))
]

pick_scope_lem :
    (requested : String) (ys : List String)
    → pick_scope requested ys ≡ (if contains ys requested then some (requested ∷ []) else none)
unfolding pick_scope
pick_scope_lem requested [] = refl
pick_scope_lem requested (y ∷ ys) = ground (arith, eq_iff y requested, pick_scope_lem requested ys)

resolved-within :
    (c : Client) (raw : String) → GrantsWithin c.client_credentials_scopes (resolve_cc_scopes c raw)
unfolding resolve_cc_scopes
resolved-within c raw = ground (
  arith,
  IsSubset-refl c.client_credentials_scopes,
  pick_scope-within (trim_space raw) c.client_credentials_scopes,
)

-- The client_credentials grant never grants a scope that is not configured for the client.
pub resolve_cc_scopes-within :
    (c : Client) (raw : String) (scopes : List String)
    → resolve_cc_scopes c raw ≡ some scopes
    → IsSubset scopes c.client_credentials_scopes
resolve_cc_scopes-within c raw scopes h =
    subst (GrantsWithin c.client_credentials_scopes) h (resolved-within c raw)
