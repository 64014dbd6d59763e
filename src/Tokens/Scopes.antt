-- ===== src/Tokens/Scopes.antt =====
-- The scope lists of internal/idp/tokens.go.
use minidp.Base.{
  String, ◌==◌, ◌≡◌, ◌≢◌, refl, Bool, true, not, ◌&&◌, List, [], ◌∷◌, contains, eq_iff, arith,
}
use minidp.Tokens.{ordered, or_openid}

abbrev pub is_distinct : List String → List String → Bool
is_distinct seen [] = true
is_distinct seen (sc ∷ scs) = not (contains seen sc) && is_distinct (sc ∷ seen) scs

contains-ordered :
    (seen scs : List String) (a : String)
    → contains (ordered seen scs) a ≡ (not (a == "") && (not (contains seen a) && contains scs a))
unfolding ordered
contains-ordered seen [] a = ground arith
contains-ordered seen (sc ∷ scs) a = ground (
  arith,
  eq_iff sc a,
  eq_iff sc "",
  eq_iff a "",
  contains-ordered seen scs a,
  contains-ordered (sc ∷ seen) scs a,
)

ordered-is_distinct : (seen scs : List String) → is_distinct seen (ordered seen scs) ≡ true
unfolding ordered
ordered-is_distinct seen [] = refl
ordered-is_distinct seen (sc ∷ scs) =
    ground (arith, ordered-is_distinct seen scs, ordered-is_distinct (sc ∷ seen) scs)

-- The scopes that a token states are the granted ones but the empty one, each once.
pub ordered_lem :
    (scs : List String) (a : String)
    → (contains (ordered [] scs) a ≡ (not (a == "") && contains scs a))
      × (is_distinct [] (ordered [] scs) ≡ true)
ordered_lem scs a = (ground (arith, contains-ordered [] scs a), ordered-is_distinct [] scs)

or_openid-some : (scs : List String) → or_openid scs ≢ []
unfolding or_openid
or_openid-some [] = λ e. cc
or_openid-some (sc ∷ scs) = λ e. cc
