-- ===== src/Strings.antt =====
-- What the program uses of the package strings of Go's library, over valid UTF-8 texts.
pub mod Trim
use Prim.Native.Char.{Char, code}
use Prim.Native.String.{◌++◌}
use minidp.Base.{
  ℕ, ◌+◌, String, ◌==◌, Bool, true, false, ◌&&◌, ◌||◌, Option, none, some, List, [], ◌∷◌, ◌≡◌, refl,
  leb, if◌then◌else◌,
}

abbrev pub eqb : ℕ → ℕ → Bool
eqb a b = leb a b && leb b a

-- unicode.IsSpace
pub is_space : Char → Bool
is_space c =
    let n = code c in
    (leb 9 n && leb n 13)
    || eqb n 0x20
    || eqb n 0x85
    || eqb n 0xa0
    || eqb n 0x1680
    || (leb 0x2000 n && leb n 0x200a)
    || eqb n 0x2028
    || eqb n 0x2029
    || eqb n 0x202f
    || eqb n 0x205f
    || eqb n 0x3000

-- the characters of " \t\r\n"
unfoldable pub is_blank : Char → Bool
is_blank c = let n = code c in eqb n 32 || eqb n 9 || eqb n 13 || eqb n 10

-- strings.ContainsAny(s, " \t\r\n")
unfoldable pub contains_blank : String → Bool
unfolding is_blank
contains_blank String.[] = false
contains_blank (String.◌∷◌ c s) = is_blank c || contains_blank s

trim_left : String → String
unfolding is_space
trim_left String.[] = ""
trim_left (String.◌∷◌ c s) = let rest = trim_left s in if is_space c then rest else String.◌∷◌ c s

trim_right : String → String
unfolding is_space
trim_right String.[] = ""
trim_right (String.◌∷◌ c s) =
    let rest = trim_right s in if is_space c && rest == "" then "" else String.◌∷◌ c rest

-- strings.TrimSpace
unfoldable pub trim_space : String → String
unfolding trim_left trim_right
trim_space s = trim_right (trim_left s)

-- What follows the prefix.
unfoldable pub strip_prefix : String → String → Option String
strip_prefix String.[] s = some s
strip_prefix (String.◌∷◌ c p) String.[] = none
strip_prefix (String.◌∷◌ c p) (String.◌∷◌ d s) =
    let rest = strip_prefix p s in if eqb (code c) (code d) then rest else none

abbrev pub or_else {ℓ} : {A : Type ℓ} → Option A → A → A
or_else none a = a
or_else (some b) a = b

-- strings.TrimPrefix
unfoldable pub trim_prefix : String → String → String
unfolding strip_prefix
trim_prefix p s = or_else (strip_prefix p s) s

-- strings.HasPrefix
-- What follows a prefix of letters in any case and of blanks; `p` is in lower case.
unfoldable pub strip_fold : String → String → Option String
strip_fold String.[] s = some s
strip_fold (String.◌∷◌ c p) String.[] = none
strip_fold (String.◌∷◌ c p) (String.◌∷◌ d s) =
    let rest = strip_fold p s in
    if eqb (code c) (code d)
      || (leb b'a' (code c) && leb b'A' (code d) && eqb (code c) (code d + 32))
    then rest
    else none

unfoldable pub has_prefix : String → String → Bool
unfolding strip_prefix
has_prefix p s = elim (strip_prefix p s) [ none ↦ false | some _ ↦ true ]

-- strings.TrimSuffix at a separator of one character
unfoldable pub trim_last : ℕ → String → String
trim_last sep String.[] = ""
trim_last sep (String.◌∷◌ c s) =
    let rest = trim_last sep s in if eqb (code c) sep && s == "" then "" else String.◌∷◌ c rest

abbrev cons_first : Char → Option (String × String) → Option (String × String)
cons_first c none = none
cons_first c (some (before, after)) = some (String.◌∷◌ c before, after)

-- strings.Cut at a separator of one character
unfoldable pub cut : ℕ → String → Option (String × String)
cut sep String.[] = none
cut sep (String.◌∷◌ c s) =
    let rest = cons_first c (cut sep s) in if eqb (code c) sep then some ("", s) else rest

abbrev flush : String → List String → List String
flush word rest = if word == "" then rest else word ∷ rest

-- The first field, if the text begins inside one, and the fields after it.
fields_from : String → String × List String
unfolding is_space
fields_from String.[] = ("", [])
fields_from (String.◌∷◌ c s) =
    let (word, rest) = fields_from s in
    if is_space c then ("", flush word rest) else (String.◌∷◌ c word, rest)

-- strings.Fields
unfoldable pub fields : String → List String
unfolding fields_from
fields s = let (word, rest) = fields_from s in flush word rest

-- strings.Join(words, " ")
unfoldable pub join : List String → String
join [] = ""
join (w ∷ []) = w
join (w ∷ v ∷ ws) = w ++ (" " ++ join (v ∷ ws))

fields_test : fields "  openid profile\temail " ≡ "openid" ∷ "profile" ∷ "email" ∷ []
unfolding fields
fields_test = refl

cut_test : cut b'/' "api/read/all" ≡ some ("api", "read/all")
unfolding cut
cut_test = refl

trim_space_test : trim_space " a b\n" ≡ "a b"
unfolding trim_space
trim_space_test = refl

trim_prefix_test : trim_prefix "api://" "api://x" ≡ "x"
unfolding trim_prefix
trim_prefix_test = refl
