-- ===== src/Handlers/Pkce.antt =====
-- internal/idp/handlers.go: the syntax of PKCE values and their verification. Lengths count bytes.
use Prim.Native.Char.{code}
use Prim.Native.String.{len}
use minidp.Base.{
  ℕ, ◌%◌, suc, String, ◌==◌, Bool, true, false, not, ◌&&◌, ◌||◌, leb, ltb, if◌then◌else◌,
}

abbrev eqb : ℕ → ℕ → Bool
eqb a b = leb a b && leb b a

is_alnum : ℕ → Bool
is_alnum c =
    (leb b'A' c && leb c b'Z') || ((leb b'a' c && leb c b'z') || (leb b'0' c && leb c b'9'))

unfoldable pub pkce_verifier_char : ℕ → Bool
unfolding is_alnum
pkce_verifier_char c = is_alnum c || (eqb c b'-' || (eqb c b'.' || (eqb c b'_' || eqb c b'~')))

unfoldable pub all_chars : (ℕ → Bool) → String → Bool
all_chars p String.[] = true
all_chars p (String.◌∷◌ c s) = p (code c) && all_chars p s

abbrev pub has_pkce_length : String → Bool
has_pkce_length s = not (ltb (len s) 43 || ltb 128 (len s))

-- validPKCEVerifier: a character that is not ASCII has bytes that are not in the set.
unfoldable pub valid_pkce_verifier : String → Bool
unfolding all_chars pkce_verifier_char
valid_pkce_verifier v = has_pkce_length v && all_chars pkce_verifier_char v

-- The decoder of encoding/base64 skips line ends, wants characters of the alphabet, and has no use for
-- one character alone behind the groups of four.
is_line_end : ℕ → Bool
is_line_end c = eqb c 10 || eqb c 13

is_base64url : ℕ → Bool
unfolding is_alnum
is_base64url c = is_alnum c || (eqb c b'-' || eqb c b'_')

count_digits : String → ℕ
unfolding is_line_end
count_digits String.[] = 0
count_digits (String.◌∷◌ c s) =
    let rest = count_digits s in if is_line_end (code c) then rest else suc rest

unfoldable pub decodes_base64url : String → Bool
unfolding all_chars is_line_end is_base64url count_digits
decodes_base64url s =
    all_chars (λ c. is_line_end c || is_base64url c) s && not (eqb (count_digits s % 4) 1)

unfoldable pub valid_pkce_challenge : String → Bool
unfolding decodes_base64url
valid_pkce_challenge c = has_pkce_length c && decodes_base64url c

unfoldable pub verify_pkce : (String → String) → String → String → String → Bool
verify_pkce s256 challenge method verifier =
    if challenge == ""
    then true
    else (if not (valid_pkce_verifier verifier)
        then false
        else (if not (method == "") && not (method == "S256")
            then false
            else s256 verifier == challenge))
