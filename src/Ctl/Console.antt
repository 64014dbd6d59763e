-- ===== src/Ctl/Console.antt =====
-- cmd/clientctl/main.go: where a password or a client secret comes from, and its hash
-- (internal/idp/users.go). The terminal and the package bcrypt are parameters.
use Prim.Native.Char.{code}
use minidp.Base.{ℕ, String, ◌==◌, Bool, true, not, ◌&&◌, ◌||◌, Option, none, some, if◌then◌else◌}
use minidp.Strings.{cut, eqb}
use minidp.Errors.{
  Result, ok, err, ◌>>=◌, ◌>>◌, refuse_if, upstream, ctl, no_secret, must_be_not_empty,
  values_do_not_match, password_empty,
}
use minidp.Clients.Hashes.{Bcrypt, hash_password}
use minidp.Ctl.{required}

-- What one run of the command finds at its standard input.
pub record Console : Type 0 where
  pub is_terminal : Bool
  -- what is piped in
  pub stdin : String
  -- the answers to a prompt and to its confirmation; `none` where reading fails
  pub typed : Option String
  pub confirmed : Option String

-- strings.TrimRight(line, "\r\n")
unfoldable pub trim_newlines : String → String
trim_newlines String.[] = ""
trim_newlines (String.◌∷◌ c s) =
    let rest = trim_newlines s in
    if (eqb (code c) 13 || eqb (code c) 10) && rest == "" then "" else String.◌∷◌ c rest

abbrev pub line_of : String → Option (String × String) → String
line_of text none = text
line_of text (some (line, rest)) = line

unfoldable pub read_line_from_stdin : Console → Result String
unfolding trim_newlines
read_line_from_stdin console =
    if console.stdin == ""
    then err upstream
    else ok (trim_newlines (line_of console.stdin (cut 10 console.stdin)))

unfoldable pub confirm_secret : Console → Bool → String → Result (Unit {0})
confirm_secret console confirm pw =
    if confirm
    then (do
      again ← required upstream console.confirmed
      refuse_if (not (pw == again)) (ctl values_do_not_match))
    else ok tt

unfoldable pub prompt_secret : Console → Bool → Result String
unfolding confirm_secret
prompt_secret console confirm = do
  pw ← required upstream console.typed
  refuse_if (pw == "") (ctl must_be_not_empty)
  confirm_secret console confirm pw
  ok pw

unfoldable pub resolve_secret : Console → String → Bool → Result String
unfolding read_line_from_stdin prompt_secret
resolve_secret console flag_value confirm =
    if flag_value == "-"
    then read_line_from_stdin console
    else (if not (flag_value == "")
        then ok flag_value
        else (if not console.is_terminal
            then err (ctl no_secret)
            else prompt_secret console confirm))

unfoldable pub resolve_new_secret : Console → String → Result String
unfolding resolve_secret
resolve_new_secret console flag_value = resolve_secret console flag_value true

unfoldable pub new_user_hash : Bcrypt → Console → String → ℕ → Bool → Result String
unfolding resolve_secret hash_password
new_user_hash bcrypt console flag_value cost confirm = do
  password ← resolve_secret console flag_value confirm
  refuse_if (password == "") (ctl password_empty)
  hash_password bcrypt password cost
