-- ===== src/Ctl.antt =====
-- cmd/clientctl/main.go: the console a secret comes from, comma-separated lists, and the entries of
-- the clients file. The package flag is a library: a command takes the values of its flags.
pub mod Flags
pub mod Entries
pub mod Lists
pub mod Console
pub mod Changes
pub mod Accounts
pub mod Commands
pub mod Show
use Prim.Native.String.{◌++◌}
use minidp.Base.{
  ℕ, zero, suc, String, ◌==◌, Bool, true, false, Option, none, some, List, [], ◌∷◌, if◌then◌else◌,
}
use minidp.Strings.{trim_space}
use minidp.Server.ClientIp.{split_commas}
use minidp.Errors.{
  CtlError, Error, Result, ok, err, ◌>>=◌, refuse_if, upstream, not_exist, ctl,
  clients_file_missing, client_flag_required,
}
use minidp.Clients.{Client, User, grant_authorization_code, grant_refresh_token, or_default}
use minidp.Clients.Validate.{Url}
use minidp.Clients.Files.{Json, read_clients}
use minidp.JsonFile.{Io, Disk}

unfoldable pub clean_entries : List String → List String
clean_entries [] = []
clean_entries (item ∷ items) =
    let rest = clean_entries items in if trim_space item == "" then rest else trim_space item ∷ rest

-- parseList, and parseRoles
unfoldable pub parse_list : String → List String
unfolding clean_entries
parse_list value = clean_entries (split_commas value)

unfoldable pub effective_grant_types : String → List String
unfolding parse_list or_default
effective_grant_types flag_value = or_default (parse_list flag_value)

-- An error where the value is missing.
abbrev pub required {ℓ} : {A : Type ℓ} → Error → Option A → Result A
required e none = err e
required e (some a) = ok a

-- The index of the first entry with the name, counted from `i`; `none` for -1.
unfoldable pub index_from {ℓ} : {A : Type ℓ} → (A → String) → ℕ → String → List A → Option ℕ
index_from key i name [] = none
index_from key i name (x ∷ xs) =
    let later = index_from key (suc i) name xs in if key x == name then some i else later

abbrev pub client_key : Client → String
client_key c = c.client_id

abbrev pub user_key : User → String
user_key u = u.username

unfoldable pub find_client : List Client → String → Option ℕ
unfolding index_from
find_client clients id = index_from client_key 0 id clients

unfoldable pub find_user_index : List User → String → Option ℕ
unfolding index_from
find_user_index users name = index_from user_key 0 name users

module _ {ℓ} {A : Type ℓ} where
  unfoldable pub get_elem? : List A → ℕ → Option A
  get_elem? [] i = none
  get_elem? (x ∷ xs) zero = some x
  get_elem? (x ∷ xs) (suc i) = get_elem? xs i

  -- xs[i] = a
  unfoldable pub set_at : ℕ → A → List A → List A
  set_at i a [] = []
  set_at zero a (x ∷ xs) = a ∷ xs
  set_at (suc i) a (x ∷ xs) = x ∷ set_at i a xs

  -- append(xs[:i], xs[i+1:]...)
  unfoldable pub remove_at : ℕ → List A → List A
  remove_at i [] = []
  remove_at zero (x ∷ xs) = xs
  remove_at (suc i) (x ∷ xs) = x ∷ remove_at i xs

abbrev pub require_selector : String → Result (Unit {0})
require_selector client = refuse_if (client == "") (ctl client_flag_required)

abbrev pub is_not_exist : Error → Bool
is_not_exist not_exist = true
is_not_exist e = false

-- A missing file counts as empty.
unfoldable pub or_missing : Result (List Client) → Result (List Client × Bool)
or_missing (ok clients) = ok (clients, true)
or_missing (err e) = if is_not_exist e then ok ([], false) else err e

abbrev pub if_present : List Client × Bool → Result (List Client)
if_present (clients, present) = if present then ok clients else err (ctl clients_file_missing)

module _ (parse_url : String → Option Url) (json : Json) (io : Io) where
  unfoldable pub load_clients : String → Disk → Result (List Client × Bool)
  unfolding or_missing
  load_clients path disk = or_missing (read_clients parse_url json io path disk)

  unfoldable pub load_existing_clients : String → Disk → Result (List Client)
  unfolding load_clients
  load_existing_clients path disk = do loaded ← load_clients path disk; if_present loaded
