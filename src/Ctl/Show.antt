-- ===== src/Ctl/Show.antt =====
-- cmd/clientctl/main.go: the commands that print, and the dispatch of the command line. The package
-- flag and the decimal form of a number are parameters.
pub mod Hidden
pub mod Exit
use Prim.Native.String.{◌++◌}
use minidp.Base.{
  ℕ, String, ◌==◌, true, false, not, ◌||◌, Option, none, some, List, [], ◌∷◌, length, if◌then◌else◌,
}
use mathlib.Core.List.{◌++◌ as ◌+++◌}
use minidp.Errors.{
  Result, ok, err, ◌>>=◌, ◌>>◌, ctl, client_does_not_exist, client_missing_hint, unknown_client_cmd,
  unknown_user_cmd,
}
use minidp.Clients.{Client, User, audience_of, grants}
use minidp.Clients.Validate.{Url, is_empty}
use minidp.Clients.Files.{Json, read_clients}
use minidp.JsonFile.{Io, Disk}
use minidp.Ctl.{require_selector, load_existing_clients}
use minidp.Ctl.Console.{Console, new_user_hash}
use minidp.Clients.Hashes.{Bcrypt}
use minidp.Ctl.Changes.{ClientFlags, ClientChangeSpec}
use minidp.Ctl.Accounts.{UserFlags, UserChangeSpec}
use minidp.Ctl.Commands.{
  Command, client_add, client_update, client_remove, user_add, user_update, user_remove,
  select_client, user_store_of, run,
}

-- strings.Join(items, ",")
unfoldable pub join_commas : List String → String
join_commas [] = ""
join_commas (s ∷ []) = s
join_commas (s ∷ t ∷ rest) = s ++ ("," ++ join_commas (t ∷ rest))

-- A column that is printed where the list is not empty.
abbrev pub column : String → List String → String
column title items = if is_empty items then "" else title ++ join_commas items

unfoldable pub describe_client : (ℕ → String) → Client → String
unfolding join_commas
describe_client decimal c =
    c.client_id
    ++ ("\ttype: "
        ++ (c.type
            ++ ("\taudience: "
                ++ (audience_of c
                    ++ ("\tgrants: "
                        ++ (join_commas (grants c)
                            ++ (column "\tcc-scopes: " c.client_credentials_scopes
                                ++ (column "\tcc-roles: " c.client_credentials_roles
                                    ++ (column "\tallowed-scopes: " c.allowed_scopes
                                        ++ ("\tredirects: "
                                            ++ (join_commas c.redirect_uris
                                                ++ (column "\tpost-logout: "
                                                      c.post_logout_redirect_uris
                                                    ++ (column "\torigins: " c.allowed_origins
                                                        ++ ("\tusers: "
                                                            ++ decimal
                                                            (length c.users)))))))))))))))

-- What `client show` and `user list` print of an account after the prefix.
unfoldable pub describe_user : String → User → String
describe_user prefix u =
    prefix
    ++ (u.username
        ++ ((if u.email == "" then "" else "\t" ++ u.email)
            ++ ((if u.name == "" then "" else "\t" ++ u.name) ++ column "\troles: " u.roles)))

unfoldable pub describe_users : String → List User → List String
unfolding describe_user
describe_users prefix [] = []
describe_users prefix (u ∷ us) = describe_user prefix u ∷ describe_users prefix us

unfoldable pub describe_clients : (ℕ → String) → List Client → List String
unfolding describe_client
describe_clients decimal [] = []
describe_clients decimal (c ∷ cs) = describe_client decimal c ∷ describe_clients decimal cs

unfoldable pub show_lines : (ℕ → String) → List Client → String → Result (List String)
unfolding select_client describe_client describe_users
show_lines decimal clients id = do
  found ← select_client (ctl client_does_not_exist) clients id
  ok (describe_client decimal found.1 ∷ describe_users "  user: " found.1.users)

unfoldable pub user_lines : List Client → String → Result (List String)
unfolding user_store_of describe_users
user_lines clients id = do users ← user_store_of clients id; ok (describe_users "" users)

-- A command line whose flags are parsed: the file and the client, and the password and the cost.
pub data Request : Type 0 where
  change : Command → Request
  client_list : String → Request
  client_show user_list : String → String → Request
  hash : String → ℕ → Request

-- The package flag, for the flags that each command registers; `none` where it ends the process
-- with 2. Asking a command for help, which ends it with 0, is left out.
pub record FlagSets : Type 0 where
  pub client_flags : List String → Option ClientFlags
  pub change_flags : List String → Option ClientChangeSpec
  pub file_flag : List String → Option String
  pub selector_flags : List String → Option (String × String)
  pub user_flags : List String → Option UserFlags
  pub user_change_flags : List String → Option UserChangeSpec
  pub user_selector_flags : List String → Option (String × String × String)
  pub hash_flags : List String → Option (String × ℕ)

abbrev pub parsed {ℓ} : {A : Type ℓ} → (A → Request) → Option A → Option (Result Request)
parsed make none = none
parsed make (some a) = some (ok (make a))

module _ (flags : FlagSets) where
  -- `none` ends the process with the usage.
  unfoldable pub client_cmd : List String → Option (Result Request)
  client_cmd [] = none
  client_cmd (name ∷ args) =
      if name == "add"
      then parsed (λ f. change (client_add f)) (flags.client_flags args)
      else (if name == "update"
          then parsed (λ s. change (client_update s)) (flags.change_flags args)
          else (if name == "remove"
              then parsed (λ s. change (client_remove s.0 s.1)) (flags.selector_flags args)
              else (if name == "list"
                  then parsed client_list (flags.file_flag args)
                  else (if name == "show"
                      then parsed (λ s. client_show s.0 s.1) (flags.selector_flags args)
                      else some (err (ctl unknown_client_cmd))))))

  unfoldable pub user_cmd : List String → Option (Result Request)
  user_cmd [] = none
  user_cmd (name ∷ args) =
      if name == "add"
      then parsed (λ u. change (user_add u)) (flags.user_flags args)
      else (if name == "update"
          then parsed (λ s. change (user_update s)) (flags.user_change_flags args)
          else (if name == "remove"
              then parsed (λ s. change (user_remove s.0 s.1 s.2)) (flags.user_selector_flags args)
              else (if name == "list"
                  then parsed (λ s. user_list s.0 s.1) (flags.selector_flags args)
                  else some (err (ctl unknown_user_cmd)))))

module _ (parse_url : String → Option Url) (json : Json) (io : Io) (bcrypt : Bcrypt)
    (decimal : ℕ → String) where
  unfoldable pub list_clients : String → Disk → Result (List String)
  unfolding describe_clients
  list_clients file disk = do
    clients ← read_clients parse_url json io file disk
    ok (describe_clients decimal clients)

  unfoldable pub show_client : String → String → Disk → Result (List String)
  unfolding show_lines
  show_client file client disk = do
    require_selector client
    clients ← load_existing_clients parse_url json io file disk
    show_lines decimal clients client

  unfoldable pub list_users : String → String → Disk → Result (List String)
  unfolding user_lines
  list_users file client disk = do
    require_selector client
    clients ← read_clients parse_url json io file disk
    user_lines clients client

  unfoldable pub hash_lines : Console → String → ℕ → Result (List String)
  hash_lines console password cost = do
    h ← new_user_hash bcrypt console password cost false
    ok (h ∷ [])

  -- The lines that a change prints are left out.
  abbrev pub silent : Result (Unit {0}) → Result (List String)
  silent done = done >> ok []

  unfoldable pub perform : Console → Request → Disk → Result (List String) × Disk
  unfolding run list_clients show_client list_users hash_lines
  perform console (change command) disk =
      let (done, disk') = run parse_url json io bcrypt console command disk in (silent done, disk')
  perform console (client_list file) disk = (list_clients file disk, disk)
  perform console (client_show file client) disk = (show_client file client disk, disk)
  perform console (user_list file client) disk = (list_users file client disk, disk)
  perform console (hash password cost) disk = (hash_lines console password cost, disk)

  abbrev pub exit_code : Result (List String) → ℕ
  exit_code (ok lines) = 0
  exit_code (err e) = 1

  -- The end of the process: its exit code, and the file system.
  unfoldable pub finish : Console → Option (Result Request) → Disk → ℕ × Disk
  unfolding perform
  finish console none disk = (2, disk)
  finish console (some (err e)) disk = (1, disk)
  finish console (some (ok request)) disk =
      let (lines, disk') = perform console request disk in (exit_code lines, disk')

  unfoldable pub dispatch : FlagSets → String → List String → Option (Result Request)
  unfolding client_cmd user_cmd
  dispatch flags name args =
      if name == "client"
      then client_cmd flags args
      else (if name == "user"
          then user_cmd flags args
          else (if name == "hash"
              then parsed (λ s. hash s.0 s.1) (flags.hash_flags args)
              else none))

  -- `main`, with the arguments after the program's name. Asking for help ends with 0.
  unfoldable pub main : FlagSets → Console → List String → Disk → ℕ × Disk
  unfolding finish dispatch
  main flags console [] disk = (2, disk)
  main flags console (name ∷ args) disk =
      if name == "help" || name == "-h" || name == "--help"
      then (0, disk)
      else finish console (dispatch flags name args) disk
