-- ===== src/Ctl/Commands.antt =====
-- cmd/clientctl/main.go: the commands that change the clients file. Each computes the entries to
-- save, or fails, and only then writes. What they print on success is left out.
pub mod Commit
pub mod Found
pub mod Outcome
pub mod ClientEffect
pub mod UserEffect
pub mod Effect
use minidp.Base.{ℕ, String, ◌==◌, ◌&&◌, true, not, Option, List, [], ◌∷◌, ◌++◌, contains}
use minidp.Errors.{
  Error, Result, ok, err, ◌>>=◌, ◌>>◌, refuse_if, upstream, ctl, type_must_be, redirect_required,
  client_exists_hint, client_does_not_exist, client_missing_hint, nothing_to_update_cli,
  nothing_to_update_usr, username_required, user_exists_hint, user_not_in_client,
  unknown_client_cmd, unknown_user_cmd,
}
use minidp.Clients.{Client, User, grant_authorization_code}
use minidp.Clients.Validate.{Url, validate}
use minidp.Clients.Files.{Json, save_clients}
use minidp.JsonFile.{Io, Disk, is_some}
use minidp.Ctl.{
  effective_grant_types, find_client, find_user_index, get_elem?, set_at, remove_at, required,
  require_selector, load_clients, load_existing_clients,
}
use minidp.Ctl.Console.{Console, new_user_hash}
use minidp.Clients.Hashes.{Bcrypt}
use minidp.Ctl.Changes.{ClientFlags, ClientChangeSpec, is_type, new_client, apply_client_changes}
use minidp.Ctl.Accounts.{UserFlags, UserChangeSpec, user_of, apply_user_updates}

-- The commands that change the file, with the values of their flags: the file, the client and the
-- user of a removal.
pub data Command : Type 0 where
  client_add : ClientFlags → Command
  client_update : ClientChangeSpec → Command
  client_remove : String → String → Command
  user_add : UserFlags → Command
  user_update : UserChangeSpec → Command
  user_remove : String → String → String → Command

unfoldable pub file_of : Command → String
file_of (client_add f) = f.file
file_of (client_update spec) = spec.f.file
file_of (client_remove file client) = file
file_of (user_add u) = u.file
file_of (user_update spec) = spec.u.file
file_of (user_remove file client username) = file

-- The selected entry and its index. The index is in range, so the second error never occurs.
unfoldable pub select_client : Error → List Client → String → Result (ℕ × Client)
select_client missing clients id = do
  idx ← required missing (find_client clients id)
  client ← required upstream (get_elem? clients idx)
  ok (idx, client)

unfoldable pub select_user : List User → String → Result (ℕ × User)
select_user users name = do
  idx ← required (ctl user_not_in_client) (find_user_index users name)
  user ← required upstream (get_elem? users idx)
  ok (idx, user)

-- userStoreOf
unfoldable pub user_store_of : List Client → String → Result (List User)
unfolding select_client
user_store_of clients id = do
  found ← select_client (ctl client_missing_hint) clients id
  ok found.1.users

-- The entries that saveClientUsers saves.
unfoldable pub with_users : List Client → String → List User → Result (List Client)
unfolding select_client
with_users clients id users = do
  found ← select_client (ctl client_missing_hint) clients id
  ok (set_at found.0 (record found.1 { users = users }) clients)

module _ (parse_url : String → Option Url) (json : Json) (io : Io) where
  unfoldable pub added_clients : Console → ClientFlags → Disk → Result (List Client)
  added_clients console f disk = do
    require_selector f.client
    refuse_if (not (is_type f.typ)) (ctl type_must_be)
    refuse_if
        (f.redirect == ""
          && contains (effective_grant_types f.grant_types) grant_authorization_code)
        (ctl redirect_required)
    loaded ← load_clients parse_url json io f.file disk
    refuse_if (is_some (find_client loaded.0 f.client)) (ctl client_exists_hint)
    client ← new_client console f
    validate parse_url client
    ok (loaded.0 ++ (client ∷ []))

  unfoldable pub updated_clients : Console → ClientChangeSpec → Disk → Result (List Client)
  unfolding select_client
  updated_clients console spec disk = do
    require_selector spec.f.client
    clients ← load_existing_clients parse_url json io spec.f.file disk
    found ← select_client (ctl client_does_not_exist) clients spec.f.client
    change ← apply_client_changes console spec found.1
    refuse_if (not change.1) (ctl nothing_to_update_cli)
    validate parse_url change.0
    ok (set_at found.0 change.0 clients)

  unfoldable pub remaining_clients : String → String → Disk → Result (List Client)
  remaining_clients file client disk = do
    require_selector client
    clients ← load_existing_clients parse_url json io file disk
    idx ← required (ctl client_does_not_exist) (find_client clients client)
    ok (remove_at idx clients)

  module _ (bcrypt : Bcrypt) where
    unfoldable pub with_added_user : Console → UserFlags → Disk → Result (List Client)
    unfolding user_store_of with_users
    with_added_user console u disk = do
      require_selector u.client
      refuse_if (u.username == "") (ctl username_required)
      loaded ← load_clients parse_url json io u.file disk
      users ← user_store_of loaded.0 u.client
      refuse_if (is_some (find_user_index users u.username)) (ctl user_exists_hint)
      hash ← new_user_hash bcrypt console u.password u.cost true
      with_users loaded.0 u.client (users ++ (user_of u hash ∷ []))

    unfoldable pub with_updated_user : Console → UserChangeSpec → Disk → Result (List Client)
    unfolding user_store_of with_users select_user
    with_updated_user console spec disk = do
      require_selector spec.u.client
      refuse_if (spec.u.username == "") (ctl username_required)
      clients ← load_existing_clients parse_url json io spec.u.file disk
      users ← user_store_of clients spec.u.client
      found ← select_user users spec.u.username
      change ← apply_user_updates bcrypt console spec found.1
      refuse_if (not change.1) (ctl nothing_to_update_usr)
      with_users clients spec.u.client (set_at found.0 change.0 users)

    unfoldable pub without_user : String → String → String → Disk → Result (List Client)
    unfolding user_store_of with_users
    without_user file client username disk = do
      require_selector client
      refuse_if (username == "") (ctl username_required)
      clients ← load_existing_clients parse_url json io file disk
      users ← user_store_of clients client
      idx ← required (ctl user_not_in_client) (find_user_index users username)
      with_users clients client (remove_at idx users)

    -- The entries that a command saves.
    unfoldable pub entries_after : Console → Command → Disk → Result (List Client)
    entries_after console (client_add f) disk = added_clients console f disk
    entries_after console (client_update spec) disk = updated_clients console spec disk
    entries_after console (client_remove file client) disk = remaining_clients file client disk
    entries_after console (user_add u) disk = with_added_user console u disk
    entries_after console (user_update spec) disk = with_updated_user console spec disk
    entries_after console (user_remove file client username) disk =
        without_user file client username disk

    unfoldable pub save_entries : String → Result (List Client) → Disk → Result (Unit {0}) × Disk
    save_entries path (err e) disk = (err e, disk)
    save_entries path (ok clients) disk = save_clients parse_url json io path clients disk

    -- clientAdd, clientUpdate, clientRemove, userAdd, userUpdate and userRemove.
    unfoldable pub run : Console → Command → Disk → Result (Unit {0}) × Disk
    unfolding entries_after save_entries
    run console command disk =
        save_entries (file_of command) (entries_after console command disk) disk
