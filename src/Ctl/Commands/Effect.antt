-- ===== src/Ctl/Commands/Effect.antt =====
-- cmd/clientctl/main.go: the commands as changes of a map from client ids to entries.
use minidp.Base.{String, ◌≡◌, Option, List}
use minidp.Errors.{ok}
use minidp.Clients.{Client}
use minidp.Clients.Validate.{Url}
use minidp.Clients.Files.{Json}
use minidp.JsonFile.{Io, Disk}
use minidp.Ctl.Console.{Console}
use minidp.Clients.Hashes.{Bcrypt}
use minidp.Ctl.Commands.{
  Command, client_add, client_update, client_remove, user_add, user_update, user_remove,
  entries_after, file_of,
}
use minidp.Ctl.Commands.Outcome.{Effect, Loaded}
use minidp.Ctl.Commands.ClientEffect.{remaining-Effect, updated-Effect, added-Effect}
use minidp.Ctl.Commands.UserEffect.{added_user-Effect, updated_user-Effect, without_user-Effect}

module _ (parse_url : String → Option Url) (json : Json) (io : Io) where
  module _ (bcrypt : Bcrypt) where
    -- A command that computes entries has loaded the validated entries of its file. Seen as a map from ids to
    -- entries, it adds an absent client, replaces the selected client by a valid one with its id and its users,
    -- removes it, or changes one account of it. Every other client, and every other account, is as it was.
    pub entries_after-Effect :
        (console : Console) (command : Command) (d : Disk) (cs' : List Client)
        → entries_after parse_url json io bcrypt console command d ≡ ok cs'
        → (cs : List Client) × Loaded parse_url json io (file_of command) d cs
          × Effect parse_url json io command cs cs'
    unfolding entries_after file_of
    entries_after-Effect console (client_add f) d cs' h =
        added-Effect parse_url json io console f d cs' h
    entries_after-Effect console (client_update spec) d cs' h =
        updated-Effect parse_url json io console spec d cs' h
    entries_after-Effect console (client_remove file client) d cs' h =
        remaining-Effect parse_url json io file client d cs' h
    entries_after-Effect console (user_add u) d cs' h =
        added_user-Effect parse_url json io bcrypt console u d cs' h
    entries_after-Effect console (user_update spec) d cs' h =
        updated_user-Effect parse_url json io bcrypt console spec d cs' h
    entries_after-Effect console (user_remove file client username) d cs' h =
        without_user-Effect parse_url json io bcrypt file client username d cs' h
