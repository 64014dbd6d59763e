-- ===== src/Ctl/Commands/Commit.antt =====
-- cmd/clientctl/main.go: a command writes the entries it has computed, or nothing.
use minidp.Base.{String, ◌≡◌, ◌≢◌, refl, Option, some, List, []}
use minidp.Errors.{Result, ok, err}
use minidp.Clients.{Client, ClientsFile}
use minidp.Clients.Validate.{Url}
use minidp.Clients.Files.{
  Json, contents_of, write_contents, save_clients_file, save_clients, read_clients_file,
}
use minidp.Clients.Files.RoundTrip.{Works, IsFaithful, save_clients_file-read}
use minidp.JsonFile.{Io, Disk, save_json_file}
use minidp.JsonFile.Atomic.{Keeps, Atomic, save_json_file-Atomic}
use minidp.Ctl.Console.{Console}
use minidp.Clients.Hashes.{Bcrypt}
use minidp.Ctl.Commands.{Command, run, entries_after, save_entries, file_of}

-- The file that the entries make up, without a registry of roles.
abbrev pub bare : List Client → ClientsFile
bare clients = record { clients = clients; resources = [] }

-- What a run leaves behind: every file as it was, or the validated entries in the one file.
abbrev pub Wrote : String → Result String → Disk → Disk → Type 0
Wrote path contents d d' =
    (raw : String) × (contents ≡ ok raw)
    × (d' path ≡ some raw)
    × ((p t : String) → p ≢ path → d p ≡ some t → d' p ≡ some t)

unfoldable pub Committed : String → Result String → Disk → Result (Unit {0}) × Disk → Type 0
Committed path contents d (err e, d') = Keeps d d'
Committed path contents d (ok u, d') = Wrote path contents d d'

committed :
    (path raw : String) (d : Disk) (r : Result (Unit {0}) × Disk)
    → Atomic path raw d r
    → Committed path (ok raw) d r
unfolding Atomic Committed
committed path raw d (err e, d') h = h
committed path raw d (ok u, d') h = (raw, refl, h.0, h.1)

module _ (parse_url : String → Option Url) (json : Json) (io : Io) where
  write_contents-Committed :
      (path : String) (contents : Result String) (d : Disk)
      → Committed path contents d (write_contents parse_url json io path contents d)
  unfolding write_contents Committed Keeps
  write_contents-Committed path (err e) d = λ p t h. h
  write_contents-Committed path (ok raw) d =
      committed path raw d (save_json_file io path raw d) (save_json_file-Atomic io path raw d)

  -- What saving the entries that a command computed writes, if it computed any.
  abbrev pub contents_after : Result (List Client) → Result String
  contents_after (err e) = err e
  contents_after (ok clients) = contents_of parse_url json io (bare clients)

  module _ (bcrypt : Bcrypt) where
    save_entries-Committed :
        (path : String) (entries : Result (List Client)) (d : Disk)
        → Committed path
            (contents_after entries)
            d
            (save_entries parse_url json io bcrypt path entries d)
    unfolding save_entries save_clients save_clients_file Committed Keeps
    save_entries-Committed path (err e) d = λ p t h. h
    save_entries-Committed path (ok clients) d =
        write_contents-Committed path (contents_of parse_url json io (bare clients)) d

    pub run-Committed :
        (console : Console) (command : Command) (d : Disk)
        → Committed
            (file_of command)
            (contents_after (entries_after parse_url json io bcrypt console command d))
            d
            (run parse_url json io bcrypt console command d)
    unfolding run
    run-Committed console command d =
        save_entries-Committed (file_of command)
          (entries_after parse_url json io bcrypt console command d) d

    -- Where the operating system does what it is asked to do, and the entries that a command computes pass the
    -- validation and can be encoded, the command succeeds. Its file is then read back with exactly these entries and
    -- without a registry of roles, whether the file had one before or not.
    pub run-reads :
        (console : Console) (command : Command) (d : Disk) (clients : List Client) (text : String)
        → Works io (file_of command) d
        → entries_after parse_url json io bcrypt console command d ≡ ok clients
        → IsFaithful json (bare clients)
        → contents_of parse_url json io (bare clients) ≡ ok text
        → ((run parse_url json io bcrypt console command d).0 ≡ ok tt)
          × (read_clients_file parse_url json io
                (file_of command)
                (run parse_url json io bcrypt console command d).1
              ≡ ok (bare clients))
    unfolding run save_entries save_clients
    run-reads console command d clients text w e f h =
        rw e
          (save_clients_file-read parse_url json io (file_of command) text (bare clients) d w f h)
