-- ===== src/Ctl/Commands/Outcome.antt =====
-- cmd/clientctl/main.go: what the commands do to a map from client ids to entries.
use minidp.Base.{String, ◌≡◌, refl, Bool, false, Option, none, some, List}
use minidp.Errors.{ok}
use minidp.Clients.{Client, User}
use minidp.Clients.Validate.{Url, validate}
use minidp.Clients.Files.{Json}
use minidp.JsonFile.{Io, Disk, is_some}
use minidp.Ctl.{load_clients, client_key, user_key}
use minidp.Ctl.Entries.{named, Changed}
use minidp.Ctl.Changes.{client_of}
use minidp.Ctl.Changes.Keeps.{Keeps}
use minidp.Ctl.Accounts.{user_of}
use minidp.Ctl.Commands.{
  Command, client_add, client_update, client_remove, user_add, user_update, user_remove,
}

abbrev pub IsEntry : String → List Client → Client → Type 0
IsEntry id cs c = named client_key id cs ≡ some c

-- The users of a client that a command has changed, by name: one is set or removed, the others stay.
abbrev pub UsersChanged : String → String → Option User → List Client → List Client → Type 0
UsersChanged id name user cs cs' =
    (c : Client) × (us : List User) × IsEntry id cs c
    × Changed user_key name user c.users us
    × Changed client_key id (some (record c { users = us })) cs cs'

pub is_some-none {ℓ} : {A : Type ℓ} (o : Option A) → is_some o ≡ false → o ≡ none
is_some-none none h = refl
is_some-none (some a) h = cc

module _ (parse_url : String → Option Url) (json : Json) (io : Io) where
  -- What a command does to the entries `cs`, as maps from ids to entries.
  unfoldable pub Effect : Command → List Client → List Client → Type 0
  Effect (client_add f) cs cs' =
      (secret : String) × (named client_key f.client cs ≡ none)
      × Changed client_key f.client (some (client_of f secret)) cs cs'
  Effect (client_update spec) cs cs' =
      (c : Client) × (c' : Client) × IsEntry spec.f.client cs c
      × Keeps c c'
      × (validate parse_url c' ≡ ok tt)
      × Changed client_key spec.f.client (some c') cs cs'
  Effect (client_remove file client) cs cs' =
      (c : Client) × IsEntry client cs c × Changed client_key client none cs cs'
  Effect (user_add u) cs cs' =
      (hash : String) × UsersChanged u.client u.username (some (user_of u hash)) cs cs'
  Effect (user_update spec) cs cs' =
      (user : User) × UsersChanged spec.u.client spec.u.username (some user) cs cs'
  Effect (user_remove file client username) cs cs' = UsersChanged client username none cs cs'

  unfoldable pub Loaded : String → Disk → List Client → Type 0
  Loaded file d cs = (present : Bool) × (load_clients parse_url json io file d ≡ ok (cs, present))
