-- ===== src/Start.antt =====
-- internal/idp/server.go and main.go: the start of the server, and the command minidp. The key
-- directory and the working directory are two maps from paths to contents. `io` tells what the
-- operating system reports for the first, and `io_files` for the second.
pub mod Ready
pub mod Rotation
use minidp.Base.{ℕ, ◌*◌, String, ◌==◌, ◌||◌, not, Option, none, some, List, [], ◌∷◌, if◌then◌else◌}
use Prim.Native.String.{◌++◌}
use minidp.Errors.{Error, Result, ok, err, ◌>>=◌, upstream}
use minidp.JsonFile.{Io, Disk}
use minidp.Clients.Validate.{Url}
use minidp.Clients.Registry.{ClientRegistry}
use minidp.Clients.Files.{Json, load_clients}
use minidp.Store.{new_store}
use minidp.Limiter.{minute, new_limiter}
use minidp.Keys.{KeySet}
use minidp.Keys.Material.{KeyLibrary}
use minidp.Keys.Ring.{new_signing_key_set}
use minidp.Keys.Rotate.{rotate_keys}
use minidp.Csrf.{CsrfManager}
use minidp.Config.{Environment, Config, load_config, load_key_retention}
use minidp.Page.{AssetDir, LoginTemplate, new_login_template}
use minidp.Server.{Server, World}

-- The server, its login page, and the state that it starts with.
pub record Provider : Type 0 where
  pub server : Server
  pub template : LoginTemplate
  pub world : World

unfoldable pub new_csrf_manager : String → ℕ → CsrfManager
new_csrf_manager secret ttl = record { key = secret; ttl = ttl }

abbrev or_no_secret : Option String → Result String
or_no_secret none = err upstream
or_no_secret (some secret) = ok secret

unfoldable pub server_of : Config → KeySet → ClientRegistry → String → Server
unfolding new_csrf_manager
server_of cfg keys clients secret = record {
  issuer = cfg.issuer;
  access_token_ttl = cfg.access_token_ttl;
  refresh_token_ttl = cfg.refresh_token_ttl;
  keys = keys;
  clients = clients;
  csrf = new_csrf_manager secret (15 * minute);
  trusted_proxies = cfg.trusted_proxies;
}

unfoldable pub world_of : Config → ℕ → World
unfolding new_limiter
world_of cfg at = record {
  store = new_store;
  limiter = new_limiter cfg.login_rate_limit at;
  reads = 0;
  draws = 0;
}

-- How the process ends, or that it serves at an address until a signal stops it.
pub data Exit : Type 0 where
  serving : String → Provider → Exit
  exited : ℕ → Exit

-- What the start uses: the libraries, the reports of the operating system, and the readings of the
-- clock (for the keys, and for the limiter) and of crypto/rand that the start makes.
pub record Machine : Type 0 where
  pub lib : KeyLibrary
  pub io : Io
  pub io_ring : Io
  pub io_files : Io
  pub json : Json
  pub parse_url : String → Option Url
  pub assets : AssetDir
  pub env : Environment
  pub now : ℕ
  pub limiter_start : ℕ
  pub secret : Option String

module _ (m : Machine) where
  -- `New` behind the signing keys.
  unfoldable pub new_with_keys : Config → Disk → KeySet → Result Provider
  unfolding server_of world_of
  new_with_keys cfg files keys = do
    template ← new_login_template m.assets cfg.title cfg.subtitle
    clients ← load_clients m.parse_url m.json m.io_files cfg.clients_file files
    secret ← or_no_secret m.secret
    ok (record {
      server = server_of cfg keys clients secret;
      template = template;
      world = world_of cfg m.limiter_start;
    })

  abbrev pub new_on : Config → Disk → Result KeySet × Disk → Result Provider × Disk
  new_on cfg files (err failure, disk) = (err failure, disk)
  new_on cfg files (ok keys, disk) = (new_with_keys cfg files keys, disk)

  -- The files that the signing keys come from: a PEM file is one of the working directory.
  unfoldable pub key_files : Config → Disk → Disk → Disk
  key_files cfg files dir = if not (cfg.rsa_pem == "") then files else dir

  -- `New`, with the files that it leaves where the keys come from.
  unfoldable pub new : Config → Disk → Disk → Result Provider × Disk
  unfolding new_with_keys key_files
  new cfg files dir =
      new_on cfg files
        (new_signing_key_set m.lib m.io cfg.rsa_pem cfg.key_dir m.now (key_files cfg files dir))

  abbrev pub served : Config → Result Provider × Disk → Exit × Disk
  served cfg (err failure, disk) = (exited 1, disk)
  served cfg (ok p, disk) = (serving (cfg.host ++ (":" ++ cfg.port)) p, disk)

  unfoldable pub serve_with : Result Config → Disk → Disk → Exit × Disk
  unfolding new
  serve_with (err failure) files dir = (exited 1, dir)
  serve_with (ok cfg) files dir = served cfg (new cfg files dir)

  unfoldable pub rotate_for : Result ℕ → Disk → Result (Unit {0}) × Disk
  rotate_for (err failure) dir = (err failure, dir)
  rotate_for (ok retention) dir =
      rotate_keys m.lib m.io m.io_ring (m.env.getenv "IDP_KEY_DIR") retention m.now dir

  -- rotateKeys of main.go
  unfoldable pub rotate_keys_command : Disk → Result (Unit {0}) × Disk
  unfolding rotate_for
  rotate_keys_command dir = rotate_for (load_key_retention m.env) dir

  abbrev pub exit_of : Result (Unit {0}) × Disk → Exit × Disk
  exit_of (err failure, disk) = (exited 1, disk)
  exit_of (ok u, disk) = (exited 0, disk)

  -- `main` with the arguments after the program's name: how it ends, and the directory of the keys. Where a PEM
  -- file is configured, these are the files of the working directory.
  unfoldable pub main : List String → Disk → Disk → Exit × Disk
  unfolding rotate_keys_command serve_with
  main [] files dir = serve_with (load_config m.env) files dir
  main (arg ∷ args) files dir =
      if arg == "rotate-keys"
      then exit_of (rotate_keys_command dir)
      else (if arg == "help" || (arg == "-h" || arg == "--help")
          then (exited 0, dir)
          else (exited 2, dir))
