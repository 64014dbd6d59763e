-- ===== src/Clients/Files.antt =====
-- internal/idp/clients.go: reading, writing and loading the clients file. The package encoding/json
-- is a parameter, without the errors' text.
pub mod RoundTrip
use Prim.Native.Char.{Char, code}
use Prim.Native.String.{◌++◌}
use minidp.Base.{String, Bool, ◌||◌, List, [], Option, none, some, if◌then◌else◌}
use minidp.Strings.{is_blank, eqb}
use minidp.Errors.{
  Result, ok, err, ◌>>=◌, ◌>>◌, upstream, clients_array_missing, clients_file_shape,
}
use minidp.JsonFile.{Io, Disk, read_scoped_file, save_json_file}
use minidp.Clients.{Client, ClientsFile, ResourceDefinition}
use minidp.Clients.Validate.{Url, validate_clients, is_empty}
use minidp.Clients.Resources.{validate_resource_registry}
use minidp.Clients.Registry.{ClientRegistry, new_client_registry}

-- What json.Unmarshal finds in an object document; `none` where the field is missing or null.
pub record Document : Type 0 where
  pub clients : Option (List Client)
  pub resources : List ResourceDefinition

-- encoding/json: `none` where it reports an error.
pub record Json : Type 0 where
  pub marshal_array : List Client → Option String
  pub marshal_object : ClientsFile → Option String
  pub unmarshal_array : String → Option (List Client)
  pub unmarshal_object : String → Option Document

unfoldable pub first_non_space : String → Option Char
unfolding is_blank
first_non_space String.[] = none
first_non_space (String.◌∷◌ c s) =
    let rest = first_non_space s in if is_blank c then rest else some c

unfoldable pub of_array : Option (List Client) → Result ClientsFile
of_array none = err upstream
of_array (some cs) = ok (record { clients = cs; resources = [] })

unfoldable pub with_clients : List ResourceDefinition → Option (List Client) → Result ClientsFile
with_clients rs none = err clients_array_missing
with_clients rs (some cs) = ok (record { clients = cs; resources = rs })

unfoldable pub of_document : Option Document → Result ClientsFile
unfolding with_clients
of_document none = err upstream
of_document (some doc) = with_clients doc.resources doc.clients

-- The switch on the first byte of the document.
unfoldable pub parse_document : Json → String → Option Char → Result ClientsFile
unfolding of_array of_document
parse_document json raw none = err clients_file_shape
parse_document json raw (some c) =
    if eqb (code c) b'['
    then of_array (json.unmarshal_array raw)
    else (if eqb (code c) b'{'
        then of_document (json.unmarshal_object raw)
        else err clients_file_shape)

abbrev pub encoded : Option String → Result String
encoded none = err upstream
encoded (some raw) = ok (raw ++ "\n")

-- The form that SaveClientsFile writes a file in.
unfoldable pub encode_file : Json → ClientsFile → Result String
encode_file json file =
    if is_empty file.resources
    then encoded (json.marshal_array file.clients)
    else encoded (json.marshal_object file)

module _ (parse_url : String → Option Url) where
  unfoldable pub validate_file : ClientsFile → Result (Unit {0})
  validate_file file = do
    validate_clients parse_url [] file.clients
    validate_resource_registry file.resources file.clients

  module _ (json : Json) (io : Io) where
    unfoldable pub read_clients_file : String → Disk → Result ClientsFile
    unfolding validate_file
    read_clients_file path disk = do
      raw ← read_scoped_file io path disk
      file ← parse_document json raw (first_non_space raw)
      validate_file file
      ok file

    unfoldable pub read_clients : String → Disk → Result (List Client)
    unfolding read_clients_file
    read_clients path disk = do file ← read_clients_file path disk; ok file.clients

    -- What a save writes.
    unfoldable pub contents_of : ClientsFile → Result String
    unfolding validate_file encode_file
    contents_of file = do validate_file file; encode_file json file

    unfoldable pub write_contents : String → Result String → Disk → Result (Unit {0}) × Disk
    write_contents path (err e) disk = (err e, disk)
    write_contents path (ok raw) disk = save_json_file io path raw disk

    unfoldable pub save_clients_file : String → ClientsFile → Disk → Result (Unit {0}) × Disk
    unfolding contents_of write_contents
    save_clients_file path file disk = write_contents path (contents_of file) disk

    unfoldable pub save_clients : String → List Client → Disk → Result (Unit {0}) × Disk
    unfolding save_clients_file
    save_clients path clients disk =
        save_clients_file path (record { clients = clients; resources = [] }) disk

    -- LoadClients, without the log.
    unfoldable pub load_clients : String → Disk → Result ClientRegistry
    unfolding read_clients_file
    load_clients path disk = do
      file ← read_clients_file path disk
      new_client_registry parse_url file.clients
