-- ===== src/Clients/Files/RoundTrip.antt =====
-- internal/idp/clients.go: a clients file that was saved is read back as it was.
use Prim.Native.Char.{Char}
use Prim.Native.String.{◌++◌}
use minidp.Base.{String, ◌≡◌, refl, true, Option, none, some, List, [], ◌∷◌, eq_refl, arith}
use minidp.Errors.{ok, >>-eq-ok}
use minidp.JsonFile.{
  Io, Disk, read_scoped_file, read_found, save_json_file, create_temp, write_temp, close_and_rename,
}
use minidp.Clients.{Client, ResourceDefinition, ClientsFile}
use minidp.Clients.Validate.{Url}
use minidp.Clients.Files.{
  Json, first_non_space, parse_document, encode_file, validate_file, contents_of, save_clients_file,
  write_contents, read_clients_file, of_array, of_document, with_clients, encoded,
}

abbrev pub Begins : Char → String → Type 0
Begins c raw = first_non_space (raw ++ "\n") ≡ some c

-- What encoding/json promises of one file: an array or an object is written, and is read back as it was.
pub record IsFaithful (json : Json) (file : ClientsFile) : Type 0 where
  pub array_begins : (raw : String) → json.marshal_array file.clients ≡ some raw → Begins "[" raw
  pub array_read :
      (raw : String)
      → json.marshal_array file.clients ≡ some raw
      → json.unmarshal_array (raw ++ "\n") ≡ some file.clients
  pub object_begins : (raw : String) → json.marshal_object file ≡ some raw → Begins "{" raw
  pub object_read :
      (raw : String)
      → json.marshal_object file ≡ some raw
      → json.unmarshal_object (raw ++ "\n")
        ≡ some (record { clients = some file.clients; resources = file.resources })

-- The operating system does what it is asked to do at a path, and a free name for the temporary file is drawn.
pub record Works (io : Io) (path : String) (d : Disk) : Type 0 where
  pub readable : io.readable ≡ true
  pub opened : io.opened ≡ true
  pub creatable : io.creatable ≡ true
  pub written : io.partial ≡ none
  pub closed : io.closed ≡ true
  pub renamed : io.renamed ≡ true
  pub suffix : String
  pub drawn : io.suffix ≡ some suffix
  pub free : d (path ++ (".tmp-" ++ suffix)) ≡ none

parse_document-array :
    (json : Json) (cs : List Client) (raw : String)
    → IsFaithful json (record { clients = cs; resources = [] })
    → json.marshal_array cs ≡ some raw
    → parse_document json (raw ++ "\n") (first_non_space (raw ++ "\n"))
      ≡ ok (record { clients = cs; resources = [] })
unfolding parse_document of_array
parse_document-array json cs raw f h = rw (f.array_begins raw h, f.array_read raw h)

parse_document-object :
    (json : Json) (file : ClientsFile) (raw : String)
    → IsFaithful json file
    → json.marshal_object file ≡ some raw
    → parse_document json (raw ++ "\n") (first_non_space (raw ++ "\n")) ≡ ok file
unfolding parse_document of_document with_clients
parse_document-object json file raw f h = rw (f.object_begins raw h, f.object_read raw h)

encoded-ok :
    (o : Option String) (text : String)
    → encoded o ≡ ok text
    → (raw : String) × (o ≡ some raw) × ((raw ++ "\n") ≡ text)
encoded-ok none text h = cc
encoded-ok (some raw) text h = (raw, refl, cc)

parse-encode :
    (json : Json) (cs : List Client) (rs : List ResourceDefinition) (text : String)
    → IsFaithful json (record { clients = cs; resources = rs })
    → encode_file json (record { clients = cs; resources = rs }) ≡ ok text
    → parse_document json text (first_non_space text) ≡ ok (record { clients = cs; resources = rs })
unfolding encode_file
parse-encode json cs [] text f h =
    let (raw, e, t) = encoded-ok (json.marshal_array cs) text h in
    rw (← t) (parse_document-array json cs raw f e)
parse-encode json cs (r ∷ rs) text f h =
    let file : ClientsFile = record { clients = cs; resources = r ∷ rs } in
    let (raw, e, t) = encoded-ok (json.marshal_object file) text h in
    rw (← t) (parse_document-object json file raw f e)

save_json_file-Works :
    (io : Io) (path raw : String) (d : Disk)
    → Works io path d
    → (save_json_file io path raw d).0 ≡ ok tt
unfolding save_json_file create_temp write_temp close_and_rename
save_json_file-Works io path raw d w =
    rw (w.opened, w.drawn, w.creatable, w.free, w.written, w.closed, w.renamed)

save_json_file-writes :
    (io : Io) (path raw : String) (d : Disk)
    → Works io path d
    → (save_json_file io path raw d).1 path ≡ some raw
unfolding save_json_file create_temp write_temp close_and_rename
save_json_file-writes io path raw d w =
    rw (w.opened, w.drawn, w.creatable, w.free, w.written, w.closed, w.renamed)
      (ground (arith, eq_refl path))

module _ (parse_url : String → Option Url) (json : Json) (io : Io) where
  -- A file that the read finds is returned whole.
  read-encode :
      (path text : String) (file : ClientsFile) (d : Disk)
      → io.readable ≡ true
      → d path ≡ some text
      → IsFaithful json file
      → contents_of parse_url json io file ≡ ok text
      → read_clients_file parse_url json io path d ≡ ok file
  unfolding contents_of read_clients_file read_scoped_file read_found
  read-encode path text file d on at f h =
      let (valid, e) = >>-eq-ok (validate_file parse_url file) (encode_file json file) h in
      rw (at, on, parse-encode json file.clients file.resources text f e, valid)

  -- Where the operating system does what it is asked to do, saving a file that passes the validation and can be
  -- encoded succeeds, and the path is then read back as exactly that file, its registry of roles included.
  pub save_clients_file-read :
      (path text : String) (file : ClientsFile) (d : Disk)
      → Works io path d
      → IsFaithful json file
      → contents_of parse_url json io file ≡ ok text
      → ((save_clients_file parse_url json io path file d).0 ≡ ok tt)
        × (read_clients_file parse_url json io path
              (save_clients_file parse_url json io path file d).1
            ≡ ok file)
  unfolding save_clients_file write_contents
  save_clients_file-read path text file d w f h =
      let saved : Disk = (save_json_file io path text d).1 in
      rw h (
        save_json_file-Works io path text d w,
        read-encode path text file saved w.readable (save_json_file-writes io path text d w) f h,
      )
