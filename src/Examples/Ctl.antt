-- ===== src/Examples/Ctl.antt =====
-- Runs of cmd/clientctl/main.go and of the files that it reads and writes.
use Prim.Native.String.{◌++◌}
use minidp.Base.{
  ◌≡◌, refl, ℕ, String, ◌==◌, List, [], ◌∷◌, none, some, true, false, empty, if◌then◌else◌,
}
use minidp.Errors.{ok}
use minidp.Clients.{
  Client, audience_of, interactive, allows_grant, confidential, grants, or_default,
}
use minidp.Clients.Files.{
  Json, contents_of, first_non_space, save_clients_file, read_clients_file, validate_file,
  encode_file, read_clients,
}
use minidp.Clients.Files.RoundTrip.{Works, Begins, IsFaithful, save_clients_file-read}
use minidp.JsonFile.{Io, Disk, read_scoped_file, read_found}
use minidp.Ctl.{
  parse_list, clean_entries, load_clients, or_missing, find_client, index_from,
  effective_grant_types,
}
use minidp.Ctl.Console.{Console}
use minidp.Clients.Hashes.{Bcrypt}
use minidp.Ctl.Changes.{ClientFlags, client_of, new_client}
use minidp.Ctl.Commands.{client_add, run, entries_after, file_of, added_clients}
use minidp.Ctl.Commands.Commit.{bare, run-reads}
use minidp.Ctl.Commands.Outcome.{Effect, Loaded}
use minidp.Ctl.Commands.Effect.{entries_after-Effect}
use minidp.Ctl.Show.{FlagSets, main, describe_clients, show_lines, user_lines}
use minidp.Ctl.Show.Exit.{FailsClean, main-FailsClean}
use minidp.Ctl.Show.Hidden.{redact, listings_hide}
use minidp.Clients.Validate.{
  validate, validate_identity, validate_profile, check_type, validate_grants, scan_grants,
  validate_cc_roles, validate_allowed_scopes, validate_scope_list, validate_urls, validate_url_list,
  validate_url, check_cc_grant, check_parts, validate_cc_role_list, validate_cc_scopes,
  validate_clients,
}
use minidp.Strings.{trim_space, contains_blank, trim_prefix, cut, strip_prefix, is_blank}
use minidp.Server.ClientIp.{split_commas}
use minidp.Clients.Users.{validate_users}
use minidp.Clients.Resources.{
  validate_resource_registry, scan_resources, scan_clients, validate_client_roles, check_roles,
}
use minidp.Examples.{app, one_url}

abbrev pub working : Io
working = record {
  readable = true;
  opened = true;
  suffix = some "x";
  creatable = true;
  partial = none;
  closed = true;
  renamed = true;
  removed = true;
}

abbrev pub no_files : Disk
no_files = empty

parse_list_test : parse_list " openid,, email " ≡ "openid" ∷ "email" ∷ []
unfolding parse_list clean_entries split_commas trim_space
parse_list_test = refl

abbrev spa_flags : ClientFlags
spa_flags = record {
  file = "clients.json";
  client = "spa";
  typ = "public";
  secret = "";
  audience = "";
  grant_types = "";
  cc_scopes = "";
  cc_roles = "";
  allowed_scopes = "";
  redirect = "https://spa/cb";
  post_logout = "";
  origin = "";
}

abbrev spa : Client
spa = client_of spa_flags ""

-- An encoding of the one list of clients that the runs write.
abbrev one_file : Json
one_file = record {
  marshal_array = λ cs. some "[spa]";
  marshal_object = λ file. none;
  unmarshal_array = λ raw. if raw == "[spa]\n" then some (spa ∷ []) else none;
  unmarshal_object = λ raw. none;
}

abbrev silent : Console
silent = record { is_terminal = false; stdin = ""; typed = none; confirmed = none }

abbrev no_bcrypt : Bcrypt
no_bcrypt = record {
  min_cost = 4;
  max_cost = 31;
  default_cost = 10;
  generate = λ password cost. none;
  atoi = λ text. none;
}

spa_validates : validate one_url spa ≡ ok tt
unfolding validate validate_identity validate_profile check_type validate_grants scan_grants
    validate_cc_roles validate_allowed_scopes validate_scope_list validate_urls validate_url_list
    validate_url check_cc_grant check_parts validate_cc_role_list validate_cc_scopes audience_of
    interactive allows_grant confidential grants or_default trim_space contains_blank trim_prefix
    cut strip_prefix is_blank parse_list clean_entries split_commas client_of validate_users
spa_validates = refl

spa_added :
    entries_after one_url one_file working no_bcrypt silent (client_add spa_flags) no_files
    ≡ ok (spa ∷ [])
unfolding entries_after added_clients load_clients or_missing find_client index_from
    effective_grant_types new_client read_scoped_file read_found parse_list clean_entries
    split_commas client_of contents_of validate_file encode_file read_clients read_clients_file
    trim_space contains_blank trim_prefix cut strip_prefix is_blank or_default confidential
spa_added = rw spa_validates refl

spa_contents : contents_of one_url one_file working (bare (spa ∷ [])) ≡ ok "[spa]\n"
unfolding contents_of validate_file encode_file read_clients read_clients_file validate_clients
    validate_resource_registry scan_resources scan_clients validate_client_roles check_roles
    audience_of interactive allows_grant confidential grants or_default
spa_contents = rw spa_validates refl

entries_after-Effect_example :
    (cs : List Client) × Loaded one_url one_file working "clients.json" no_files cs
    × Effect one_url one_file working (client_add spa_flags) cs (spa ∷ [])
unfolding file_of
entries_after-Effect_example =
    entries_after-Effect one_url one_file working no_bcrypt silent (client_add spa_flags) no_files
      (spa ∷ []) spa_added

one_file-reads :
    (raw : String) → "[spa]" ≡ raw → one_file.unmarshal_array (raw ++ "\n") ≡ some (spa ∷ [])
one_file-reads raw h = rw (← h) refl

one_file-Begins : (raw : String) → "[spa]" ≡ raw → Begins "[" raw
unfolding first_non_space
one_file-Begins raw h = rw (← h) refl

spa-IsFaithful : IsFaithful one_file (bare (spa ∷ []))
spa-IsFaithful = record {
  array_begins = λ raw h. one_file-Begins raw cc;
  array_read = λ raw h. one_file-reads raw cc;
  object_begins = λ raw h. cc;
  object_read = λ raw h. cc;
}

working-Works : Works working "clients.json" no_files
working-Works = record {
  readable = refl;
  opened = refl;
  creatable = refl;
  written = refl;
  closed = refl;
  renamed = refl;
  suffix = "x";
  drawn = refl;
  free = refl;
}

save_clients_file-read_example :
    ((save_clients_file one_url one_file working "clients.json" (bare (spa ∷ [])) no_files).0
      ≡ ok tt)
    × (read_clients_file one_url one_file working "clients.json"
          (save_clients_file one_url one_file working "clients.json" (bare (spa ∷ [])) no_files).1
        ≡ ok (bare (spa ∷ [])))
save_clients_file-read_example =
    save_clients_file-read one_url one_file working "clients.json" "[spa]\n" (bare (spa ∷ []))
      no_files working-Works spa-IsFaithful spa_contents

run-reads_example :
    ((run one_url one_file working no_bcrypt silent (client_add spa_flags) no_files).0 ≡ ok tt)
    × (read_clients_file one_url one_file working "clients.json"
          (run one_url one_file working no_bcrypt silent (client_add spa_flags) no_files).1
        ≡ ok (bare (spa ∷ [])))
unfolding file_of
run-reads_example =
    run-reads one_url one_file working no_bcrypt silent (client_add spa_flags) no_files (spa ∷ [])
      "[spa]\n" working-Works spa_added spa-IsFaithful spa_contents

abbrev no_flags : FlagSets
no_flags = record {
  client_flags = λ args. none;
  change_flags = λ args. none;
  file_flag = λ args. none;
  selector_flags = λ args. none;
  user_flags = λ args. none;
  user_change_flags = λ args. none;
  user_selector_flags = λ args. none;
  hash_flags = λ args. none;
}

abbrev digit : ℕ → String
digit n = "1"

main-FailsClean_example : FailsClean no_files (
    main one_url one_file working no_bcrypt digit no_flags silent
      ("client" ∷ "bogus" ∷ [])
      no_files)
main-FailsClean_example =
    main-FailsClean one_url one_file working no_bcrypt digit no_flags silent
      ("client" ∷ "bogus" ∷ []) no_files

listings_hide_example :
    (describe_clients digit (app ∷ []) ≡ describe_clients digit (redact app ∷ []))
    × ((id : String) → show_lines digit (app ∷ []) id ≡ show_lines digit (redact app ∷ []) id)
    × ((id : String) → user_lines (app ∷ []) id ≡ user_lines (redact app ∷ []) id)
listings_hide_example = listings_hide digit (app ∷ []) (redact app ∷ []) refl
