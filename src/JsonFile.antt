-- ===== src/JsonFile.antt =====
-- internal/idp/jsonfile.go: reading a file, and replacing one by way of a temporary file. Paths are
-- taken as filepath.Clean leaves them.
pub mod Atomic
use Prim.Native.String.{◌++◌}
use minidp.Base.{
  String, Bool, true, false, not, ◌||◌, Option, none, some, Map, put, delete, if◌then◌else◌,
}
use minidp.Errors.{Result, ok, err, upstream, not_exist}

-- The contents of the files that exist.
abbrev pub Disk : Type 0
Disk = Map String

-- What the calls of the operating system report during one run.
pub record Io : Type 0 where
  -- opening and reading a file that exists
  pub readable : Bool
  -- os.OpenRoot on the directory to write to
  pub opened : Bool
  -- randomToken
  pub suffix : Option String
  -- creating a file whose name is free
  pub creatable : Bool
  -- what a failed write left in the file; `none` where all was written
  pub partial : Option String
  pub closed : Bool
  pub renamed : Bool
  pub removed : Bool

unfoldable pub read_found : Io → Option String → Result String
read_found io none = err not_exist
read_found io (some raw) = if io.readable then ok raw else err upstream

unfoldable pub read_scoped_file : Io → String → Disk → Result String
unfolding read_found
read_scoped_file io path disk = read_found io (disk path)

-- removeTempFile: a failure is only logged.
unfoldable pub remove_temp_file : Io → String → Disk → Disk
remove_temp_file io tmp disk = if io.removed then delete tmp disk else disk

abbrev pub is_some {ℓ} : {A : Type ℓ} → Option A → Bool
is_some none = false
is_some (some a) = true

unfoldable pub close_and_rename : Io → String → String → String → Disk → Result (Unit {0}) × Disk
close_and_rename io path tmp raw disk =
    if not io.closed
    then (err upstream, remove_temp_file io tmp disk)
    else (if not io.renamed
        then (err upstream, remove_temp_file io tmp disk)
        else (ok tt, put path raw (delete tmp disk)))

-- The write, whose outcome is the fourth argument, and what follows.
unfoldable pub write_temp :
    Io → String → String → Option String → String → Disk → Result (Unit {0}) × Disk
write_temp io path tmp none raw disk = close_and_rename io path tmp raw (put tmp raw disk)
write_temp io path tmp (some begun) raw disk =
    (err upstream, remove_temp_file io tmp (put tmp begun disk))

-- The exclusive creation of the temporary file, and what follows.
unfoldable pub create_temp : Io → String → String → String → Disk → Result (Unit {0}) × Disk
create_temp io path tmp raw disk =
    if not io.creatable || is_some (disk tmp)
    then (err upstream, disk)
    else write_temp io path tmp io.partial raw disk

unfoldable pub save_json_file : Io → String → String → Disk → Result (Unit {0}) × Disk
save_json_file io path raw disk = if not io.opened then (err upstream, disk) else elim io.suffix [
  | none ↦ (err upstream, disk)
  | some suffix ↦ create_temp io path (path ++ (".tmp-" ++ suffix)) raw disk
]
