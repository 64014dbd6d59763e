-- ===== src/JsonFile/Atomic.antt =====
-- internal/idp/jsonfile.go: the file is replaced as a whole or not at all.
use Prim.Native.String.{◌++◌}
use minidp.Base.{
  String, ◌≡◌, ◌≢◌, Option, none, some, eq_iff, eq_refl, arith, put, Bool-cases, inl, inr,
  Option-cases,
}
use minidp.Errors.{Result, ok, err}
use minidp.JsonFile.{
  Io, Disk, remove_temp_file, close_and_rename, write_temp, create_temp, save_json_file,
}

-- Every file of the first disk stands unchanged on the second.
unfoldable pub Keeps : Disk → Disk → Type 0
Keeps d d' = (p t : String) → d p ≡ some t → d' p ≡ some t

-- A save that fails keeps every file. One that succeeds writes the one file, and keeps the others.
unfoldable pub Atomic : String → String → Disk → Result (Unit {0}) × Disk → Type 0
Atomic path raw d (err e, d') = Keeps d d'
Atomic path raw d (ok u, d') =
    (d' path ≡ some raw) × ((p t : String) → p ≢ path → d p ≡ some t → d' p ≡ some t)

remove_temp_file-Keeps :
    (io : Io) (tmp begun : String) (d : Disk)
    → d tmp ≡ none
    → Keeps d (remove_temp_file io tmp (put tmp begun d))
unfolding Keeps remove_temp_file
remove_temp_file-Keeps io tmp begun d h p t hp = ground (arith, eq_iff tmp p)

close_and_rename-Atomic :
    (io : Io) (path tmp raw : String) (d : Disk)
    → d tmp ≡ none
    → Atomic path raw d (close_and_rename io path tmp raw (put tmp raw d))
unfolding close_and_rename Atomic
close_and_rename-Atomic io path tmp raw d h = elim (Bool-cases io.closed) [
  | inr e ↦ (simp e (remove_temp_file-Keeps io tmp raw d h))
  | inl e ↦ elim (Bool-cases io.renamed) [
    | inr f ↦ (simp (e, f) (remove_temp_file-Keeps io tmp raw d h))
    | inl f ↦
        (simp (e, f)
          (
            ground (arith, eq_refl path),
            λ p t other hp. ground (arith, eq_iff path p, eq_iff tmp p),
          ))
  ]
]

write_temp-Atomic :
    (io : Io) (path tmp : String) (fate : Option String) (raw : String) (d : Disk)
    → d tmp ≡ none
    → Atomic path raw d (write_temp io path tmp fate raw d)
unfolding write_temp Atomic
write_temp-Atomic io path tmp none raw d h = close_and_rename-Atomic io path tmp raw d h
write_temp-Atomic io path tmp (some begun) raw d h = remove_temp_file-Keeps io tmp begun d h

create_temp-Atomic :
    (io : Io) (path tmp raw : String) (d : Disk) → Atomic path raw d (create_temp io path tmp raw d)
unfolding create_temp Atomic Keeps
create_temp-Atomic io path tmp raw d = elim (Option-cases (d tmp)) [
  | inr (old, e) ↦ (elim (Bool-cases io.creatable) [
    | inl f ↦ (simp (e, f) (λ p t hp. hp))
    | inr f ↦ (simp f (λ p t hp. hp))
  ])
  | inl e ↦ elim (Bool-cases io.creatable) [
    | inr f ↦ (simp f (λ p t hp. hp))
    | inl f ↦ (simp (e, f) (write_temp-Atomic io path tmp io.partial raw d e))
  ]
]

-- Whatever the operating system reports along the way, a save that fails leaves every file as it was, and one
-- that succeeds puts exactly the new contents at the path and leaves every other file as it was.
pub save_json_file-Atomic :
    (io : Io) (path raw : String) (d : Disk) → Atomic path raw d (save_json_file io path raw d)
unfolding save_json_file Atomic Keeps
save_json_file-Atomic io path raw d = elim (Bool-cases io.opened) [
  | inr e ↦ (simp e (λ p t hp. hp))
  | inl e ↦ elim (Option-cases io.suffix) [
    | inl f ↦ (simp (e, f) (λ p t hp. hp))
    | inr (suffix, f) ↦
        (simp (e, f) (create_temp-Atomic io path (path ++ (".tmp-" ++ suffix)) raw d))
  ]
]
