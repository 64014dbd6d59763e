-- ===== src/Ctl/Show/Exit.antt =====
-- cmd/clientctl/main.go: a run that reports a failure has changed no file.
use minidp.Base.{
  ℕ, String, ◌==◌, ◌≢◌, refl, ◌||◌, Option, none, some, List, [], ◌∷◌, Bool-cases, inl, inr,
}
use minidp.Errors.{Result, ok, err}
use minidp.Clients.Validate.{Url}
use minidp.Clients.Files.{Json}
use minidp.JsonFile.{Io, Disk}
use minidp.JsonFile.Atomic.{Keeps}
use minidp.Ctl.Console.{Console}
use minidp.Clients.Hashes.{Bcrypt}
use minidp.Ctl.Commands.{run, file_of}
use minidp.Ctl.Commands.Commit.{Committed, run-Committed}
use minidp.Ctl.Show.{
  Request, change, client_list, client_show, user_list, hash, FlagSets, perform, finish, main,
  dispatch, exit_code, silent,
}

-- A process that does not end with 0 leaves every file as it was.
abbrev pub FailsClean : Disk → ℕ × Disk → Type 0
FailsClean d (code, d') = code ≢ 0 → Keeps d d'

module _ (parse_url : String → Option Url) (json : Json) (io : Io) (bcrypt : Bcrypt)
    (decimal : ℕ → String) where
  change-FailsClean :
      (path : String) (contents : Result String) (d : Disk) (r : Result (Unit {0}) × Disk)
      → Committed path contents d r
      → FailsClean d (
        exit_code parse_url json io bcrypt decimal (silent parse_url json io bcrypt decimal r.0),
        r.1,
      )
  unfolding Committed
  change-FailsClean path contents d (err e, d') h = λ _. h
  change-FailsClean path contents d (ok u, d') h = λ n. elim (n refl) [ ]

  finish-FailsClean :
      (console : Console) (request : Option (Result Request)) (d : Disk)
      → FailsClean d (finish parse_url json io bcrypt decimal console request d)
  unfolding finish perform Keeps
  finish-FailsClean console none d = λ _ p t h. h
  finish-FailsClean console (some (err e)) d = λ _ p t h. h
  finish-FailsClean console (some (ok (change command))) d =
      change-FailsClean (file_of command) _ d (run parse_url json io bcrypt console command d)
        (run-Committed parse_url json io bcrypt console command d)
  finish-FailsClean console (some (ok (client_list file))) d = λ _ p t h. h
  finish-FailsClean console (some (ok (client_show file client))) d = λ _ p t h. h
  finish-FailsClean console (some (ok (user_list file client))) d = λ _ p t h. h
  finish-FailsClean console (some (ok (hash password cost))) d = λ _ p t h. h

  -- Whatever the arguments and whatever the operating system reports, a process that ends with another code than 0
  -- has left every file as it was.
  pub main-FailsClean :
      (flags : FlagSets) (console : Console) (args : List String) (d : Disk)
      → FailsClean d (main parse_url json io bcrypt decimal flags console args d)
  unfolding main Keeps
  main-FailsClean flags console [] d = λ _ p t h. h
  main-FailsClean flags console (name ∷ args) d =
      elim (Bool-cases (name == "help" || name == "-h" || name == "--help")) [
        | inl e ↦ (rw e (λ _ p t h. h))
        | inr e ↦
            (rw e (
              finish-FailsClean console (dispatch parse_url json io bcrypt decimal flags name args)
                d))
      ]
