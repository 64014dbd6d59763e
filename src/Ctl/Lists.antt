-- ===== src/Ctl/Lists.antt =====
-- cmd/clientctl/main.go: the entries of a comma-separated flag.
use minidp.Base.{String, ◌==◌, ◌≡◌, ◌≢◌, inl, inr, Bool-cases, List, [], ◌∷◌, All, eq_iff, arith}
use minidp.Strings.{trim_space}
use minidp.Strings.Trim.{trim_space_idem}
use minidp.Server.ClientIp.{split_commas}
use minidp.Ctl.{clean_entries, parse_list}

-- Not empty, and without white space around it.
abbrev pub IsClean : String → Type 0
IsClean s = (s ≢ "") × (trim_space s ≡ s)

clean_entries-IsClean : (items : List String) → All IsClean (clean_entries items)
unfolding clean_entries
clean_entries-IsClean [] = tt
clean_entries-IsClean (item ∷ items) = elim (Bool-cases (trim_space item == "")) [
  | inl e ↦ rw e (clean_entries-IsClean items)
  | inr e ↦ rw e (
    (ground (arith, eq_iff (trim_space item) ""), trim_space_idem item),
    clean_entries-IsClean items,
  )
]

-- The entries of a list flag are not empty and have no white space around them, whatever the flag's value.
pub parse_list-IsClean : (value : String) → All IsClean (parse_list value)
unfolding parse_list
parse_list-IsClean value = clean_entries-IsClean (split_commas value)
