-- ===== src/Ctl/Show/Hidden.antt =====
-- cmd/clientctl/main.go: what the listings do not show.
use mathlib.Core.Option
use minidp.Base.{
  ℕ, zero, suc, String, ◌==◌, ◌≡◌, refl, sym, ap, ◌∙◌, Option, some, List, [], ◌∷◌, map, length,
  if◌then◌else◌, Option-cases, inl, inr,
}
use minidp.Errors.{Error, Result, ok, err, ◌>>=◌, ctl, client_does_not_exist, client_missing_hint}
use minidp.Clients.{Client, User, audience_of, grants}
use minidp.Ctl.{index_from, client_key, find_client, get_elem?}
use minidp.Ctl.Commands.{select_client, user_store_of}
use minidp.Ctl.Show.{
  describe_client, describe_user, describe_users, describe_clients, show_lines, user_lines,
}

-- An account without its hash, and a client without its secret.
abbrev pub redact_user : User → User
redact_user u = record u { password_hash = "" }

abbrev pub redact : Client → Client
redact c = record c { client_secret = ""; users = map redact_user c.users }

length-redact : (us : List User) → length (map redact_user us) ≡ length us
length-redact [] = refl
length-redact (u ∷ us) = ap suc (length-redact us)

describe_users-redact :
    (prefix : String) (us : List User)
    → describe_users prefix (map redact_user us) ≡ describe_users prefix us
unfolding describe_users describe_user
describe_users-redact prefix [] = refl
describe_users-redact prefix (u ∷ us) =
    ap (λ (l : List String). describe_user prefix u ∷ l) (describe_users-redact prefix us)

module _ (decimal : ℕ → String) where
  describe_client-redact :
      (c : Client) → describe_client decimal (redact c) ≡ describe_client decimal c
  unfolding describe_client audience_of grants
  describe_client-redact c = rw (length-redact c.users) refl

  describe_clients-redact :
      (cs : List Client) → describe_clients decimal (map redact cs) ≡ describe_clients decimal cs
  unfolding describe_clients
  describe_clients-redact [] = refl
  describe_clients-redact (c ∷ cs) = rw (describe_client-redact c, describe_clients-redact cs) refl

  index-redact :
      (i : ℕ) (id : String) (cs : List Client)
      → index_from client_key i id (map redact cs) ≡ index_from client_key i id cs
  unfolding index_from
  index-redact i id [] = refl
  index-redact i id (c ∷ cs) =
      ap (λ (o : Option ℕ). if c.client_id == id then some i else o) (index-redact (suc i) id cs)

  get-redact :
      (cs : List Client) (k : ℕ) → get_elem? (map redact cs) k ≡ Option.map redact (get_elem? cs k)
  unfolding get_elem?
  get-redact [] k = refl
  get-redact (c ∷ cs) zero = refl
  get-redact (c ∷ cs) (suc k) = get-redact cs k

  abbrev redact_found : Result (ℕ × Client) → Result (ℕ × Client)
  redact_found (ok (k, c)) = ok (k, redact c)
  redact_found (err e) = err e

  select-redact :
      (missing : Error) (id : String) (cs : List Client)
      → select_client missing (map redact cs) id ≡ redact_found (select_client missing cs id)
  unfolding select_client find_client
  select-redact missing id cs =
      rw (index-redact 0 id cs) (elim (Option-cases (index_from client_key 0 id cs)) [
        | inl e ↦ (rw e refl)
        | inr (k, e) ↦
            rw (e, get-redact cs k)
              (elim (Option-cases (get_elem? cs k)) [
                | inl f ↦ (rw f refl)
                | inr (c, f) ↦ rw f refl
              ])
      ])

  abbrev shown : Result (ℕ × Client) → Result (List String)
  shown r = r >>= λ (found : ℕ × Client).
      ok (describe_client decimal found.1 ∷ describe_users "  user: " found.1.users)

  shown-redact : (r : Result (ℕ × Client)) → shown (redact_found r) ≡ shown r
  shown-redact (ok (k, c)) =
      rw (describe_client-redact c, describe_users-redact "  user: " c.users) refl
  shown-redact (err e) = refl

  show_lines-redact :
      (id : String) (cs : List Client)
      → show_lines decimal (map redact cs) id ≡ show_lines decimal cs id
  unfolding show_lines
  show_lines-redact id cs =
      let missing = ctl client_does_not_exist in
      ap shown (select-redact missing id cs) ∙ shown-redact (select_client missing cs id)

  abbrev listed : Result (ℕ × Client) → Result (List String)
  listed r = (r >>= λ (found : ℕ × Client). ok found.1.users) >>= λ (us : List User).
      ok (describe_users "" us)

  listed-redact : (r : Result (ℕ × Client)) → listed (redact_found r) ≡ listed r
  listed-redact (ok (k, c)) = rw (describe_users-redact "" c.users) refl
  listed-redact (err e) = refl

  user_lines-redact :
      (id : String) (cs : List Client) → user_lines (map redact cs) id ≡ user_lines cs id
  unfolding user_lines user_store_of
  user_lines-redact id cs =
      let missing = ctl client_missing_hint in
      ap listed (select-redact missing id cs) ∙ listed-redact (select_client missing cs id)

  -- Two clients files that differ only in client secrets and password hashes are listed and shown alike, so what
  -- the commands print reveals neither.
  pub listings_hide :
      (cs cs' : List Client)
      → map redact cs ≡ map redact cs'
      → (describe_clients decimal cs ≡ describe_clients decimal cs')
        × ((id : String) → show_lines decimal cs id ≡ show_lines decimal cs' id)
        × ((id : String) → user_lines cs id ≡ user_lines cs' id)
  listings_hide cs cs' h = (
    sym (describe_clients-redact cs)
        ∙ ap (describe_clients decimal) h
        ∙ describe_clients-redact cs',
    λ id.
        sym (show_lines-redact id cs)
        ∙ ap (λ (l : List Client). show_lines decimal l id) h
        ∙ show_lines-redact id cs',
    λ id.
        sym (user_lines-redact id cs)
        ∙ ap (λ (l : List Client). user_lines l id) h
        ∙ user_lines-redact id cs',
  )
