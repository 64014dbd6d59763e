-- ===== src/Ctl/Commands/Found.antt =====
-- cmd/clientctl/main.go: what the commands find in the clients file that they load.
use minidp.Base.{
  ℕ, String, ◌≡◌, refl, sym, ap, ◌∙◌, Bool, true, false, Option, none, some, List, [], ◌∷◌,
  contains, arith, Option-cases, Bool-cases, inl, inr,
}
use minidp.Errors.{
  Error, Result, ok, err, >>-eq-ok, >>=-eq-ok, refuse_if, refuse_if-eq-ok, duplicate_client_id,
  ◌>>=◌, ctl, client_missing_hint,
}
use minidp.Clients.{Client, ClientsFile, User}
use minidp.Clients.Validate.{Url, validate, validate_clients}
use minidp.Clients.Sound.{validate-IsWellFormed, distinct_names}
use minidp.Clients.Files.{
  Json, read_clients, read_clients_file, validate_file, parse_document, first_non_space,
}
use minidp.JsonFile.{Io, Disk, read_scoped_file}
use minidp.Ctl.{
  load_clients, load_existing_clients, or_missing, is_not_exist, find_client, find_user_index,
  get_elem?, required, client_key, user_key, if_present, set_at,
}
use minidp.Ctl.Entries.{named, distinct, Changed, get_index, set_at-Changed, named-key, named-cases}
use minidp.Ctl.Commands.{select_client, select_user, with_users, user_store_of}

pub validate_clients-distinct :
    (parse_url : String → Option Url) (seen : List String) (cs : List Client)
    → validate_clients parse_url seen cs ≡ ok tt
    → distinct client_key seen cs ≡ true
unfolding validate_clients
validate_clients-distinct parse_url seen [] h = refl
validate_clients-distinct parse_url seen (c ∷ cs) h =
    let valid = >>-eq-ok (validate parse_url c) _ h in
    let fresh = >>-eq-ok (refuse_if (contains seen c.client_id) duplicate_client_id) _ valid.1 in
    rw (refuse_if-eq-ok (contains seen c.client_id) duplicate_client_id fresh.0)
      (validate_clients-distinct parse_url (c.client_id ∷ seen) cs fresh.1)

distinct_names-distinct :
    (seen : List String) (us : List User) → distinct user_key seen us ≡ distinct_names seen us
distinct_names-distinct seen [] = refl
distinct_names-distinct seen (u ∷ us) =
    ground (arith, distinct_names-distinct (u.username ∷ seen) us)

pub validate_clients-names :
    (parse_url : String → Option Url) (seen : List String) (id : String) (cs : List Client)
    (c : Client)
    → validate_clients parse_url seen cs ≡ ok tt
    → named client_key id cs ≡ some c
    → distinct user_key [] c.users ≡ true
unfolding validate_clients
validate_clients-names parse_url seen id [] c h f = cc
validate_clients-names parse_url seen id (d ∷ cs) c h f =
    let valid = >>-eq-ok (validate parse_url d) _ h in
    let rest = >>-eq-ok (refuse_if (contains seen d.client_id) duplicate_client_id) _ valid.1 in
    elim (named-cases client_key id d cs c f) [
      | inl e ↦
          (rw (← e) (
            distinct_names-distinct [] d.users ∙ (validate-IsWellFormed parse_url d valid.0).names))
      | inr e ↦ validate_clients-names parse_url (d.client_id ∷ seen) id cs c rest.1 e
    ]

module _ (parse_url : String → Option Url) (json : Json) (io : Io) where
  read_clients-valid :
      (path : String) (d : Disk) (cs : List Client)
      → read_clients parse_url json io path d ≡ ok cs
      → validate_clients parse_url [] cs ≡ ok tt
  unfolding read_clients read_clients_file validate_file
  read_clients-valid path d cs h =
      let (file, r, same) = >>=-eq-ok (read_clients_file parse_url json io path d) _ h in
      let (raw, a, r') = >>=-eq-ok (read_scoped_file io path d) _ r in
      let (file', b, r'') = >>=-eq-ok (parse_document json raw (first_non_space raw)) _ r' in
      let (v, last) = >>-eq-ok (validate_file parse_url file') (ok file') r'' in
      let first = (>>-eq-ok (validate_clients parse_url [] file'.clients) _ v).0 in
      let e : file' ≡ file = cc in
      let f : file.clients ≡ cs = cc in
      ap (λ (ds : List Client). validate_clients parse_url [] ds)
        (sym (ap (λ (g : ClientsFile). g.clients) e ∙ f))
      ∙ first

  or_missing-valid :
      (r : Result (List Client)) (cs : List Client) (present : Bool)
      → ((found : List Client) → r ≡ ok found → validate_clients parse_url [] found ≡ ok tt)
      → or_missing r ≡ ok (cs, present)
      → validate_clients parse_url [] cs ≡ ok tt
  unfolding or_missing validate_clients
  or_missing-valid (ok found) cs present v h = v cs (ground arith)
  or_missing-valid (err e) cs present v h = elim (Bool-cases (is_not_exist e)) [
    | inl on ↦ (let f : [] ≡ cs = ground arith in rw (← f) refl)
    | inr off ↦ (let f : ⊥ = ground arith in elim f [ ])
  ]

  pub load_clients-valid :
      (path : String) (d : Disk) (cs : List Client) (present : Bool)
      → load_clients parse_url json io path d ≡ ok (cs, present)
      → validate_clients parse_url [] cs ≡ ok tt
  unfolding load_clients
  load_clients-valid path d cs present h =
      or_missing-valid (read_clients parse_url json io path d) cs present
        (λ found e. read_clients-valid path d found e) h

  present-ok :
      (r : Result (List Client × Bool)) (cs : List Client)
      → (r >>= if_present) ≡ ok cs
      → r ≡ ok (cs, true)
  present-ok (ok (found, true)) cs h = ground arith
  present-ok (ok (found, false)) cs h = ground arith
  present-ok (err e) cs h = cc

  pub load_existing-loads :
      (path : String) (d : Disk) (cs : List Client)
      → load_existing_clients parse_url json io path d ≡ ok cs
      → load_clients parse_url json io path d ≡ ok (cs, true)
  unfolding load_existing_clients
  load_existing-loads path d cs h = present-ok (load_clients parse_url json io path d) cs h

pub select_client-finds :
    (missing : Error) (cs : List Client) (id : String) (k : ℕ) (c : Client)
    → select_client missing cs id ≡ ok (k, c)
    → (find_client cs id ≡ some k) × (named client_key id cs ≡ some c)
unfolding select_client find_client
select_client-finds missing cs id k c h = elim (Option-cases (find_client cs id)) [
  | inl e ↦ ground arith
  | inr (i, e) ↦ elim (Option-cases (get_elem? cs i)) [
    | inl f ↦ ground arith
    | inr (x, f) ↦ (ground arith, sym (get_index client_key id cs i e) ∙ ground arith)
  ]
]

pub select_user-finds :
    (us : List User) (name : String) (k : ℕ) (u : User)
    → select_user us name ≡ ok (k, u)
    → (find_user_index us name ≡ some k) × (named user_key name us ≡ some u)
unfolding select_user find_user_index
select_user-finds us name k u h = elim (Option-cases (find_user_index us name)) [
  | inl e ↦ ground arith
  | inr (i, e) ↦ elim (Option-cases (get_elem? us i)) [
    | inl f ↦ ground arith
    | inr (x, f) ↦ (ground arith, sym (get_index user_key name us i e) ∙ ground arith)
  ]
]

pub required-ok {ℓ} :
    {A : Type ℓ} (e : Error) (o : Option A) {a : A} → required e o ≡ ok a → o ≡ some a
required-ok e none h = cc
required-ok e (some b) h = ground arith

pub user_store_of-finds :
    (cs : List Client) (id : String) (us : List User)
    → user_store_of cs id ≡ ok us
    → (c : Client) × (named client_key id cs ≡ some c) × (c.users ≡ us)
unfolding user_store_of
user_store_of-finds cs id us h =
    let (found, s, e) = >>=-eq-ok (select_client (ctl client_missing_hint) cs id) _ h in
    (found.1, (select_client-finds (ctl client_missing_hint) cs id found.0 found.1 s).1, cc)

-- Saving the users of a client replaces them, and nothing else.
pub with_users-Changed :
    (cs : List Client) (id : String) (us : List User) (cs' : List Client) (c : Client)
    → named client_key id cs ≡ some c
    → with_users cs id us ≡ ok cs'
    → Changed client_key id (some (record c { users = us })) cs cs'
unfolding with_users find_client
with_users-Changed cs id us cs' c n h =
    let ((k, d), s, e) = >>=-eq-ok (select_client (ctl client_missing_hint) cs id) _ h in
    let (at, m) = select_client-finds (ctl client_missing_hint) cs id k d s in
    let same : d ≡ c = ground arith in
    let done : set_at k (record d { users = us }) cs ≡ cs' = ground arith in
    rw (← done, ← same)
      (set_at-Changed client_key id (record d { users = us }) cs k at
        (named-key client_key id cs d m))
