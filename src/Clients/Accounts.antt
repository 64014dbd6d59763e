-- ===== src/Clients/Accounts.antt =====
-- internal/idp/clients.go: when a registry can be built, and the accounts that it finds.
use minidp.Base.{
  String, ◌==◌, ◌≡◌, refl, ap, ◌∙◌, Bool, true, false, not, ◌&&◌, ◌||◌, List, [], ◌∷◌, Option, none,
  some, contains, eq_iff, arith, if◌then◌else◌, empty,
}
use minidp.Errors.{Result, ok, err, refuse_if, ◌>>◌, no_users_registered, duplicate_client_id}
use minidp.Clients.{Client, User, interactive}
use minidp.Clients.Sound.{distinct_names}
use minidp.Clients.Validate.{Url, is_empty}
use minidp.Clients.Registry.{
  ClientRegistry, index_clients, new_client_registry, index, is_registered, index_users,
  empty_registry, UserStore,
}

abbrev pub find_user : String → List User → Option User
find_user name [] = none
find_user name (u ∷ us) = if u.username == name then some u else find_user name us

find_user_seen :
    (name : String) (seen : List String) (us : List User)
    → contains seen name ≡ true
    → distinct_names seen us ≡ true
    → find_user name us ≡ none
find_user_seen name seen [] h d = refl
find_user_seen name seen (u ∷ us) h d =
    ground (arith, eq_iff u.username name, find_user_seen name (u.username ∷ seen) us)

abbrev or_old : Option User → Option User → Option User
or_old none old = old
or_old (some u) old = some u

index_users_lem :
    (name : String) (seen : List String) (us : List User) (m : UserStore)
    → distinct_names seen us ≡ true
    → index_users m us name ≡ or_old (find_user name us) (m name)
unfolding index_users
index_users_lem name seen [] m d = refl
index_users_lem name seen (u ∷ us) m d = ground (
  arith,
  eq_iff u.username name,
  index_users_lem name (u.username ∷ seen) us (λ j. if u.username == j then some u else m j),
  find_user_seen name (u.username ∷ seen) us,
)

-- Where no username occurs twice, a name finds exactly the account of that name in the client's own list.
pub index_users-finds :
    (name : String) (us : List User)
    → distinct_names [] us ≡ true
    → index_users empty us name ≡ find_user name us
index_users-finds name us d = ground (arith, index_users_lem name [] us empty d)

-- Every interactive client has an account, and no id occurs twice or is in `seen`.
abbrev pub can_start : List String → List Client → Bool
can_start seen [] = true
can_start seen (c ∷ cs) =
    not (interactive c && is_empty c.users)
    && (not (contains seen c.client_id) && can_start (c.client_id ∷ seen) cs)

abbrev pub is_ok {ℓ} : {A : Type ℓ} → Result A → Bool
is_ok (ok a) = true
is_ok (err e) = false

module _ (parse_url : String → Option Url) where
  is_registered-index :
      (id : String) (c : Client) (r : ClientRegistry)
      → is_registered parse_url id (index parse_url c r)
        ≡ (c.client_id == id || is_registered parse_url id r)
  unfolding is_registered index
  is_registered-index id c r = ground arith

  index_clients_step :
      (c : Client) (cs : List Client) (r : ClientRegistry)
      → index_clients parse_url (c ∷ cs) r ≡ (
          refuse_if (interactive c && is_empty c.users) no_users_registered
          >> (refuse_if (is_registered parse_url c.client_id r) duplicate_client_id
              >> index_clients parse_url cs (index parse_url c r)))
  unfolding index_clients
  index_clients_step c cs r = refl

  index_clients-is_ok :
      (seen : List String) (cs : List Client) (r : ClientRegistry)
      → ((id : String) → is_registered parse_url id r ≡ contains seen id)
      → is_ok (index_clients parse_url cs r) ≡ can_start seen cs
  index_clients-is_ok seen [] r h = unfold index_clients in refl
  index_clients-is_ok seen (c ∷ cs) r h =
      let ih =
        index_clients-is_ok (c.client_id ∷ seen) cs (index parse_url c r)
          (λ id. is_registered-index id c r ∙ ap (λ (b : Bool). c.client_id == id || b) (h id)) in
      ground (arith, ih, h c.client_id, index_clients_step c cs r)

  -- A registry is built exactly from the files with at least one client, in which every interactive client has
  -- an account and no two clients share an id.
  pub new_client_registry-is_ok :
      (cs : List Client)
      → is_ok (new_client_registry parse_url cs) ≡ (not (is_empty cs) && can_start [] cs)
  unfolding new_client_registry
  new_client_registry-is_ok cs =
      ground (arith, index_clients-is_ok [] cs empty_registry (λ id. unfold is_registered in refl))
