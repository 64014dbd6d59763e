-- ===== src/Ctl/Flags.antt =====
-- cmd/clientctl/main.go: the flags of the commands. The package flag is a parameter.
use minidp.Base.{ℕ, String, ◌++◌, List, [], ◌∷◌, Option, none, some, contains}
use minidp.Clients.Hashes.{Bcrypt}
use minidp.Ctl.Changes.{ClientFlags, ClientChangeSpec}
use minidp.Ctl.Accounts.{UserFlags, UserChangeSpec}
use minidp.Ctl.Show.{FlagSets}

-- What Parse finds: the values of the flags, that of -cost, and the names of the flags that Visit visits.
pub record Given : Type 0 where
  pub text : String → String
  pub cost : ℕ
  pub provided : List String

-- The names and the defaults of the flags that were registered.
abbrev pub Registered : Type 0
Registered = List (String × String)

-- `Parse` for a set of flags, and whether the set has a -cost, with its default; `none` where it
-- ends the process.
abbrev pub FlagPackage : Type 0
FlagPackage = Registered → Option ℕ → List String → Option Given

abbrev pub registered_selector : Registered
registered_selector = ("file", "clients.json") ∷ ("client", "") ∷ []

abbrev pub registered_client_flags : Registered
registered_client_flags =
    registered_selector
    ++ (("type", "")
        ∷ ("secret", "")
        ∷ ("audience", "")
        ∷ ("grant-types", "")
        ∷ ("cc-scopes", "")
        ∷ ("cc-roles", "")
        ∷ ("allowed-scopes", "")
        ∷ ("redirect", "")
        ∷ ("post-logout", "")
        ∷ ("origin", "")
        ∷ [])

abbrev pub registered_user_flags : Registered
registered_user_flags =
    registered_selector
    ++ (("username", "") ∷ ("password", "") ∷ ("email", "") ∷ ("name", "") ∷ ("roles", "") ∷ [])

unfoldable pub client_flags_of : Given → ClientFlags
client_flags_of g = record {
  file = g.text "file";
  client = g.text "client";
  typ = g.text "type";
  secret = g.text "secret";
  audience = g.text "audience";
  grant_types = g.text "grant-types";
  cc_scopes = g.text "cc-scopes";
  cc_roles = g.text "cc-roles";
  allowed_scopes = g.text "allowed-scopes";
  redirect = g.text "redirect";
  post_logout = g.text "post-logout";
  origin = g.text "origin";
}

unfoldable pub user_flags_of : Given → UserFlags
user_flags_of g = record {
  file = g.text "file";
  client = g.text "client";
  username = g.text "username";
  password = g.text "password";
  email = g.text "email";
  name = g.text "name";
  roles = g.text "roles";
  cost = g.cost;
}

-- parseClientChangeArgs behind Parse; the command itself tests the selector.
unfoldable pub client_change_of : Given → ClientChangeSpec
unfolding client_flags_of
client_change_of g = record { f = client_flags_of g; provided = g.provided }

-- parseUserChangeArgs behind Parse.
unfoldable pub user_change_of : Given → UserChangeSpec
unfolding user_flags_of
user_change_of g = record {
  u = user_flags_of g;
  password_provided = contains g.provided "password";
  roles_provided = contains g.provided "roles";
}

abbrev found {ℓ} : {A : Type ℓ} → (Given → A) → Option Given → Option A
found make none = none
found make (some g) = some (make g)

module _ (parse : FlagPackage) (bcrypt : Bcrypt) where
  -- The flag sets of the commands.
  unfoldable pub flag_sets : FlagSets
  unfolding client_change_of user_change_of
  flag_sets = record {
    client_flags = λ args. found client_flags_of (parse registered_client_flags none args);
    change_flags = λ args. found client_change_of (parse registered_client_flags none args);
    file_flag =
        λ args. found (λ g. g.text "file") (parse (("file", "clients.json") ∷ []) none args);
    selector_flags =
        λ args. found (λ g. (g.text "file", g.text "client")) (parse registered_selector none args);
    user_flags =
        λ args. found user_flags_of (parse registered_user_flags (some bcrypt.default_cost) args);
    user_change_flags =
        λ args. found user_change_of (parse registered_user_flags (some bcrypt.default_cost) args);
    user_selector_flags = λ args.
        found (λ g. (g.text "file", g.text "client", g.text "username"))
          (parse (registered_selector ++ (("username", "") ∷ [])) none args);
    hash_flags = λ args.
        found (λ g. (g.text "password", g.cost))
          (parse (("password", "") ∷ []) (some bcrypt.default_cost) args);
  }
