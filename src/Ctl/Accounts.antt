-- ===== src/Ctl/Accounts.antt =====
-- cmd/clientctl/main.go: the changes of one user account.
pub mod Keeps
use minidp.Base.{ℕ, String, ◌==◌, Bool, true, false, not, ◌&&◌, ◌||◌, leb, List, if◌then◌else◌}
use minidp.Errors.{Result, ok, ◌>>=◌, ◌>>◌, refuse_if, ctl, cost_needs_password}
use minidp.Clients.{User}
use minidp.Ctl.{parse_list}
use minidp.Ctl.Console.{Console, new_user_hash}
use minidp.Clients.Hashes.{Bcrypt}

-- The flags of `user add` and `user update`, those of clientSelector first.
pub record UserFlags : Type 0 where
  pub file : String
  pub client : String
  pub username : String
  pub password : String
  pub email : String
  pub name : String
  pub roles : String
  pub cost : ℕ

pub record UserChangeSpec : Type 0 where
  pub u : UserFlags
  pub password_provided : Bool
  pub roles_provided : Bool

-- The entry that `user add` appends.
unfoldable pub user_of : UserFlags → String → User
unfolding parse_list
user_of u hash = record {
  username = u.username;
  password_hash = hash;
  email = u.email;
  name = u.name;
  roles = parse_list u.roles;
}

abbrev pub UserChange : Type 0
UserChange = User × Bool

unfoldable pub apply_password : Bcrypt → Console → UserChangeSpec → User → Result UserChange
apply_password bcrypt console spec user =
    if spec.password_provided
    then (do
      hash ← new_user_hash bcrypt console spec.u.password spec.u.cost false
      ok (record user { password_hash = hash }, true))
    else (do
      refuse_if (not (leb spec.u.cost bcrypt.default_cost && leb bcrypt.default_cost spec.u.cost))
          (ctl cost_needs_password)
      ok (user, false))

abbrev pub apply_when : Bool → (User → User) → UserChange → UserChange
apply_when given change (user, changed) = if given then (change user, true) else (user, changed)

unfoldable pub apply_user_updates : Bcrypt → Console → UserChangeSpec → User → Result UserChange
unfolding apply_password parse_list
apply_user_updates bcrypt console spec user = do
  change ← apply_password bcrypt console spec user
  ok (
      apply_when spec.roles_provided (λ u. record u { roles = parse_list spec.u.roles })
        (apply_when (not (spec.u.name == "")) (λ u. record u { name = spec.u.name })
          (apply_when (not (spec.u.email == "")) (λ u. record u { email = spec.u.email }) change)))
