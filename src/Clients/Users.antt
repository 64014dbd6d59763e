-- ===== src/Clients/Users.antt =====
-- internal/idp/users.go: what an account of the clients file must satisfy.
use Prim.Native.String.{len}
use minidp.Base.{String, ◌==◌, Bool, not, ◌&&◌, ◌||◌, List, [], ◌∷◌, contains, leb}
use minidp.Strings.{trim_space, has_prefix}
use minidp.Errors.{
  Result, ok, ◌>>◌, refuse_if, username_empty, padded_value, password_hash_shape, roles_empty_entry,
  duplicate_role, duplicate_username,
}
use minidp.Clients.{User}

unfoldable pub is_bcrypt_hash : String → Bool
is_bcrypt_hash s =
    (leb (len s) 60 && leb 60 (len s))
    && (has_prefix "$2a$" s || has_prefix "$2b$" s || has_prefix "$2y$" s)

-- The loop over the roles; `seen` holds the roles before.
unfoldable pub validate_roles : List String → List String → Result (Unit {0})
validate_roles seen [] = ok tt
validate_roles seen (role ∷ roles) = do
  refuse_if (trim_space role == "") roles_empty_entry
  refuse_if (not (role == trim_space role)) padded_value
  refuse_if (contains seen role) duplicate_role
  validate_roles (role ∷ seen) roles

-- The method `validate` of `User`.
unfoldable pub validate_user : User → Result (Unit {0})
validate_user u = do
  refuse_if (trim_space u.username == "") username_empty
  refuse_if (not (u.username == trim_space u.username)) padded_value
  refuse_if (not (is_bcrypt_hash u.password_hash)) password_hash_shape
  validate_roles [] u.roles

-- validateUserSlice; `seen` holds the usernames before.
unfoldable pub validate_users : List String → List User → Result (Unit {0})
validate_users seen [] = ok tt
validate_users seen (u ∷ us) = do
  validate_user u
  refuse_if (contains seen u.username) duplicate_username
  validate_users (u.username ∷ seen) us
