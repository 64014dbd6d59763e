-- ===== src/Ctl/Accounts/Keeps.antt =====
-- cmd/clientctl/main.go: `user update` keeps the name of the account.
use minidp.Base.{if-cases, ◌==◌, ◌≡◌, refl, sym, ap, ◌∙◌, Bool, true, false, not, inl, inr}
use minidp.Errors.{ok-eq, ok, ctl, cost_needs_password, refuse_if, >>-eq-ok, >>=-eq-ok}
use minidp.Clients.{User}
use minidp.Ctl.{parse_list}
use minidp.Ctl.Console.{Console, new_user_hash}
use minidp.Clients.Hashes.{Bcrypt}
use minidp.Ctl.Accounts.{UserChangeSpec, UserChange, apply_when, apply_password, apply_user_updates}

apply_when-username :
    (given : Bool) (change : User → User) (uc : UserChange)
    → ((u : User) → (change u).username ≡ u.username)
    → (apply_when given change uc).0.username ≡ uc.0.username
apply_when-username true change (u, b) h = h u
apply_when-username false change (u, b) h = refl

apply_password-username :
    (bcrypt : Bcrypt) (console : Console) (spec : UserChangeSpec) (user : User)
    (change : UserChange)
    → apply_password bcrypt console spec user ≡ ok change
    → change.0.username ≡ user.username
unfolding apply_password
apply_password-username bcrypt console spec user change h =
    elim (if-cases spec.password_provided _ _ h) [
      | inl e ↦
          (let (hash, _, g) =
              >>=-eq-ok (new_user_hash bcrypt console spec.u.password spec.u.cost false) _ e.1 in
            ap (λ (x : UserChange). x.0.username) (sym (ok-eq g)))
      | inr e ↦
          (let g = (>>-eq-ok (refuse_if _ (ctl cost_needs_password)) (ok (user, false)) e.1).1 in
            ap (λ (x : UserChange). x.0.username) (sym (ok-eq g)))
    ]

pub apply_user_updates-username :
    (bcrypt : Bcrypt) (console : Console) (spec : UserChangeSpec) (user : User)
    (change : User × Bool)
    → apply_user_updates bcrypt console spec user ≡ ok change
    → change.0.username ≡ user.username
unfolding apply_user_updates apply_password
apply_user_updates-username bcrypt console spec user change h =
    let (typed, e, f) = >>=-eq-ok (apply_password bcrypt console spec user) _ h in
    let last =
      apply_when-username spec.roles_provided
        (λ (u : User). record u { roles = parse_list spec.u.roles }) in
    let middle =
      apply_when-username (not (spec.u.name == ""))
        (λ (u : User). record u { name = spec.u.name }) in
    let first =
      apply_when-username (not (spec.u.email == ""))
        (λ (u : User). record u { email = spec.u.email }) in
    ap (λ (x : UserChange). x.0.username) (sym (ok-eq f))
    ∙ last _ (λ u. refl)
    ∙ middle _ (λ u. refl)
    ∙ first typed (λ u. refl)
    ∙ apply_password-username bcrypt console spec user typed e
