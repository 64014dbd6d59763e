-- ===== src/Ctl/Commands/UserEffect.antt =====
-- cmd/clientctl/main.go: what the commands on accounts do to the entries.
use minidp.Base.{String, ◌==◌, ◌≡◌, sym, ap, ◌∙◌, true, not, Option, none, List, [], ◌∷◌, ◌++◌}
use minidp.Errors.{
  ok, >>-eq-ok, >>=-eq-ok, refuse_if, refuse_if-eq-ok, ctl, nothing_to_update_usr,
  username_required, user_exists_hint, user_not_in_client,
}
use minidp.Clients.{Client, User}
use minidp.Clients.Validate.{Url}
use minidp.Clients.Files.{Json}
use minidp.JsonFile.{Io, Disk, is_some}
use minidp.Ctl.{
  find_user_index, load_clients, load_existing_clients, user_key, required, require_selector,
  set_at, remove_at,
}
use minidp.Ctl.Entries.{
  named, distinct, set_at-Changed, remove_at-Changed, append-Changed, index_from-none, Changed-from,
  named-key,
}
use minidp.Ctl.Console.{Console, new_user_hash}
use minidp.Clients.Hashes.{Bcrypt}
use minidp.Ctl.Accounts.Keeps.{apply_user_updates-username}
use minidp.Ctl.Accounts.{UserFlags, UserChangeSpec, user_of, apply_user_updates}
use minidp.Ctl.Commands.{
  user_add, user_update, user_remove, select_user, with_added_user, with_updated_user, without_user,
  user_store_of,
}
use minidp.Ctl.Commands.Found.{
  load_clients-valid, load_existing-loads, select_user-finds, required-ok, user_store_of-finds,
  with_users-Changed, validate_clients-names,
}
use minidp.Ctl.Commands.Outcome.{Effect, Loaded, is_some-none}

module _ (parse_url : String → Option Url) (json : Json) (io : Io) where
  module _ (bcrypt : Bcrypt) where
    pub added_user-Effect :
        (console : Console) (u : UserFlags) (d : Disk) (cs' : List Client)
        → with_added_user parse_url json io bcrypt console u d ≡ ok cs'
        → (cs : List Client) × Loaded parse_url json io u.file d cs
          × Effect parse_url json io (user_add u) cs cs'
    unfolding with_added_user find_user_index Effect Loaded user_of
    added_user-Effect console u d cs' h =
        let (_, h1) = >>-eq-ok (require_selector u.client) _ h in
        let (_, h2) = >>-eq-ok (refuse_if (u.username == "") (ctl username_required)) _ h1 in
        let ((cs, present), l, h3) = >>=-eq-ok (load_clients parse_url json io u.file d) _ h2 in
        let (us, s, h4) = >>=-eq-ok (user_store_of cs u.client) _ h3 in
        let (fresh, h5) =
          >>-eq-ok (refuse_if (is_some (find_user_index us u.username)) (ctl user_exists_hint)) _
            h4 in
        let (hash, _, h6) = >>=-eq-ok (new_user_hash bcrypt console u.password u.cost true) _ h5 in
        let (c, found, same) = user_store_of-finds cs u.client us s in
        let absent : named user_key u.username us ≡ none =
          index_from-none user_key 0 u.username us (is_some-none _ (refuse_if-eq-ok _ _ fresh)) in
        (
          cs,
          (present, l),
          (
            hash,
            (
              c,
              us ++ (user_of u hash ∷ []),
              found,
              Changed-from user_key _ _ _ _ _ (sym same)
                  (append-Changed user_key (user_of u hash) us absent),
              with_users-Changed cs u.client (us ++ (user_of u hash ∷ [])) cs' c found h6,
            ),
          ),
        )

    pub updated_user-Effect :
        (console : Console) (spec : UserChangeSpec) (d : Disk) (cs' : List Client)
        → with_updated_user parse_url json io bcrypt console spec d ≡ ok cs'
        → (cs : List Client) × Loaded parse_url json io spec.u.file d cs
          × Effect parse_url json io (user_update spec) cs cs'
    unfolding with_updated_user find_user_index Effect Loaded
    updated_user-Effect console spec d cs' h =
        let id = spec.u.client in
        let name = spec.u.username in
        let (_, h1) = >>-eq-ok (require_selector id) _ h in
        let (_, h2) = >>-eq-ok (refuse_if (name == "") (ctl username_required)) _ h1 in
        let (cs, l, h3) = >>=-eq-ok (load_existing_clients parse_url json io spec.u.file d) _ h2 in
        let (us, s, h4) = >>=-eq-ok (user_store_of cs id) _ h3 in
        let ((k, old), e, h5) = >>=-eq-ok (select_user us name) _ h4 in
        let (change, a, h6) = >>=-eq-ok (apply_user_updates bcrypt console spec old) _ h5 in
        let (_, h7) = >>-eq-ok (refuse_if (not change.1) (ctl nothing_to_update_usr)) _ h6 in
        let (c, found, same) = user_store_of-finds cs id us s in
        let (at, there) = select_user-finds us name k old e in
        let kept = apply_user_updates-username bcrypt console spec old change a in
        (
          cs,
          (true, load_existing-loads parse_url json io spec.u.file d cs l),
          (
            change.0,
            (
              c,
              set_at k change.0 us,
              found,
              Changed-from user_key _ _ _ _ _ (sym same) (
                  set_at-Changed user_key name change.0 us k at
                    (kept ∙ named-key user_key name us old there)),
              with_users-Changed cs id (set_at k change.0 us) cs' c found h7,
            ),
          ),
        )

    pub without_user-Effect :
        (file client username : String) (d : Disk) (cs' : List Client)
        → without_user parse_url json io bcrypt file client username d ≡ ok cs'
        → (cs : List Client) × Loaded parse_url json io file d cs
          × Effect parse_url json io (user_remove file client username) cs cs'
    unfolding without_user find_user_index Effect Loaded
    without_user-Effect file client username d cs' h =
        let (_, h1) = >>-eq-ok (require_selector client) _ h in
        let (_, h2) = >>-eq-ok (refuse_if (username == "") (ctl username_required)) _ h1 in
        let (cs, l, h3) = >>=-eq-ok (load_existing_clients parse_url json io file d) _ h2 in
        let (us, s, h4) = >>=-eq-ok (user_store_of cs client) _ h3 in
        let (k, r, h5) =
          >>=-eq-ok (required (ctl user_not_in_client) (find_user_index us username)) _ h4 in
        let (c, found, same) = user_store_of-finds cs client us s in
        let at = required-ok (ctl user_not_in_client) (find_user_index us username) r in
        let loads = load_existing-loads parse_url json io file d cs l in
        let valid = load_clients-valid parse_url json io file d cs true loads in
        let names = validate_clients-names parse_url [] client cs c valid found in
        (
          cs,
          (true, loads),
          (
            c,
            remove_at k us,
            found,
            Changed-from user_key _ _ _ _ _ (sym same) (
                remove_at-Changed user_key [] username us k
                  (ap (λ (l : List User). distinct user_key [] l) (sym same) ∙ names) at),
            with_users-Changed cs client (remove_at k us) cs' c found h5,
          ),
        )
