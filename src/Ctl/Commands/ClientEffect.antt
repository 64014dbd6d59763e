-- ===== src/Ctl/Commands/ClientEffect.antt =====
-- cmd/clientctl/main.go: what the commands on clients do to the entries.
use minidp.Base.{
  if-cases, String, ◌==◌, ◌≡◌, sym, ap, ◌∙◌, inl, inr, true, not, ◌&&◌, Option, none, List, [], ◌∷◌,
  ◌++◌, contains,
}
use minidp.Errors.{
  ok-eq, ok, >>-eq-ok, >>=-eq-ok, refuse_if, refuse_if-eq-ok, ctl, type_must_be, redirect_required,
  client_exists_hint, client_does_not_exist, nothing_to_update_cli,
}
use minidp.Clients.{Client, confidential, grant_authorization_code}
use minidp.Clients.Validate.{Url, validate}
use minidp.Clients.Files.{Json}
use minidp.JsonFile.{Io, Disk, is_some}
use minidp.Ctl.{
  find_client, load_clients, load_existing_clients, client_key, effective_grant_types, required,
  require_selector,
}
use minidp.Ctl.Entries.{
  named, set_at-Changed, remove_at-Changed, append-Changed, index_from-none, index_from-some,
  Changed-to, named-key,
}
use minidp.Ctl.Console.{Console, resolve_new_secret}
use minidp.Ctl.Changes.{
  ClientFlags, ClientChangeSpec, is_type, client_of, new_client, apply_client_changes,
}
use minidp.Ctl.Changes.Keeps.{apply_client_changes-Keeps}
use minidp.Ctl.Commands.{
  client_add, client_update, client_remove, select_client, added_clients, updated_clients,
  remaining_clients,
}
use minidp.Ctl.Commands.Found.{
  load_clients-valid, load_existing-loads, select_client-finds, required-ok,
  validate_clients-distinct,
}
use minidp.Ctl.Commands.Outcome.{Effect, Loaded, is_some-none}

new_client-of :
    (console : Console) (f : ClientFlags) (c : Client)
    → new_client console f ≡ ok c
    → (secret : String) × (c ≡ client_of f secret)
unfolding new_client client_of
new_client-of console f c h = elim (if-cases (confidential (client_of f "")) _ _ h) [
  | inl e ↦
      (let (secret, _, g) = >>=-eq-ok (resolve_new_secret console f.secret) _ e.1 in
        (secret, sym (ok-eq g)))
  | inr e ↦ ("", sym (ok-eq e.1))
]

module _ (parse_url : String → Option Url) (json : Json) (io : Io) where
  pub remaining-Effect :
      (file client : String) (d : Disk) (cs' : List Client)
      → remaining_clients parse_url json io file client d ≡ ok cs'
      → (cs : List Client) × Loaded parse_url json io file d cs
        × Effect parse_url json io (client_remove file client) cs cs'
  unfolding remaining_clients find_client Effect Loaded
  remaining-Effect file client d cs' h =
      let (_, h1) = >>-eq-ok (require_selector client) _ h in
      let (cs, l, h2) = >>=-eq-ok (load_existing_clients parse_url json io file d) _ h1 in
      let (k, r, h3) =
        >>=-eq-ok (required (ctl client_does_not_exist) (find_client cs client)) _ h2 in
      let at = required-ok (ctl client_does_not_exist) (find_client cs client) r in
      let loads = load_existing-loads parse_url json io file d cs l in
      let valid = load_clients-valid parse_url json io file d cs true loads in
      let (c, found) = index_from-some client_key 0 client cs k at in
      (
        cs,
        (true, loads),
        (
          c,
          found,
          Changed-to client_key _ _ _ _ _ (ok-eq h3) (
              remove_at-Changed client_key [] client cs k
                (validate_clients-distinct parse_url [] cs valid) at),
        ),
      )

  pub updated-Effect :
      (console : Console) (spec : ClientChangeSpec) (d : Disk) (cs' : List Client)
      → updated_clients parse_url json io console spec d ≡ ok cs'
      → (cs : List Client) × Loaded parse_url json io spec.f.file d cs
        × Effect parse_url json io (client_update spec) cs cs'
  unfolding updated_clients find_client Effect Loaded
  updated-Effect console spec d cs' h =
      let id = spec.f.client in
      let (_, h1) = >>-eq-ok (require_selector id) _ h in
      let (cs, l, h2) = >>=-eq-ok (load_existing_clients parse_url json io spec.f.file d) _ h1 in
      let ((k, c), s, h3) = >>=-eq-ok (select_client (ctl client_does_not_exist) cs id) _ h2 in
      let (at, found) = select_client-finds (ctl client_does_not_exist) cs id k c s in
      let (change, e, h4) = >>=-eq-ok (apply_client_changes console spec c) _ h3 in
      let (_, h5) = >>-eq-ok (refuse_if (not change.1) (ctl nothing_to_update_cli)) _ h4 in
      let (valid, h6) = >>-eq-ok (validate parse_url change.0) _ h5 in
      let kept = apply_client_changes-Keeps console spec c change e in
      let loads = load_existing-loads parse_url json io spec.f.file d cs l in
      (
        cs,
        (true, loads),
        (
          c,
          change.0,
          found,
          kept,
          valid,
          Changed-to client_key _ _ _ _ _ (ok-eq h6) (
              set_at-Changed client_key id change.0 cs k at
                (kept.0 ∙ named-key client_key id cs c found)),
        ),
      )

  pub added-Effect :
      (console : Console) (f : ClientFlags) (d : Disk) (cs' : List Client)
      → added_clients parse_url json io console f d ≡ ok cs'
      → (cs : List Client) × Loaded parse_url json io f.file d cs
        × Effect parse_url json io (client_add f) cs cs'
  unfolding added_clients find_client Effect Loaded client_of
  added-Effect console f d cs' h =
      let (_, h1) = >>-eq-ok (require_selector f.client) _ h in
      let (_, h2) = >>-eq-ok (refuse_if (not (is_type f.typ)) (ctl type_must_be)) _ h1 in
      let (_, h3) =
        >>-eq-ok
          (refuse_if
            (f.redirect == ""
              && contains (effective_grant_types f.grant_types) grant_authorization_code)
            (ctl redirect_required))
          _ h2 in
      let ((cs, present), l, h4) = >>=-eq-ok (load_clients parse_url json io f.file d) _ h3 in
      let (fresh, h5) =
        >>-eq-ok (refuse_if (is_some (find_client cs f.client)) (ctl client_exists_hint)) _ h4 in
      let (c, n, h6) = >>=-eq-ok (new_client console f) _ h5 in
      let (_, h7) = >>-eq-ok (validate parse_url c) _ h6 in
      let (secret, e) = new_client-of console f c n in
      let absent : named client_key f.client cs ≡ none =
        index_from-none client_key 0 f.client cs (is_some-none _ (refuse_if-eq-ok _ _ fresh)) in
      (
        cs,
        (present, l),
        (
          secret,
          absent,
          Changed-to client_key _ _ _ _ _ (ap (λ (x : Client). cs ++ (x ∷ [])) (sym e) ∙ ok-eq h7)
              (append-Changed client_key (client_of f secret) cs absent),
        ),
      )
