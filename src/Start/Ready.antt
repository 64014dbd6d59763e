-- ===== src/Start/Ready.antt =====
-- internal/idp/server.go and main.go: what a server that was started can rely on.
use Prim.Native.String.{◌++◌}
use minidp.Base.{◌<◌, String, Option, inl, inr, ◌≡◌, refl, sym, ap, ◌∙◌, List, [], ◌∷◌, All}
use minidp.Errors.{
  Result, ok, err, ok-eq, >>-eq-ok, >>=-eq-ok, Result-cases, refuse_if, duplicate_client_id,
}
use minidp.JsonFile.{Disk, read_scoped_file}
use minidp.Clients.{Client, ClientsFile}
use minidp.Clients.Validate.{Url, validate, validate_clients}
use minidp.Clients.Sound.{IsWellFormed, validate-IsWellFormed}
use minidp.Clients.Registry.{ClientRegistry}
use minidp.Clients.Index.{Indexes, new_client_registry-Indexes}
use minidp.Clients.Files.{
  parse_document, first_non_space, validate_file, read_clients_file, load_clients,
}
use minidp.Store.{new_store}
use minidp.Keys.{KeySet}
use minidp.Keys.Ring.{new_signing_key_set}
use minidp.Keys.Signs.{SignsAsVerified, new_signing_key_set-Signs}
use minidp.Config.{Config, load_config}
use minidp.Config.Checked.{AtoiIsPositive, IsChecked, load_config-IsChecked}
use minidp.Page.{new_login_template}
use minidp.Page.Assets.{IsIntended, new_login_template-IsIntended}
use minidp.Start.{
  Machine, Provider, serving, or_no_secret, server_of, world_of, new_with_keys, new_on, key_files,
  new, served, serve_with, main,
}

validate_clients-IsWellFormed :
    (parse_url : String → Option Url) (seen : List String) (cs : List Client)
    → validate_clients parse_url seen cs ≡ ok tt
    → All IsWellFormed cs
unfolding validate_clients
validate_clients-IsWellFormed parse_url seen [] h = tt
validate_clients-IsWellFormed parse_url seen (c ∷ cs) h =
    let (valid, h1) = >>-eq-ok (validate parse_url c) _ h in
    let (fresh, h2) = >>-eq-ok (refuse_if _ duplicate_client_id) _ h1 in
    (
      validate-IsWellFormed parse_url c valid,
      validate_clients-IsWellFormed parse_url (c.client_id ∷ seen) cs h2,
    )

module _ (m : Machine) where
  -- The registry holds the clients of the configured file, each of them well formed.
  pub record HoldsFile (cfg : Config) (files : Disk) (r : ClientRegistry) : Type 0 where
    pub file : ClientsFile
    pub read : read_clients_file m.parse_url m.json m.io_files cfg.clients_file files ≡ ok file
    pub sound : All IsWellFormed file.clients
    pub indexed : Indexes m.parse_url file.clients r

  pub record IsReady (cfg : Config) (files : Disk) (p : Provider) : Type 0 where
    pub configured : load_config m.env ≡ ok cfg
    pub checked : IsChecked m.env cfg
    pub signs : SignsAsVerified p.server.keys
    pub clients : HoldsFile cfg files p.server.clients
    pub css : IsIntended m.assets "login.css" "web/login.css" p.template.css
    pub logo : IsIntended m.assets "logo.svg" "web/logo.svg" p.template.logo
    pub fresh : p.world.store ≡ new_store
    pub limited : 0 < p.world.limiter.per_minute

  read_clients_file_sound :
      (path : String) (files : Disk) (file : ClientsFile)
      → read_clients_file m.parse_url m.json m.io_files path files ≡ ok file
      → All IsWellFormed file.clients
  unfolding read_clients_file validate_file
  read_clients_file_sound path files file h =
      let (raw, a, h1) = >>=-eq-ok (read_scoped_file m.io_files path files) _ h in
      let (found, b, h2) = >>=-eq-ok (parse_document m.json raw (first_non_space raw)) _ h1 in
      let (valid, h3) = >>-eq-ok (validate_file m.parse_url found) _ h2 in
      let (each, registry) = >>-eq-ok (validate_clients m.parse_url [] found.clients) _ valid in
      rw (← ok-eq h3) (validate_clients-IsWellFormed m.parse_url [] found.clients each)

  load_clients-HoldsFile :
      (cfg : Config) (files : Disk) (r : ClientRegistry)
      → load_clients m.parse_url m.json m.io_files cfg.clients_file files ≡ ok r
      → HoldsFile cfg files r
  unfolding load_clients
  load_clients-HoldsFile cfg files r h =
      let path = cfg.clients_file in
      let (file, a, b) =
        >>=-eq-ok (read_clients_file m.parse_url m.json m.io_files path files) _ h in
      record {
        file = file;
        read = a;
        sound = read_clients_file_sound path files file a;
        indexed = new_client_registry-Indexes m.parse_url file.clients r b;
      }

  new_with_keys-IsReady :
      (cfg : Config) (files : Disk) (keys : KeySet) (p : Provider)
      → load_config m.env ≡ ok cfg
      → IsChecked m.env cfg
      → SignsAsVerified keys
      → new_with_keys m cfg files keys ≡ ok p
      → IsReady cfg files p
  unfolding new_with_keys server_of world_of
  new_with_keys-IsReady cfg files keys p c k s h =
      let (lt, a, h1) = >>=-eq-ok (new_login_template m.assets cfg.title cfg.subtitle) _ h in
      let (r, b, h2) =
        >>=-eq-ok (load_clients m.parse_url m.json m.io_files cfg.clients_file files) _ h1 in
      let (secret, d, h3) = >>=-eq-ok (or_no_secret m.secret) _ h2 in
      let (title, subtitle, css, logo) =
        new_login_template-IsIntended m.assets cfg.title cfg.subtitle lt a in
      rw (← ok-eq h3) (record {
        configured = c;
        checked = k;
        signs = s;
        clients = load_clients-HoldsFile cfg files r b;
        css = css;
        logo = logo;
        fresh = refl;
        limited = k.limited;
      })

  new-IsReady :
      (cfg : Config) (files dir d : Disk) (p : Provider)
      → load_config m.env ≡ ok cfg
      → IsChecked m.env cfg
      → new m cfg files dir ≡ (ok p, d)
      → IsReady cfg files p
  unfolding new
  new-IsReady cfg files dir d p c k h =
      made
        (new_signing_key_set m.lib m.io cfg.rsa_pem cfg.key_dir m.now (key_files m cfg files dir))
        refl h
    where
      made :
          (r : Result KeySet × Disk)
          → new_signing_key_set m.lib m.io cfg.rsa_pem cfg.key_dir m.now (key_files m cfg files dir)
            ≡ r
          → new_on m cfg files r ≡ (ok p, d)
          → IsReady cfg files p
      made (err e, d') q z = cc
      made (ok keys, d') q z =
          new_with_keys-IsReady cfg files keys p c k
            (new_signing_key_set-Signs m.lib m.io cfg.rsa_pem cfg.key_dir m.now
              (key_files m cfg files dir) d' keys q)
            (ap (λ (x : Result Provider × Disk). x.0) z)

  -- A run of the command without arguments that serves has a configuration that was checked. Its active key verifies
  -- what is signed with it, its registry holds exactly the clients of the configured file, all of them well formed,
  -- it serves the assets that the operator intends, and it starts with an empty store and with a limit on logins.
  pub main-IsReady :
      (files dir d : Disk) (addr : String) (p : Provider)
      → AtoiIsPositive m.env
      → main m [] files dir ≡ (serving addr p, d)
      → (cfg : Config) × IsReady cfg files p × (addr ≡ cfg.host ++ (":" ++ cfg.port))
  unfolding main serve_with
  main-IsReady files dir d addr p pos h = elim (Result-cases (load_config m.env)) [
    | inl (e, q) ↦
        (let z : serve_with m (err e) files dir ≡ (serving addr p, d) =
            sym (ap (λ (x : Result Config). serve_with m x files dir) q) ∙ h in
          cc)
    | inr (cfg, q) ↦
        (let z : served m cfg (new m cfg files dir) ≡ (serving addr p, d) =
            sym (ap (λ (x : Result Config). serve_with m x files dir) q) ∙ h in
          let (started, at) = served-serving cfg (new m cfg files dir) z in
          (
            cfg,
            new-IsReady cfg files dir d p q (load_config-IsChecked m.env cfg pos q) started,
            at,
          ))
  ]
    where
      served-serving :
          (cfg : Config) (r : Result Provider × Disk)
          → served m cfg r ≡ (serving addr p, d)
          → (r ≡ (ok p, d)) × (addr ≡ cfg.host ++ (":" ++ cfg.port))
      served-serving cfg (err e, d') z = cc
      served-serving cfg (ok q, d') z = (cc, cc)
