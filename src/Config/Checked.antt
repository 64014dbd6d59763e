-- ===== src/Config/Checked.antt =====
-- internal/idp/config.go: what a configuration that was loaded guarantees.
use minidp.Base.{
  ℕ, leb, if◌then◌else◌, ◌+◌, ◌-◌, ◌*◌, ◌≤◌, ◌<◌, String, ◌==◌, ◌≡◌, ◌≢◌, ap, ◌∙◌, true, not, List,
  [], ◌∷◌, All, if-cases, inl, inr, eq_iff, arith,
}
use minidp.Durations.{seconds, shift}
use minidp.Strings.{trim_space}
use minidp.Server.ClientIp.{split_commas}
use minidp.Errors.{
  ok, ok-eq, >>-eq-ok, >>=-eq-ok, refuse_if, refuse_if-eq-ok, removed_variable, clients_file_unset,
  upstream,
}
use minidp.Config.{
  Environment, Parsed, unparsed, not_positive, positive, Config, removed_variables,
  reject_variables, env_int, positive_of, env_duration_seconds, scan_cidrs, parse_trusted_proxies,
  load_config, default_retention, load_key_retention,
}

module _ (env : Environment) where
  abbrev pub IsUnset : String → Type 0
  IsUnset name = env.getenv name ≡ ""

  abbrev pub IsRange : String → Type 0
  IsRange cidr = (cidr ≢ "") × (env.is_cidr cidr ≡ true)

  reject_variables-IsUnset :
      (names : List String) → reject_variables env names ≡ ok tt → All IsUnset names
  unfolding reject_variables
  reject_variables-IsUnset [] h = tt
  reject_variables-IsUnset (name ∷ names) h =
      let set = not (env.getenv name == "") in
      let (fine, rest) = >>-eq-ok (refuse_if set removed_variable) _ h in
      let off = refuse_if-eq-ok set removed_variable fine in
      (ground (arith, eq_iff (env.getenv name) ""), reject_variables-IsUnset names rest)

  scan_cidrs-IsRange :
      (raws cidrs : List String) → scan_cidrs env raws ≡ ok cidrs → All IsRange cidrs
  unfolding scan_cidrs
  scan_cidrs-IsRange [] cidrs h = rw (← ok-eq h) tt
  scan_cidrs-IsRange (raw ∷ raws) cidrs h =
      let cidr = trim_space raw in
      elim (if-cases (cidr == "") _ _ h) [
        | inl e ↦ scan_cidrs-IsRange raws cidrs e.1
        | inr e ↦
            (let bad = not (env.is_cidr cidr) in
              let (fine, h1) = >>-eq-ok (refuse_if bad upstream) _ e.1 in
              let (rest, r, h2) = >>=-eq-ok (scan_cidrs env raws) _ h1 in
              let off = refuse_if-eq-ok bad upstream fine in
              rw (← ok-eq h2) (
                (ground (arith, e.0, eq_iff cidr ""), ground (arith, off)),
                scan_cidrs-IsRange raws rest r,
              ))
      ]

  parse_trusted_proxies-IsRange :
      (raw : String) (cidrs : List String)
      → parse_trusted_proxies env raw ≡ ok cidrs
      → All IsRange cidrs
  unfolding parse_trusted_proxies
  parse_trusted_proxies-IsRange raw cidrs h = elim (if-cases (trim_space raw == "") _ _ h) [
    | inl e ↦ rw (← ok-eq e.1) tt
    | inr e ↦ scan_cidrs-IsRange (split_commas raw) cidrs e.1
  ]

  -- What is positive for strconv.Atoi is greater than 0.
  abbrev pub AtoiIsPositive : Type 0
  AtoiIsPositive = (text : String) (n : ℕ) → env.atoi text ≡ positive n → 0 < n

  positive_of-positive : (p : Parsed) (n : ℕ) → positive_of env p ≡ ok n → p ≡ positive n
  unfolding positive_of
  positive_of-positive unparsed n h = cc
  positive_of-positive not_positive n h = cc
  positive_of-positive (positive m) n h = ap positive (ok-eq h)

  env_int-positive :
      (key : String) (default n : ℕ)
      → AtoiIsPositive
      → 0 < default
      → env_int env key default ≡ ok n
      → 0 < n
  unfolding env_int
  env_int-positive key default n pos d h = elim (if-cases (env.getenv key == "") _ _ h) [
    | inl e ↦ rw (← ok-eq e.1) d
    | inr e ↦ pos (env.getenv key) n (positive_of-positive (env.atoi (env.getenv key)) n e.1)
  ]

  -- A variable that strconv.Atoi reads as a positive number n, of at most 18446744073, gives a duration: n seconds up to
  -- 9223372036, by which an instant goes forward; from there on it is accepted as well, but n seconds less 2^64
  -- nanoseconds, by which an instant goes back.
  pub env_duration_seconds_lem :
      (key : String) (default n t : ℕ)
      → env.getenv key ≢ ""
      → env.atoi (env.getenv key) ≡ positive n
      → n ≤ 18446744073
      → (d : ℕ) × (env_duration_seconds env key default ≡ ok d)
        × (shift t d ≡ (
            if leb n 9223372036
            then t + n * 1000000000
            else t - (18446744073709551616 - n * 1000000000)))
  unfolding env_duration_seconds env_int positive_of seconds shift
  env_duration_seconds_lem key default n t set is_number bound = (
    seconds n,
    simp (is_number) (ground (arith, eq_iff (env.getenv key) "", set)),
    ground (arith, bound),
  )

  pub record IsChecked (cfg : Config) : Type 0 where
    pub no_removed : All IsUnset removed_variables
    pub clients : cfg.clients_file ≢ ""
    pub proxies : All IsRange cfg.trusted_proxies
    pub limited : 0 < cfg.login_rate_limit

  -- A configuration that is loaded sets none of the removed variables, names a clients file, trusts only ranges of
  -- addresses that parse, and limits the logins to a positive number per minute.
  pub load_config-IsChecked :
      (cfg : Config) → AtoiIsPositive → load_config env ≡ ok cfg → IsChecked cfg
  unfolding load_config
  load_config-IsChecked cfg pos h =
      let (removed, h1) = >>-eq-ok (reject_variables env removed_variables) _ h in
      let (access, a, h2) = >>=-eq-ok (env_duration_seconds env "IDP_ACCESS_TOKEN_TTL" 3600) _ h1 in
      let (refresh, r, h3) =
        >>=-eq-ok (env_duration_seconds env "IDP_REFRESH_TOKEN_TTL" 7200) _ h2 in
      let (limit, l, h4) = >>=-eq-ok (env_int env "IDP_LOGIN_RATE_LIMIT" 20) _ h3 in
      let file = env.getenv "IDP_CLIENTS_FILE" in
      let (set, h5) = >>-eq-ok (refuse_if (file == "") clients_file_unset) _ h4 in
      let (proxies, p, h6) =
        >>=-eq-ok (parse_trusted_proxies env (env.getenv "TRUSTED_PROXIES")) _ h5 in
      let on = refuse_if-eq-ok (file == "") clients_file_unset set in
      rw (← ok-eq h6) (record {
        no_removed = reject_variables-IsUnset removed_variables removed;
        clients = ground (arith, on, eq_iff file "");
        proxies = parse_trusted_proxies-IsRange (env.getenv "TRUSTED_PROXIES") proxies p;
        limited = env_int-positive "IDP_LOGIN_RATE_LIMIT" 20 limit pos (ground arith) l;
      })

  default_retention_lem :
      (access refresh : ℕ)
      → env_duration_seconds env "IDP_ACCESS_TOKEN_TTL" 3600 ≡ ok access
      → env_duration_seconds env "IDP_REFRESH_TOKEN_TTL" 7200 ≡ ok refresh
      → access + refresh + 300000000000 < 9223372036854775808
      → default_retention env ≡ ok (access + refresh + 300000000000)
  unfolding default_retention seconds
  default_retention_lem access refresh a r small = rw (a, r) (ap ok (ground arith))

  -- With the configuration that is loaded, and without an explicit retention, a rotated key is retained for the
  -- lifetimes of an access token and of a refresh token and five minutes more, if that is a valid duration.
  pub load_key_retention-covers :
      (cfg : Config)
      → env.getenv "IDP_KEY_RETENTION" ≡ ""
      → load_config env ≡ ok cfg
      → cfg.access_token_ttl + cfg.refresh_token_ttl + 300000000000 < 9223372036854775808
      → load_key_retention env ≡ ok (cfg.access_token_ttl + cfg.refresh_token_ttl + 300000000000)
  unfolding load_config load_key_retention
  load_key_retention-covers cfg unset h small =
      let (removed, h1) = >>-eq-ok (reject_variables env removed_variables) _ h in
      let (access, a, h2) = >>=-eq-ok (env_duration_seconds env "IDP_ACCESS_TOKEN_TTL" 3600) _ h1 in
      let (refresh, r, h3) =
        >>=-eq-ok (env_duration_seconds env "IDP_REFRESH_TOKEN_TTL" 7200) _ h2 in
      let (limit, l, h4) = >>=-eq-ok (env_int env "IDP_LOGIN_RATE_LIMIT" 20) _ h3 in
      let file = env.getenv "IDP_CLIENTS_FILE" in
      let (set, h5) = >>-eq-ok (refuse_if (file == "") clients_file_unset) _ h4 in
      let (proxies, p, h6) =
        >>=-eq-ok (parse_trusted_proxies env (env.getenv "TRUSTED_PROXIES")) _ h5 in
      let ta = ap (λ (c : Config). c.access_token_ttl) (ok-eq h6) in
      let tr = ap (λ (c : Config). c.refresh_token_ttl) (ok-eq h6) in
      rw unset (
        default_retention_lem cfg.access_token_ttl cfg.refresh_token_ttl (a ∙ ap ok ta)
          (r ∙ ap ok tr) small)
