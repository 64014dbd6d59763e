-- ===== src/Page/Assets.antt =====
-- internal/idp/web.go: an asset of the login page is the operator's file or the embedded one.
use Prim.Native.String.{len}
use minidp.Base.{
  ◌≡◌, refl, sym, ap, ◌∙◌, ◌≤◌, ◌⊎◌, inl, inr, String, Option, none, some, Bool-cases, arith, leb,
}
use minidp.Errors.{Error, Result, ok, err, ok-eq, >>=-eq-ok, Result-cases, not_exist}
use minidp.Page.{
  AssetDir, LoginTemplate, asset_override_limit, unless_missing, within_limit, or_embedded,
  read_opened, read_asset_override, load_asset, new_login_template,
}

module _ (dir : AssetDir) where
  -- The operator has placed no file of this name.
  abbrev pub IsAbsent : String → Type 0
  IsAbsent name =
      (dir.open_root ≡ err not_exist)
      ⊎ ((dir.open_root ≡ ok tt) × (dir.read_file name ≡ err not_exist))

  -- The operator has placed this file, and it is not too large.
  abbrev pub IsPlaced : String → String → Type 0
  IsPlaced name raw =
      (dir.open_root ≡ ok tt) × (dir.read_file name ≡ ok raw) × (len raw ≤ asset_override_limit)

  -- The file that the operator has placed or, where there is none, the embedded one.
  abbrev pub IsIntended : String → String → String → Type 0
  IsIntended name path raw = IsPlaced name raw ⊎ (IsAbsent name × (dir.embedded path ≡ ok raw))

  unless_missing-ok :
      (e : Error) (o : Option String) → unless_missing e ≡ ok o → (e ≡ not_exist) × (o ≡ none)
  unfolding unless_missing
  unless_missing-ok e o h = ground arith

  within_limit-ok :
      (r : Result String) (o : Option String)
      → within_limit r ≡ ok o
      → ((r ≡ err not_exist) × (o ≡ none))
        ⊎ ((raw : String) × (r ≡ ok raw) × (o ≡ some raw) × (len raw ≤ asset_override_limit))
  unfolding within_limit
  within_limit-ok (err e) o h = let (a, b) = unless_missing-ok e o h in inl (ap err a, b)
  within_limit-ok (ok raw) o h = elim (Bool-cases (leb (len raw) asset_override_limit)) [
    | inl e ↦ inr (raw, refl, ground arith, ground arith)
    | inr e ↦ ground arith
  ]

  override-ok :
      (name : String) (o : Option String)
      → read_asset_override dir name ≡ ok o
      → (IsAbsent name × (o ≡ none)) ⊎ ((raw : String) × IsPlaced name raw × (o ≡ some raw))
  unfolding read_asset_override read_opened
  override-ok name o h = elim (Result-cases dir.open_root) [
    | inl (e, r) ↦
        (let (a, b) = unless_missing-ok e o (sym (ap (read_opened dir name) r) ∙ h) in
          inl (inl (r ∙ ap err a), b))
    | inr (u, r) ↦
        elim (within_limit-ok (dir.read_file name) o (sym (ap (read_opened dir name) r) ∙ h)) [
          | inl (a, b) ↦ inl (inr (r, a), b)
          | inr (raw, a, b, c) ↦ inr (raw, (r, a, c), b)
        ]
  ]

  -- An asset is served exactly if it is the file that the operator has placed in the directory, of at most 2 MiB,
  -- or the embedded one where the operator has placed none: a file that is there and cannot be read, or is too
  -- large, is never passed over.
  pub load_asset_lem :
      (name path raw : String)
      → (load_asset dir name path ≡ ok raw → IsIntended name path raw)
        × (IsIntended name path raw → load_asset dir name path ≡ ok raw)
  unfolding load_asset or_embedded read_asset_override read_opened unless_missing within_limit
  load_asset_lem name path raw = (
    λ h.
        (let (o, r, h') = >>=-eq-ok (read_asset_override dir name) _ h in
          elim (override-ok name o r) [
            | inl (a, b) ↦ inr (a, ground (arith, b, h'))
            | inr (found, a, b) ↦ inl (ground (arith, a, b, h'))
          ]),
    λ i. elim i [
      | inl (a, b, c) ↦ rw (a, b) (ground arith)
      | inr (absent, e) ↦ elim absent [ inl a ↦ rw a e | inr (a, b) ↦ rw (a, b) e ]
    ],
  )

  -- A login page that was set up has the configured titles and the assets that the operator intends.
  pub new_login_template-IsIntended :
      (title subtitle : String) (lt : LoginTemplate)
      → new_login_template dir title subtitle ≡ ok lt
      → (lt.title ≡ title)
        × (lt.subtitle ≡ subtitle)
        × IsIntended "login.css" "web/login.css" lt.css
        × IsIntended "logo.svg" "web/logo.svg" lt.logo
  unfolding new_login_template
  new_login_template-IsIntended title subtitle lt h =
      let (tmpl, t, h1) = >>=-eq-ok (dir.parse_template "web/login.html") _ h in
      let (css, c, h2) = >>=-eq-ok (load_asset dir "login.css" "web/login.css") _ h1 in
      let (logo, l, h3) = >>=-eq-ok (load_asset dir "logo.svg" "web/logo.svg") _ h2 in
      rw (← ok-eq h3) (
        refl,
        refl,
        (load_asset_lem "login.css" "web/login.css" css).0 c,
        (load_asset_lem "logo.svg" "web/logo.svg" logo).0 l,
      )
