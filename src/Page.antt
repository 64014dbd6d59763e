-- ===== src/Page.antt =====
-- internal/idp/web.go: the login page and its assets. A byte slice is a text with one character for
-- each byte. The packages embed and html/template and the directory `assets` are parameters.
pub mod Assets
use Prim.Native.String.{◌++◌, len}
use minidp.Base.{
  ℕ, String, ◌==◌, Bool, true, false, Option, none, some, List, [], if◌then◌else◌, leb,
}
use minidp.Errors.{Error, Result, ok, err, ◌>>=◌, not_exist, asset_override_too_large}
use minidp.Server.Exec.{LoginForm, Reply}

pub record LoginData : Type 0 where
  pub title : String
  pub subtitle : String
  pub action : String
  pub error : String
  pub username : String
  pub csrf_token : String
  pub message : String
  pub hidden : List (String × String)

-- `Execute` of a parsed template: what it has written, and whether it reports no error.
abbrev pub Template : Type 0
Template = LoginData → String × Bool

pub record AssetDir : Type 0 where
  -- os.OpenRoot on the directory `assets`
  pub open_root : Result (Unit {0})
  -- ReadFile in that directory
  pub read_file : String → Result String
  -- the files that are embedded in the binary, read and parsed as a template
  pub embedded : String → Result String
  pub parse_template : String → Result Template

pub record LoginTemplate : Type 0 where
  pub tmpl : Template
  pub title : String
  pub subtitle : String
  pub css : String
  pub logo : String

-- 2 MiB
abbrev pub asset_override_limit : ℕ
asset_override_limit = 2097152

-- A file or a directory that does not exist overrides nothing; any other error is one.
unfoldable pub unless_missing : Error → Result (Option String)
unless_missing not_exist = ok none
unless_missing failure = err failure

unfoldable pub within_limit : Result String → Result (Option String)
unfolding unless_missing
within_limit (err failure) = unless_missing failure
within_limit (ok raw) =
    if leb (len raw) asset_override_limit then ok (some raw) else err asset_override_too_large

unfoldable pub or_embedded : Result String → Option String → Result String
or_embedded shipped none = shipped
or_embedded shipped (some raw) = ok raw

module _ (dir : AssetDir) where
  unfoldable pub read_opened : String → Result (Unit {0}) → Result (Option String)
  unfolding unless_missing within_limit
  read_opened name (err failure) = unless_missing failure
  read_opened name (ok u) = within_limit (dir.read_file name)

  unfoldable pub read_asset_override : String → Result (Option String)
  unfolding read_opened
  read_asset_override name = read_opened name dir.open_root

  unfoldable pub load_asset : String → String → Result String
  unfolding read_asset_override or_embedded
  load_asset name path = do found ← read_asset_override name; or_embedded (dir.embedded path) found

  unfoldable pub new_login_template : String → String → Result LoginTemplate
  unfolding load_asset
  new_login_template title subtitle = do
    tmpl ← dir.parse_template "web/login.html"
    css ← load_asset "login.css" "web/login.css"
    logo ← load_asset "logo.svg" "web/logo.svg"
    ok (record { tmpl = tmpl; title = title; subtitle = subtitle; css = css; logo = logo })

abbrev or_default_text : String → String → String
or_default_text default given = if given == "" then default else given

-- The method `render`.
unfoldable pub render : LoginTemplate → LoginData → String × Bool
render lt page = lt.tmpl (record page {
  title = or_default_text lt.title page.title;
  subtitle = or_default_text lt.subtitle page.subtitle;
})

-- The body that renderLoginPage writes.
unfoldable pub page_body : String × Bool → String
page_body (out, true) = out
page_body (out, false) = out ++ "<!-- render failed -->\nInternal error."

abbrev pub blank : LoginData
blank = record {
  title = "";
  subtitle = "";
  action = "";
  error = "";
  username = "";
  csrf_token = "";
  message = "";
  hidden = [];
}

unfoldable pub message_page : LoginTemplate → String → String
unfolding render page_body
message_page lt message = page_body (render lt (record blank { message = message }))

unfoldable pub form_page : LoginTemplate → LoginForm → String
unfolding render page_body
form_page lt f = page_body (
    render lt (record blank {
      action = "/authorize";
      error = f.error;
      username = f.username;
      csrf_token = f.csrf_token;
      hidden = f.hidden;
    }))

-- The status and the body of a reply that is a page.
unfoldable pub page_of : LoginTemplate → Reply → Option (ℕ × String)
unfolding message_page form_page
page_of lt (Reply.message status text) = some (status, message_page lt text)
page_of lt (Reply.form status f) = some (status, form_page lt f)
page_of lt other = none
