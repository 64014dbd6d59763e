-- ===== src/Handlers/Authorize/Checks.antt =====
-- Which authorization requests internal/idp/handlers.go accepts.
use minidp.Base.{
  not, if◌then◌else◌, refl, Bool-cases, String, ◌==◌, ◌≡◌, ◌⊎◌, inl, inr, Bool, true, false, ◌||◌,
  List, [], ◌∷◌, All, contains, eq_iff, arith,
}
use minidp.Clients.{confidential}
use minidp.Clients.Registry.{RegisteredClient, allows_scope}
use minidp.Tokens.{parse_scopes}
use minidp.Handlers.Pkce.{valid_pkce_challenge}
use minidp.Handlers.Authorize.{
  or_check, supported_scopes, validate_authorize_request, validate_pkce_params, validate_scopes_for,
  validate_prompt, validate_modes, scan_scopes,
}

-- A scope that the client may ask for.
abbrev pub IsOffered : RegisteredClient → String → Type 0
IsOffered rc sc = (contains supported_scopes sc || allows_scope rc.client sc) ≡ true

pub record IsAcceptable (rc : RegisteredClient) (q : String → String) : Type 0 where
  pub code_flow : q "response_type" ≡ "code"
  pub pkce :
      ((q "code_challenge" ≡ "") × (confidential rc.client ≡ true))
      ⊎ ((q "code_challenge_method" ≡ "S256") × (valid_pkce_challenge (q "code_challenge") ≡ true))
  pub prompt : (q "prompt" ≡ "") ⊎ (q "prompt" ≡ "login")
  pub scopes : All (IsOffered rc) (parse_scopes (q "scope"))

passes :
    (b : Bool) (code next : String)
    → (code == "") ≡ false
    → (if b then code else next) ≡ ""
    → (b ≡ false) × (next ≡ "")
passes true code next e h = ground (arith, eq_iff code "")
passes false code next e h = (refl, h)

or_check-passes : (code next : String) → or_check code next ≡ "" → (code ≡ "") × (next ≡ "")
or_check-passes code next h = ground (arith, eq_iff code "")

passes_else :
    (b : Bool) (code next : String)
    → (code == "") ≡ false
    → (if b then next else code) ≡ ""
    → (b ≡ true) × (next ≡ "")
passes_else false code next e h = ground (arith, eq_iff code "")
passes_else true code next e h = (refl, h)

scan_scopes_lem :
    (rc : RegisteredClient) (scs : List String) → scan_scopes rc scs ≡ "" → All (IsOffered rc) scs
unfolding scan_scopes
scan_scopes_lem rc [] h = tt
scan_scopes_lem rc (sc ∷ scs) h =
    let here = passes_else _ "invalid_scope" (scan_scopes rc scs) refl h in
    (here.0, scan_scopes_lem rc scs here.1)

module _ (rc : RegisteredClient) (q : String → String) where
  pkce_lem :
      validate_pkce_params rc q ≡ ""
      → ((q "code_challenge" ≡ "") × (confidential rc.client ≡ true))
        ⊎ ((q "code_challenge_method" ≡ "S256")
            × (valid_pkce_challenge (q "code_challenge") ≡ true))
  unfolding validate_pkce_params
  pkce_lem h = elim (Bool-cases (q "code_challenge" == "")) [
    | inl e ↦
        let public = passes (not (confidential rc.client)) "invalid_request" "" refl (rw e at h) in
        inl ((eq_iff (q "code_challenge") "").0 e, ground (arith, public))
    | inr e ↦
        let method =
          passes (not (q "code_challenge_method" == "S256")) "invalid_request" _ refl (rw e at h) in
        let shape =
          passes (not (valid_pkce_challenge (q "code_challenge"))) "invalid_request" "" refl
            method.1 in
        inr (ground (arith, method.0, shape.0, eq_iff (q "code_challenge_method") "S256"))
  ]

  prompt_lem : validate_prompt q ≡ "" → (q "prompt" ≡ "") ⊎ (q "prompt" ≡ "login")
  unfolding validate_prompt
  prompt_lem h = elim (Bool-cases (q "prompt" == "" || q "prompt" == "login")) [
    | inl e ↦ ground (arith, e, eq_iff (q "prompt") "", eq_iff (q "prompt") "login")
    | inr e ↦
        let refused =
          passes (q "prompt" == "none") "login_required" "invalid_request" refl (rw e at h) in
        absurd (ground (arith, eq_iff "invalid_request" "", refused.1))
  ]

  -- A request that passes the checks asks for a code; it carries a well-formed S256 challenge, unless
  -- the client is confidential and leaves it out; it does not ask to go without a login; and it
  -- asks only for the scopes of the provider and those registered for the client.
  pub validate_authorize_request-IsAcceptable :
      validate_authorize_request rc q ≡ "" → IsAcceptable rc q
  unfolding validate_authorize_request validate_scopes_for
  validate_authorize_request-IsAcceptable h =
      let flow = passes (not (q "response_type" == "code")) "unsupported_response_type" _ refl h in
      let pkce = or_check-passes (validate_pkce_params rc q) _ flow.1 in
      let prompt = or_check-passes (validate_prompt q) _ pkce.1 in
      let modes = or_check-passes (validate_modes q) _ prompt.1 in
      record {
        code_flow = ground (arith, flow.0, eq_iff (q "response_type") "code");
        pkce = pkce_lem pkce.0;
        prompt = prompt_lem prompt.0;
        scopes = scan_scopes_lem rc (parse_scopes (q "scope")) modes.1;
      }
