-- ===== src/Handlers/Resources/Kinds.antt =====
-- internal/idp/handlers.go and key.go: an id token is no access token, and an access token is no id
-- token.
use minidp.Base.{
  ℕ, suc, String, ◌==◌, ◌≡◌, refl, sym, ap, ◌∙◌, Bool, true, false, not, Option, none, some, eq_iff,
  arith, inl, inr,
}
use minidp.Errors.{
  Error, Result, ok, err, Result-cases, refuse_if, >>-eq-ok, refuse_if-eq-ok, not_access_token,
  not_id_token, token_invalid,
}
use minidp.Tokens.Claims.{Claims}
use minidp.Clients.Registry.{RegisteredClient}
use minidp.Store.{Store}
use minidp.Keys.{
  SigningKey, Token, sign, sign_access, sign_typed, typ_access_token, typ_id_token, verify_key,
}
use minidp.Server.{Platform, Server, World}
use minidp.Server.Exec.{go, error}
use minidp.Handlers.{Request}
use minidp.Handlers.Accept.{bearer_token, accept_token, accept_hint}
use minidp.Handlers.Resources.{
  answer_userinfo, handle_userinfo, parse_access_token, parse_id_token_hint,
}

typed-ok :
    (signed : String → String → String → Claims → Option String) (k : SigningKey) (claims : Claims)
    (typ raw : String)
    → sign_typed signed k claims typ ≡ ok raw
    → signed k.key k.kid typ claims ≡ some raw
unfolding sign_typed
typed-ok signed k claims typ raw h = ground (arith, h)

accept_token-typ :
    (s : Server) (later : ℕ) (wanted : Bool) (st : Store) (t : Token) (claims : Claims)
    → accept_token s later wanted st (some t) ≡ ok claims
    → t.typ ≡ typ_access_token
unfolding accept_token
accept_token-typ s later wanted st t claims h =
    let bad = not (t.typ == typ_access_token) in
    let off =
      refuse_if-eq-ok bad not_access_token (>>-eq-ok (refuse_if bad not_access_token) _ h).0 in
    ground (arith, off, eq_iff t.typ typ_access_token)

accept_hint-typ :
    (s : Server) (t : Token) (found : Claims × RegisteredClient)
    → accept_hint s (some t) ≡ ok found
    → t.typ ≡ typ_id_token
unfolding accept_hint
accept_hint-typ s t found h =
    let bad = not (t.typ == typ_id_token) in
    let off = refuse_if-eq-ok bad not_id_token (>>-eq-ok (refuse_if bad not_id_token) _ h).0 in
    ground (arith, off, eq_iff t.typ typ_id_token)

kinds_differ : typ_access_token ≡ typ_id_token → ⊥
kinds_differ e = differ (ap (λ (t : String). t == "JWT") e)
  where
    differ : false ≡ true → ⊥
    differ z = cc

module _ (pf : Platform) (s : Server) where
  -- The library's parsers return the type that a token was signed with.
  abbrev pub KeepsTyp : Type 0
  KeepsTyp =
      (key kid typ raw : String) (claims : Claims) (find : String → Result SigningKey) (t : Token)
      → pf.signed_string key kid typ claims ≡ some raw
      → (pf.parse_signed find raw ≡ some t → t.typ ≡ typ)
        × ((issuer : String) (at : ℕ) → pf.parse_valid find issuer at raw ≡ some t → t.typ ≡ typ)

  id_token_refused :
      (raw : String) (claims : Claims) (later at : ℕ) (wanted : Bool) (st : Store)
      (o : Option Token)
      → KeepsTyp
      → sign pf.signed_string s.keys claims ≡ ok raw
      → pf.parse_valid (verify_key s.keys) s.issuer at raw ≡ o
      → (e : Error) × (accept_token s later wanted st o ≡ err e)
  unfolding sign
  id_token_refused raw claims later at wanted st none keeps signed p =
      (token_invalid, unfold accept_token in refl)
  id_token_refused raw claims later at wanted st (some t) keeps signed p =
      elim (Result-cases (accept_token s later wanted st (some t))) [
        | inl refused ↦ refused
        | inr (c, h) ↦
            (let k = s.keys.active in
              let typ =
                (keeps k.key k.kid typ_id_token raw claims (verify_key s.keys) t
                    (typed-ok pf.signed_string k claims typ_id_token raw signed)).1
                  s.issuer at p in
              absurd (kinds_differ (sym (accept_token-typ s later wanted st t c h) ∙ typ)))
      ]

  access_token_refused :
      (raw : String) (claims : Claims) (o : Option Token)
      → KeepsTyp
      → sign_access pf.signed_string s.keys claims ≡ ok raw
      → pf.parse_signed (verify_key s.keys) raw ≡ o
      → (e : Error) × (accept_hint s o ≡ err e)
  unfolding sign_access
  access_token_refused raw claims none keeps signed p = (token_invalid, unfold accept_hint in refl)
  access_token_refused raw claims (some t) keeps signed p =
      elim (Result-cases (accept_hint s (some t))) [
        | inl refused ↦ refused
        | inr (found, h) ↦
            (let k = s.keys.active in
              let typ =
                (keeps k.key k.kid typ_access_token raw claims (verify_key s.keys) t
                    (typed-ok pf.signed_string k claims typ_access_token raw signed)).0
                  p in
              absurd (kinds_differ (sym typ ∙ accept_hint-typ s t found h)))
      ]

  -- If the library returns the type that a token was signed with, then an id token that the server has signed is
  -- refused where an access token is expected, with a 401 at userinfo, and an access token that it has signed is
  -- refused as an id_token_hint.
  pub kinds_apart :
      (raw : String) (claims : Claims) (r : Request) (w : World)
      → KeepsTyp
      → (sign pf.signed_string s.keys claims ≡ ok raw
          → bearer_token r ≡ raw
          → (handle_userinfo pf s r w).0 ≡ go (error 401 "invalid_token"))
        × (sign_access pf.signed_string s.keys claims ≡ ok raw
            → (e : Error) × (parse_id_token_hint pf s raw ≡ err e))
  unfolding handle_userinfo parse_access_token parse_id_token_hint
  kinds_apart raw claims r w keeps = (
    λ signed bearer.
        (let (e, refused) =
            id_token_refused raw claims (pf.clock (suc w.reads)) (pf.clock w.reads) true w.store _
              keeps signed refl in
          rw (bearer, refused) (unfold answer_userinfo in refl)),
    λ signed. access_token_refused raw claims _ keeps signed refl,
  )
