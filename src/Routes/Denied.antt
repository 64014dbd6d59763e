-- ===== src/Routes/Denied.antt =====
-- internal/idp/server.go: what a revocation of an access token does in a whole run of requests.
use minidp.Base.{
  ℕ, suc, ◌*◌, ◌≤◌, ◌<◌, String, ◌==◌, ◌≡◌, ◌≢◌, false, Option, none, some, List, [], ◌∷◌, Bool,
  true, Bool-cases, inl, inr, eq_refl, eq_iff, arith,
}
use minidp.Durations.{second}
use minidp.Errors.{Result, ok}
use minidp.Keys.{verify_key}
use minidp.Keys.Material.{KeyLibrary}
use minidp.Page.{LoginTemplate}
use minidp.Store.{Store, deny_jti, is_denied_jti}
use minidp.Store.History.{
  apply, adds_code, takes_code, adds_refresh, takes_refresh, registers_jti, denies_jti,
  revokes_family, revokes_token,
}
use minidp.Store.Denial.{IsDeniedAt, Outlives, apply-IsDeniedAt}
use minidp.Tokens.Claims.{Claims, claim_string, get_expiration}
use minidp.Server.{Platform, Server, World}
use minidp.Server.Exec.Holds.{Behind}
use minidp.Handlers.{Request}
use minidp.Handlers.Accept.{accept_token}
use minidp.Server.Exec.{go}
use minidp.Handlers.Resources.{until_of, parse_access_token}
use minidp.Handlers.Resources.Revoked.{Revokes, revoked_store, refuses_denied}
use minidp.Handlers.Holding.{IsAccepted, IsClosed, IsClosedUnderCodes}
use minidp.Handlers.Holding.Authorize.{authorize_get-Holds, authorize_post-Holds}
use minidp.Handlers.Holding.Tokens.{token-Holds}
use minidp.Handlers.Holding.Resources.{
  userinfo-Holds, introspect-Holds, revoke-Holds, end_session-Holds,
}
use minidp.Routes.{
  Endpoint, find_route, or_landing, route, Http, Encoder, run_endpoint, run_routed, serve,
  discovery, key_set, authorize_get, authorize_post, landing, token, userinfo, introspect, revoke,
  end_session, static_css, static_logo, healthz, readyz,
}
use minidp.Routes.Codes.{serve_all}

-- The id of an access token that expires at `exp` names no other token: no draw behind the first `d` gives it, and the
-- access tokens that are accepted under it carry that expiry.
pub record IsUnique (pf : Platform) (s : Server) (d : ℕ) (jti : String) (exp : ℕ) : Type 0 where
  pub fresh : (n : ℕ) → d ≤ n → pf.draw n ≢ some jti
  pub expiry :
      (claims : Claims)
      → IsAccepted pf s claims
      → claim_string claims "jti" ≡ jti
      → get_expiration claims ≡ some exp

module _ (pf : Platform) (s : Server) (d : ℕ) (jti : String) (exp T : ℕ)
    (clocked : (n : ℕ) → pf.clock n ≤ T) (unique : IsUnique pf s d jti exp)
    (live : T < exp * second) where
  denies-IsDeniedAt :
      (r : Request) (n : ℕ) (claims : Claims) (st : Store)
      → IsAccepted pf s claims
      → IsDeniedAt T jti st
      → IsDeniedAt T jti (
          deny_jti
            (claim_string claims "jti")
            (until_of pf s r (pf.clock n) (get_expiration claims))
            st)
  denies-IsDeniedAt r n claims st a h = elim (Bool-cases (claim_string claims "jti" == jti)) [
    | inl e ↦
        (let named = (eq_iff (claim_string claims "jti") jti).0 e in
          unfold apply in
          apply-IsDeniedAt T jti
            (denies_jti (claim_string claims "jti")
              (until_of pf s r (pf.clock n) (get_expiration claims)))
            st (inr (rw (unique.expiry claims a named) (unfold until_of in live))) h)
    | inr e ↦
        unfold apply in
        apply-IsDeniedAt T jti
          (denies_jti (claim_string claims "jti")
            (until_of pf s r (pf.clock n) (get_expiration claims)))
          st (inl (λ q. ground (arith, e, eq_iff (claim_string claims "jti") jti, q))) h
  ]

  denial-IsClosed : IsClosed pf s d (IsDeniedAt T jti)
  unfolding apply
  denial-IsClosed = record {
    takes_code = λ id n st. apply-IsDeniedAt T jti (takes_code _ _ id) st (clocked n);
    adds_refresh = λ k n ttl f st le.
        apply-IsDeniedAt T jti (adds_refresh _ _ (pf.draw k) f ttl) st (clocked n);
    takes_refresh = λ id n st. apply-IsDeniedAt T jti (takes_refresh _ _ id) st (clocked n);
    registers_jti = λ k at j sub family st le e.
        apply-IsDeniedAt T jti (registers_jti j sub family at) st
          (inl (λ q. unique.fresh k le (ground (arith, e, q))));
    denies_jti = denies-IsDeniedAt;
    revokes_family = λ family n st. apply-IsDeniedAt T jti (revokes_family _ family) st tt;
    revokes_token = λ id n st. apply-IsDeniedAt T jti (revokes_token _ id) st tt;
  }

  denial-IsClosedUnderCodes : IsClosedUnderCodes pf d (IsDeniedAt T jti)
  unfolding apply
  denial-IsClosedUnderCodes k n ttl c st le =
      apply-IsDeniedAt T jti (adds_code _ _ (pf.draw k) c ttl) st (clocked n)

module _ (lib : KeyLibrary) (enc : Encoder) (pf : Platform) (s : Server) (lt : LoginTemplate) where
  module _ (d : ℕ) (P : Store → Type 0) (c : IsClosed pf s d P)
      (adds : IsClosedUnderCodes pf d P) where
    endpoint-Holds :
        (e : Endpoint) (r : Request) (w : World)
        → Behind d P w
        → Behind d P (run_endpoint lib enc pf s lt e r w).1
    unfolding run_endpoint
    endpoint-Holds authorize_get r w h = (authorize_get-Holds pf s d P c r).at w h
    endpoint-Holds authorize_post r w h = (authorize_post-Holds pf s d P c adds r).at w h
    endpoint-Holds token r w h = token-Holds pf s d P c r w h
    endpoint-Holds userinfo r w h = (userinfo-Holds pf s d P c r).at w h
    endpoint-Holds introspect r w h = (introspect-Holds pf s d P c r).at w h
    endpoint-Holds revoke r w h = (revoke-Holds pf s d P c r).at w h
    endpoint-Holds end_session r w h = (end_session-Holds pf s d P c r).at w h
    endpoint-Holds discovery r w h = h
    endpoint-Holds key_set r w h = h
    endpoint-Holds landing r w h = h
    endpoint-Holds static_css r w h = h
    endpoint-Holds static_logo r w h = h
    endpoint-Holds healthz r w h = h
    endpoint-Holds readyz r w h = h

    routed-Holds :
        (o : Option Endpoint) (r : Request) (w : World)
        → Behind d P w
        → Behind d P (run_routed lib enc pf s lt o r w).1
    unfolding run_routed
    routed-Holds none r w h = h
    routed-Holds (some e) r w h = endpoint-Holds e r w h

    serve-Holds : (h : Http) (w : World) → Behind d P w → Behind d P (serve lib enc pf s lt h w).1
    unfolding serve
    serve-Holds h w k = elim (Bool-cases (h.method == "OPTIONS")) [
      | inl e ↦ rw e k
      | inr e ↦ rw e (routed-Holds (route h.method h.path) h.request w k)
    ]

    -- What the calls of the store keep holds after any run of requests.
    serve_all-Holds :
        (hs : List Http) (w : World) → Behind d P w → Behind d P (serve_all lib enc pf s lt hs w)
    unfolding serve_all
    serve_all-Holds [] w k = k
    serve_all-Holds (h ∷ hs) w k =
        serve_all-Holds hs (serve lib enc pf s lt h w).1 (serve-Holds h w k)

-- A request at the revocation endpoint.
abbrev pub revocation : String → Request → Http
revocation origin r = record { method = "POST"; path = "/revoke"; origin = origin; request = r }

unit-IsClosed : (pf : Platform) (s : Server) (d : ℕ) → IsClosed pf s d (λ st. Unit {0})
unit-IsClosed pf s d = record {
  takes_code = λ id n st h. tt;
  adds_refresh = λ k n ttl f st le h. tt;
  takes_refresh = λ id n st h. tt;
  registers_jti = λ k at j sub family st le e h. tt;
  denies_jti = λ r n claims st a h. tt;
  revokes_family = λ family n st h. tt;
  revokes_token = λ id n st h. tt;
}

-- What is denied at an instant is denied before.
denied-earlier :
    (t T : ℕ) (jti : String) (st : Store)
    → t ≤ T
    → is_denied_jti T jti st ≡ true
    → is_denied_jti t jti st ≡ true
unfolding is_denied_jti
denied-earlier t T jti st le h = ground (arith, h)

module _ (lib : KeyLibrary) (enc : Encoder) (pf : Platform) (s : Server) (lt : LoginTemplate)
    (r : Request) (origin raw : String) (w : World) (claims : Claims) (exp T : ℕ)
    (allowed : Revokes pf s r raw)
    (accepted : accept_token s
        (pf.clock (suc w.reads))
        false
        w.store
        (pf.parse_valid (verify_key s.keys) s.issuer (pf.clock w.reads) raw)
      ≡ ok claims)
    (has_id : claim_string claims "jti" ≢ "") (expires : get_expiration claims ≡ some exp) where
  revoked-Behind :
      T < exp * second
      → Outlives T (w.store.access_jti (claim_string claims "jti"))
      → Behind w.draws
          (IsDeniedAt T (claim_string claims "jti"))
          (serve lib enc pf s lt (revocation origin r) w).1
  unfolding serve run_routed run_endpoint route find_route or_landing
  revoked-Behind live kept = record {
    drawn =
        ((revoke-Holds pf s w.draws (λ st. Unit {0}) (unit-IsClosed pf s w.draws) r).at w
          (record { drawn = omega arith; holds = tt })).drawn;
    holds = rw (revoked_store pf s r claims exp has_id expires raw w allowed accepted) (
        unfold deny_jti is_denied_jti in
        record { denied = ground (arith, eq_refl (claim_string claims "jti")); unexpired = kept });
  }

  -- An access token that a client revokes by an HTTP request is refused from then on, whatever HTTP requests come in
  -- between, also further revocations, for as long as the clock has not passed an instant before its expiry: if its id
  -- names no other token, and the record of its id in the store, where there is one, does not end by then.
  pub revoked_stays_refused :
      (hs : List Http) (again : String) (require_audience : Bool)
      → T < exp * second
      → Outlives T (w.store.access_jti (claim_string claims "jti"))
      → ((n : ℕ) → pf.clock n ≤ T)
      → IsUnique pf s w.draws (claim_string claims "jti") exp
      → let v : World = serve_all lib enc pf s lt (revocation origin r ∷ hs) w in
        (parse_access_token pf s again require_audience v).0 ≢ go (ok claims)
  unfolding parse_access_token serve_all
  revoked_stays_refused hs again require_audience live kept clocked unique =
      let jti = claim_string claims "jti" in
      let start : World = (serve lib enc pf s lt (revocation origin r) w).1 in
      let v : World = serve_all lib enc pf s lt hs start in
      let end =
        serve_all-Holds lib enc pf s lt w.draws (IsDeniedAt T jti)
          (denial-IsClosed pf s w.draws jti exp T clocked unique live)
          (denial-IsClosedUnderCodes pf s w.draws jti exp T clocked unique live) hs start
          (revoked-Behind live kept) in
      λ e.
        refuses_denied s (pf.clock (suc v.reads)) require_audience v.store
          (pf.parse_valid (verify_key s.keys) s.issuer (pf.clock v.reads) again) claims
          (denied-earlier (pf.clock (suc v.reads)) T jti v.store (clocked (suc v.reads))
            end.holds.denied)
          has_id (went_on e)
    where
      went_on : {x : Result Claims} → go x ≡ go (ok claims) → x ≡ ok claims
      went_on e = cc
