-- ===== src/Csrf/RoundTrip.antt =====
-- internal/idp/csrf.go: a token of the login form verifies for what it was issued for, and for nothing
-- else.
use Prim.Native.Char.{Char, code}
use Prim.Native.String.{◌++◌}
use text.Mathlib.TextLemmas.{nil-append, cons-append}
use minidp.Base.{
  ℕ, ◌+◌, ◌/◌, String, ◌==◌, ◌≡◌, refl, Bool, true, not, ◌&&◌, some, eq_refl, arith, ltb,
}
use minidp.Strings.{cut, eqb}
use minidp.Durations.{second}
use minidp.Csrf.{
  Digests, CsrfManager, Values, fingerprint, nonce_fingerprint, payload_of, issue, is_text,
  valid_signature, not_past, claims_match, match_last, match_middle, match_parts, verify_parts,
  verify,
}

-- A text without a character.
abbrev pub lacks : ℕ → String → Bool
lacks sep String.[] = true
lacks sep (String.◌∷◌ c s) = not (eqb (code c) sep) && lacks sep s

cut-append :
    (sep : ℕ) (mark : Char) (a b : String)
    → eqb (code mark) sep ≡ true
    → lacks sep a ≡ true
    → cut sep (a ++ (String.◌∷◌ mark "" ++ b)) ≡ some (a, b)
unfolding cut
cut-append sep mark String.[] b e h =
    rw (nil-append (String.◌∷◌ mark "" ++ b), cons-append mark "" b, nil-append b, e) refl
cut-append sep mark (String.◌∷◌ c a) b e h =
    rw (cons-append c a (String.◌∷◌ mark "" ++ b)) (ground (arith, h, cut-append sep mark a b e))

lacks-append :
    (sep : ℕ) (a b : String) → lacks sep a ≡ true → lacks sep b ≡ true → lacks sep (a ++ b) ≡ true
lacks-append sep String.[] b h k = rw (nil-append b) k
lacks-append sep (String.◌∷◌ c a) b h k =
    rw (cons-append c a b) (ground (arith, h, lacks-append sep a b))

module _ (d : Digests) where
  -- Encodings read back, and numbers and hexadecimal digests contain no separator.
  pub record IsPlain : Type 0 where
    pub decodes : (x : String) → d.decode64 (d.encode64 x) ≡ some x
    pub parses : (n : ℕ) → d.parse_int (d.format_int n) ≡ some n
    pub number :
        (n : ℕ) → (lacks b'.' (d.format_int n) ≡ true) × (lacks b'|' (d.format_int n) ≡ true)
    pub digest :
        (x : String) → (lacks b'.' (d.sha256_hex x) ≡ true) × (lacks b'|' (d.sha256_hex x) ≡ true)

  payload-lacks :
      (exp : ℕ) (action : String) (params : Values) (nonce : String)
      → IsPlain
      → lacks b'.' action ≡ true
      → lacks b'.' (payload_of d exp action params nonce) ≡ true
  unfolding fingerprint nonce_fingerprint
  payload-lacks exp action params nonce plain h =
      let fp = d.sha256_hex (d.encode_values params) in
      let seed = d.sha256_hex nonce in
      let tail =
        lacks-append b'.' fp ("|" ++ seed) (plain.digest (d.encode_values params)).0
          (lacks-append b'.' "|" seed refl (plain.digest nonce).0) in
      let middle =
        lacks-append b'.' action ("|" ++ (fp ++ ("|" ++ seed))) h
          (lacks-append b'.' "|" (fp ++ ("|" ++ seed)) refl tail) in
      lacks-append b'.' (d.format_int (exp / second))
        ("|" ++ (action ++ ("|" ++ (fp ++ ("|" ++ seed))))) (plain.number (exp / second)).0
        (lacks-append b'.' "|" (action ++ ("|" ++ (fp ++ ("|" ++ seed)))) refl middle)

  -- What a token that was issued for an action, parameters and a browser is worth for others.
  abbrev pub matches : ℕ → ℕ → String → Values → String → String → Values → String → Bool
  matches exp at action params nonce action' params' nonce' =
      not (ltb (exp / second) (at / second))
      && (action == action'
          && (fingerprint d params == fingerprint d params'
              && nonce_fingerprint d nonce == nonce_fingerprint d nonce'))

  payload-matches :
      (exp at : ℕ) (action : String) (params : Values) (nonce action' : String) (params' : Values)
      (nonce' : String)
      → IsPlain
      → lacks b'|' action ≡ true
      → match_parts d at action' params' nonce' (cut b'|' (payload_of d exp action params nonce))
        ≡ matches exp at action params nonce action' params' nonce'
  unfolding match_parts match_middle match_last claims_match not_past
  payload-matches exp at action params nonce action' params' nonce' plain h =
      let fp = fingerprint d params in
      let seed = nonce_fingerprint d nonce in
      let whole =
        cut-append b'|' "|" (d.format_int (exp / second)) (action ++ ("|" ++ (fp ++ ("|" ++ seed))))
          refl (plain.number (exp / second)).1 in
      let rest = cut-append b'|' "|" action (fp ++ ("|" ++ seed)) refl h in
      let last =
        cut-append b'|' "|" fp seed refl
          (unfold fingerprint in (plain.digest (d.encode_values params)).1) in
      rw (whole, rest, last, plain.parses (exp / second)) refl

  -- Where encodings read back and digests are hexadecimal, a token that was issued for an action without separators verifies
  -- exactly if the browser sends a nonce, the expiry has not passed, to the second, and the action, the digest of the
  -- parameters and the digest of the nonce are those that it was issued for.
  pub verify-issue :
      (m : CsrfManager) (issued at : ℕ) (action : String) (params : Values) (nonce action' : String)
      (params' : Values) (nonce' : String)
      → IsPlain
      → (lacks b'.' action ≡ true) × (lacks b'|' action ≡ true)
      → verify d m at action' params' nonce' (issue d m issued action params nonce) ≡ (
          not (nonce' == "")
          && matches (issued + m.ttl) at action params nonce action' params' nonce')
  unfolding verify verify_parts issue valid_signature is_text
  verify-issue m issued at action params nonce action' params' nonce' plain h =
      let payload = payload_of d (issued + m.ttl) action params nonce in
      let split =
        cut-append b'.' "." payload (d.encode64 (d.hmac m.key payload)) refl
          (payload-lacks (issued + m.ttl) action params nonce plain h.0) in
      rw
        (
          split,
          plain.decodes (d.hmac m.key payload),
          eq_refl (d.hmac m.key payload),
          payload-matches (issued + m.ttl) at action params nonce action' params' nonce' plain h.1,
        )
        refl
