-- ===== src/Server/ClientIp/Spoofing.antt =====
-- What a client can do to its address in internal/idp/server.go by sending headers of its own.
use Prim.Native.String.{◌++◌ as ◌+++◌}
use text.Mathlib.TextLemmas.{nil-append, cons-append, append-ne-nil_of_right_ne-nil}
use minidp.Base.{
  String, ◌≡◌, ◌≢◌, refl, Bool, true, false, List, [], ◌∷◌, ◌++◌, some, arith, eq_iff,
}
use minidp.Strings.{trim_space}
use minidp.Server.ClientIp.{
  Peer, extend_head, split_commas, ip_trusted, rightmost_untrusted, forwarded_client_ip, client_ip,
}

split_commas-some : (t : String) → split_commas t ≢ []
unfolding split_commas
split_commas-some String.[] = λ e. cc
split_commas-some (String.◌∷◌ c s) = λ e. ground (arith, split_commas-some s)

extend-append :
    (f : String → String) (front back : List String)
    → front ≢ []
    → extend_head f (front ++ back) ≡ extend_head f front ++ back
extend-append f [] back filled = absurd (filled refl)
extend-append f (p ∷ ps) back filled = refl

split_commas-append :
    (front back : String)
    → split_commas (front +++ ("," +++ back)) ≡ split_commas front ++ split_commas back
unfolding split_commas
split_commas-append String.[] back =
    rw (nil-append ("," +++ back), cons-append "," "" back, nil-append back) refl
split_commas-append (String.◌∷◌ c s) back = rw (cons-append c s ("," +++ back)) (
    ground (
      arith,
      split_commas-append s back,
      extend-append (λ p. String.◌∷◌ c p) (split_commas s) (split_commas back)
          (split_commas-some s),
    ))

comma_first : (real : String) → ("," +++ real) ≢ ""
comma_first real = rw (cons-append "," "" real) (λ e. cc)

module _ (parses : String → Bool) (contained : String → String → Bool) (proxies : List String) where
  rightmost-append :
      (front : List String) (real : String)
      → parses (trim_space real) ≡ true
      → ip_trusted parses contained proxies (trim_space real) ≡ false
      → rightmost_untrusted parses contained proxies (front ++ (real ∷ [])) ≡ some (trim_space real)
  unfolding rightmost_untrusted
  rightmost-append [] real h k = ground arith
  rightmost-append (p ∷ ps) real h k = ground (arith, rightmost-append ps real h k)

  -- Behind a trusted proxy, the address is the one that the proxy has appended to X-Forwarded-For, as long
  -- as it is an address of no trusted proxy, whatever stands in that header before it and in X-Real-IP.
  pub client_ip-appended :
      (p : Peer) (front real : String)
      → parses p.host ≡ true
      → ip_trusted parses contained proxies p.host ≡ true
      → p.forwarded_for ≡ front +++ ("," +++ real)
      → split_commas real ≡ real ∷ []
      → parses (trim_space real) ≡ true
      → ip_trusted parses contained proxies (trim_space real) ≡ false
      → client_ip parses contained proxies p ≡ trim_space real
  unfolding client_ip forwarded_client_ip
  client_ip-appended p front real h trusted sent whole ok outside = rw sent (
      ground (
        arith,
        split_commas-append front real,
        rightmost-append (split_commas front) real ok outside,
        whole,
        eq_iff (front +++ ("," +++ real)) "",
        append-ne-nil_of_right_ne-nil front (comma_first real),
      ))
