-- ===== src/Clients/Origins.antt =====
-- internal/idp/clients.go: the origins that the index of the clients collects.
use Prim.Native.String.{◌++◌ as ◌+++◌}
use minidp.Base.{
  String, ◌==◌, ◌≡◌, refl, ◌∙◌, Bool, false, not, ◌||◌, ◌&&◌, Option, none, some, List, [], ◌∷◌,
  Bool-cases, inl, inr, arith,
}
use minidp.Strings.{trim_last}
use minidp.Errors.{ok}
use minidp.Clients.{Client}
use minidp.Clients.Validate.{Url}
use minidp.Clients.Registry.{
  ClientRegistry, Set, explicit_origins_of, add_host, add_hosts, index, index_clients, register,
}

abbrev pub any_client : (Client → Bool) → List Client → Bool
any_client p [] = false
any_client p (c ∷ cs) = p c || any_client p cs

-- One of the listed origins, without the slash at its end.
abbrev pub lists_origin : String → List String → Bool
lists_origin o [] = false
lists_origin o (x ∷ xs) = trim_last b'/' x == o || lists_origin o xs

abbrev pub is_origin_of : String → Option Url → Bool
is_origin_of o none = false
is_origin_of o (some u) = not (u.host == "") && (u.scheme +++ ("://" +++ u.host)) == o

explicit_origins_of_lem :
    (o : String) (xs : List String) (s : Set)
    → explicit_origins_of xs s o ≡ (lists_origin o xs || s o)
unfolding explicit_origins_of
explicit_origins_of_lem o [] s = refl
explicit_origins_of_lem o (x ∷ xs) s =
    ground (arith, explicit_origins_of_lem o xs (λ j. trim_last b'/' x == j || s j))

module _ (parse_url : String → Option Url) where
  -- The origin of one of the URLs.
  abbrev pub hosts_origin : String → List String → Bool
  hosts_origin o [] = false
  hosts_origin o (raw ∷ raws) = is_origin_of o (parse_url raw) || hosts_origin o raws

  -- A client lists the origin, or has registered a redirect URI of it.
  abbrev pub grants_origin : String → Client → Bool
  grants_origin o c = lists_origin o c.allowed_origins || hosts_origin o c.redirect_uris

  -- After the tests on the first client, the rest is indexed behind it.
  pub indexed_rest :
      (c : Client) (cs : List Client) (r r' : ClientRegistry)
      → index_clients parse_url (c ∷ cs) r ≡ ok r'
      → index_clients parse_url cs (index parse_url c r) ≡ ok r'
  unfolding index_clients
  indexed_rest c cs r r' h = ground arith

  add_host_lem :
      (o : String) (u : Option Url) (s : Set) → add_host parse_url u s o ≡ (is_origin_of o u || s o)
  unfolding add_host
  add_host_lem o none s = refl
  add_host_lem o (some u) s = elim (Bool-cases (u.host == "")) [
    | inl e ↦ (rw e refl)
    | inr e ↦ (rw e refl)
  ]

  add_hosts_lem :
      (o : String) (raws : List String) (s : Set)
      → add_hosts parse_url raws s o ≡ (hosts_origin o raws || s o)
  unfolding add_hosts
  add_hosts_lem o [] s = refl
  add_hosts_lem o (raw ∷ raws) s = ground (
    arith,
    add_hosts_lem o raws (add_host parse_url (parse_url raw) s),
    add_host_lem o (parse_url raw) s,
  )

  pub origins_lem :
      (o : String) (cs : List Client) (r r' : ClientRegistry)
      → index_clients parse_url cs r ≡ ok r'
      → r'.origins o ≡ (r.origins o || any_client (grants_origin o) cs)
  unfolding index_clients
  origins_lem o [] r r' h = ground arith
  origins_lem o (c ∷ cs) r r' h =
      origins_lem o cs (index parse_url c r) r' (indexed_rest c cs r r' h)
      ∙ unfold index register in
        ground (
          arith,
          explicit_origins_of_lem o c.allowed_origins (λ j. false),
          add_hosts_lem o c.redirect_uris r.origins,
        )
