-- ===== src/Clients/Index.antt =====
-- The index of internal/idp/clients.go shows the clients of the file, and nothing else.
use minidp.Base.{
  String, ◌==◌, ◌≡◌, ap, ◌∙◌, refl, ◌||◌, List, [], ◌∷◌, ◌++◌, Option, none, some, eq_iff, arith,
  if◌then◌else◌, map,
}
use mathlib.Core.Option
use mathlib.Core.List.{append_assoc, append-nil}
use minidp.Errors.{ok, refuse_if, >>-eq-ok}
use minidp.Clients.{Client, confidential, audience_of}
use minidp.Clients.Validate.{Url, is_empty}
use minidp.Clients.Origins.{any_client, indexed_rest, grants_origin, origins_lem}
use minidp.Clients.Registry.{
  ClientRegistry, RegisteredClient, register, index_clients, new_client_registry, index, lookup,
  empty_registry,
}

-- The first client of the file with an id.
abbrev pub find_client : String → List Client → Option Client
find_client id [] = none
find_client id (c ∷ cs) = if c.client_id == id then some c else find_client id cs

abbrev pub or_else {ℓ} : {A : Type ℓ} → Option A → Option A → Option A
or_else none b = b
or_else (some a) b = some a

abbrev pub IsConsistent : String → ClientRegistry → Type 0
IsConsistent id r =
    (r.redirects id ≡ Option.map (λ rc. rc.client.redirect_uris) (r.by_id id))
    × (r.logout_redirects id ≡ Option.map (λ rc. rc.client.post_logout_redirect_uris) (r.by_id id))

module _ (parse_url : String → Option Url) where
  by_id_lem :
      (id : String) (cs : List Client) (r r' : ClientRegistry)
      → index_clients parse_url cs r ≡ ok r'
      → r'.by_id id ≡ or_else (r.by_id id) (Option.map register (find_client id cs))
  unfolding index_clients
  by_id_lem id [] r r' h = ground arith
  by_id_lem id (c ∷ cs) r r' h =
      ground (arith, eq_iff c.client_id id, by_id_lem id cs (index parse_url c r) r')

  -- The redirect policies that the registry keeps by id are those of the clients by id.
  index-IsConsistent :
      (id : String) (c : Client) (r : ClientRegistry)
      → IsConsistent id r
      → IsConsistent id (index parse_url c r)
  unfolding index register
  index-IsConsistent id c r h =
      (ground (arith, eq_iff c.client_id id, h.0), ground (arith, eq_iff c.client_id id, h.1))

  consistent_lem :
      (id : String) (cs : List Client) (r r' : ClientRegistry)
      → index_clients parse_url cs r ≡ ok r'
      → IsConsistent id r
      → IsConsistent id r'
  unfolding index_clients
  consistent_lem id [] r r' h k = (ground arith, ground arith)
  consistent_lem id (c ∷ cs) r r' h k =
      consistent_lem id cs (index parse_url c r) r' (indexed_rest parse_url c cs r r' h)
        (index-IsConsistent id c r k)

  unions_lem :
      (cs : List Client) (r r' : ClientRegistry)
      → index_clients parse_url cs r ≡ ok r'
      → (r'.ids ≡ r.ids ++ map (λ c. c.client_id) cs)
        × (r'.has_confidential ≡ (r.has_confidential || any_client confidential cs))
  unfolding index_clients
  unions_lem [] r r' h = (ground (arith, append-nil r.ids), ground arith)
  unions_lem (c ∷ cs) r r' h =
      let ih = unions_lem cs (index parse_url c r) r' (indexed_rest parse_url c cs r r' h) in
      (
        ih.0 ∙ unfold index in append_assoc r.ids (c.client_id ∷ []) (map (λ d. d.client_id) cs),
        ih.1 ∙ unfold index in ground arith,
      )

  audiences_lem :
      (a : String) (cs : List Client) (r r' : ClientRegistry)
      → index_clients parse_url cs r ≡ ok r'
      → r'.audiences a ≡ (r.audiences a || any_client (λ c. audience_of c == a) cs)
  unfolding index_clients
  audiences_lem a [] r r' h = ground arith
  audiences_lem a (c ∷ cs) r r' h = ground (arith, audiences_lem a cs (index parse_url c r) r')

map-register {ℓ} :
    {A : Type ℓ} (f : Client → A) (o : Option Client)
    → Option.map (λ rc. f rc.client) (Option.map register o) ≡ Option.map f o
unfolding register
map-register f none = refl
map-register f (some c) = refl

pub record Indexes (parse_url : String → Option Url) (cs : List Client) (r : ClientRegistry)
    : Type 0 where
  pub clients : (id : String) → lookup r id ≡ Option.map register (find_client id cs)
  pub redirects :
      (id : String) → r.redirects id ≡ Option.map (λ c. c.redirect_uris) (find_client id cs)
  pub logout_redirects :
      (id : String)
      → r.logout_redirects id ≡ Option.map (λ c. c.post_logout_redirect_uris) (find_client id cs)
  pub ids : r.ids ≡ map (λ c. c.client_id) cs
  pub confidential : r.has_confidential ≡ any_client confidential cs
  pub audiences : (a : String) → r.audiences a ≡ any_client (λ c. audience_of c == a) cs
  pub origins : (o : String) → r.origins o ≡ any_client (grants_origin parse_url o) cs

module _ (parse_url : String → Option Url) (cs : List Client) (r : ClientRegistry) where
  -- A registry that is built from the clients of a file finds each of them by its id, with its own
  -- redirect policies and accounts, knows no other id, lists the ids in file order, and knows the
  -- audiences of the clients, whether one of them is confidential, and exactly the origins that a client
  -- lists or has registered a redirect URI of.
  pub new_client_registry-Indexes : new_client_registry parse_url cs ≡ ok r → Indexes parse_url cs r
  unfolding new_client_registry lookup
  new_client_registry-Indexes h =
      let built = (>>-eq-ok (refuse_if (is_empty cs) _) _ h).1 in
      let found = λ (id : String). by_id_lem parse_url id cs empty_registry r built in
      let agree =
        λ (id : String). consistent_lem parse_url id cs empty_registry r built (refl, refl) in
      let shown = λ (f : Client → List String) (id : String).
        ap (Option.map (λ (rc : RegisteredClient). f rc.client)) (found id)
        ∙ map-register f (find_client id cs) in
      record {
        clients = found;
        redirects = λ id. (agree id).0 ∙ shown (λ c. c.redirect_uris) id;
        logout_redirects = λ id. (agree id).1 ∙ shown (λ c. c.post_logout_redirect_uris) id;
        ids = (unions_lem parse_url cs empty_registry r built).0;
        confidential = (unions_lem parse_url cs empty_registry r built).1;
        audiences = λ a. audiences_lem parse_url a cs empty_registry r built;
        origins = λ o. origins_lem parse_url o cs empty_registry r built;
      }
