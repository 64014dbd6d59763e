-- ===== src/Routes/Reached.antt =====
-- internal/idp/server.go: the readiness probe of a server that was started.
use minidp.Base.{◌<◌, String, ◌≡◌, ◌≢◌, some, List, [], ◌∷◌, length, eq_iff, arith}
use minidp.Errors.{ok}
use minidp.JsonFile.{Disk}
use minidp.Keys.{SigningKey, find_kid, verify_key}
use minidp.Config.Checked.{AtoiIsPositive}
use minidp.Server.{Platform, World}
use minidp.Handlers.{Request}
use minidp.Discovery.{discovery_document}
use minidp.Start.{Machine, Provider, serving, main}
use minidp.Start.Ready.{main-IsReady}
use minidp.Routes.{
  route, find_route, or_landing, Encoder, ready, rendered, probe, handle_readyz, run_endpoint,
  run_routed, serve, Http,
}

published_some :
    (ks : List SigningKey) (kid : String) (k : SigningKey) → find_kid kid ks ≡ ok k → 0 < length ks
unfolding find_kid
published_some [] kid k h = cc
published_some (x ∷ ks) kid k h = ground arith

probe-ready :
    (ks : List SigningKey) (doc : String)
    → 0 < length ks
    → doc ≢ ""
    → probe ks (some doc) ≡ ready (length ks)
unfolding probe rendered
probe-ready [] doc h d = ground arith
probe-ready (k ∷ ks) doc h d = ground (arith, eq_iff doc "")

module _ (m : Machine) (enc : Encoder) (pf : Platform) where
  -- A server that the command has started answers a GET of the readiness probe that it is ready, with at least one
  -- published key, if its discovery document can be encoded.
  pub started_ready :
      (files dir d : Disk) (addr : String) (p : Provider) (origin doc : String) (r : Request)
      (w : World)
      → AtoiIsPositive m.env
      → main m [] files dir ≡ (serving addr p, d)
      → enc.marshal_document (discovery_document p.server) ≡ some doc
      → doc ≢ ""
      → let h : Http = record { method = "GET"; path = "/readyz"; origin = origin; request = r } in
        let keys = p.server.keys.published in
        ((serve m.lib enc pf p.server p.template h w).0.answer ≡ ready (length keys))
        × (0 < length keys)
  unfolding serve run_routed run_endpoint handle_readyz verify_key route find_route or_landing
  started_ready files dir d addr p origin doc r w pos h e ne =
      let (cfg, started, at) = main-IsReady m files dir d addr p pos h in
      let keys = p.server.keys in
      let some_key = published_some keys.published keys.active.kid keys.active started.signs in
      (rw e (probe-ready keys.published doc some_key ne), some_key)
