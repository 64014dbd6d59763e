-- ===== src/Discovery/Advertised.antt =====
-- internal/idp/discovery.go: what the discovery document advertises is what the endpoints accept.
