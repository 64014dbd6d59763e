-- ===== src/Handlers/Holding/Codes.antt =====
-- What the handlers of internal/idp/handlers.go that issue no code do to the codes in the store: apart from what is
-- true of a missing code, all that is true of a code stays true.
use minidp.Base.{String, Option, none, arith}
use minidp.Store.{Store, AuthCode}
use minidp.Store.Codes.{
  CodeIs, take_code-CodeIs, take_refresh-CodeIs, add_refresh-CodeIs, register_jti-CodeIs,
  deny_jti-CodeIs, revoke_family-CodeIs, revoke_token-CodeIs,
}
use minidp.Clients.{Client}
use minidp.Server.{Platform, Server, World}
use minidp.Server.Exec.{Exec}
use minidp.Server.Exec.Keeps.{Keeps}
use minidp.Server.Exec.Holds.{Holds}
use minidp.Handlers.{Request}
use minidp.Handlers.TokenEndpoint.{handle_token, continue_code}
use minidp.Handlers.Resources.{handle_revoke, handle_end_session}
use minidp.Handlers.Holding.{IsClosed}
use minidp.Handlers.Holding.Tokens.{token-Holds, code-Holds}
use minidp.Handlers.Holding.Resources.{revoke-Holds, end_session-Holds}

-- Where no draw matters, a program holds what it keeps.
Holds-Keeps {ℓ} : {A : Type ℓ} {P : Store → Type 0} (m : Exec A) → Holds 0 P m → Keeps P m
Holds-Keeps m k = record { at = λ w h. (k.at w (record { drawn = omega arith; holds = h })).holds }

module _ (id : String) (P : Option AuthCode → Type 0) (gone : P none) (pf : Platform)
    (s : Server) where
  code-IsClosed : IsClosed pf s 0 (CodeIs id P)
  code-IsClosed = record {
    takes_code = λ j n st. take_code-CodeIs id P gone j _ _ st;
    adds_refresh = λ k n ttl f st le. add_refresh-CodeIs id P gone (pf.draw k) f ttl _ _ st;
    takes_refresh = λ j n st. take_refresh-CodeIs id P gone j _ _ st;
    registers_jti =
        λ k at jti sub family st le e. register_jti-CodeIs id P gone jti sub family at st;
    denies_jti = λ r n claims st a. deny_jti-CodeIs id P gone _ _ st;
    revokes_family = λ family n st. revoke_family-CodeIs id P gone family _ st;
    revokes_token = λ token n st. revoke_token-CodeIs id P gone token _ st;
  }

  module _ (r : Request) where
    pub continue_code-Keeps :
        (c : Client) (o : Option AuthCode) → Keeps (CodeIs id P) (continue_code pf s r c o)
    continue_code-Keeps c o =
        Holds-Keeps (continue_code pf s r c o) (code-Holds pf s 0 (CodeIs id P) code-IsClosed r c o)

    pub handle_token-CodeIs :
        (w : World) → CodeIs id P w.store → CodeIs id P (handle_token pf s r w).1.store
    handle_token-CodeIs w h =
        (token-Holds pf s 0 (CodeIs id P) code-IsClosed r w
          (record { drawn = omega arith; holds = h })).holds

    pub handle_revoke-CodeIs : Keeps (CodeIs id P) (handle_revoke pf s r)
    handle_revoke-CodeIs =
        Holds-Keeps (handle_revoke pf s r) (revoke-Holds pf s 0 (CodeIs id P) code-IsClosed r)

    pub handle_end_session-CodeIs : Keeps (CodeIs id P) (handle_end_session pf s r)
    handle_end_session-CodeIs =
        Holds-Keeps (handle_end_session pf s r)
          (end_session-Holds pf s 0 (CodeIs id P) code-IsClosed r)
