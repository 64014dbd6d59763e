-- ===== src/Examples/Stores.antt =====
-- Runs of the store of internal/idp/store.go.
use minidp.Durations.{shift}
use minidp.Base.{◌≡◌, ◌≢◌, refl, List, [], ◌∷◌, some, arith}
use minidp.Store.{take_refresh, fresh, reused, add_refresh}
use minidp.Store.History.{Op, run, takes_refresh, revokes_token}
use minidp.Store.SingleUse.{take_refresh_once}
use minidp.Store.Revocation.{IsRevoked, take_refresh_reused, revocation_misses_rotation}
use minidp.Examples.{alice_refresh, busy_store, differ}

abbrev two_ops : List Op
two_ops = takes_refresh 7 8 "r1" ∷ revokes_token 9 "c1" ∷ []

honoured : (take_refresh 5 6 "r1" busy_store).0 ≡ fresh alice_refresh
unfolding take_refresh
honoured = refl

take_refresh_once_example :
    (take_refresh 10 11 "r1" (run two_ops (take_refresh 5 6 "r1" busy_store).1)).0
    ≢ fresh alice_refresh
take_refresh_once_example =
    take_refresh_once 5 6 10 11 "r1" two_ops busy_store alice_refresh alice_refresh honoured
      (tt, (tt, tt))

take_refresh_reused_example :
    ((take_refresh 5 6 "r0" busy_store).0 ≡ reused)
    × IsRevoked 6 "F" busy_store (take_refresh 5 6 "r0" busy_store).1
take_refresh_reused_example =
    take_refresh_reused 5 6 "r0" busy_store alice_refresh refl (omega arith) (omega arith)
      (differ "F" "" refl)

revocation_misses_rotation_example :
    ((take_refresh 3 3 "r1" (take_refresh 1 2 "r1" busy_store).1).0 ≡ reused)
    × ((take_refresh 6 6 "r2"
          (add_refresh 4 5
            (some "r2")
            alice_refresh
            10
            (take_refresh 3 3 "r1" (take_refresh 1 2 "r1" busy_store).1).1).1).0
        ≡ fresh (record alice_refresh { expires_at = 15 }))
unfolding shift
revocation_misses_rotation_example =
    revocation_misses_rotation 1 2 3 3 4 5 6 "r1" "r2" busy_store alice_refresh 10
      (unfold take_refresh in refl) (omega arith) (omega arith) (omega arith) (omega arith)
      (omega arith) (omega arith) (omega arith) (omega arith) (differ "r1" "r2" refl) refl
