-- ===== src/Concurrent/Interleaved.antt =====
-- The database while handlers are interleaved.
use smqtt.Prelude.{Text}
use smqtt.State.{AppState, World}
use smqtt.Db.Invariant.{IsValid}
use smqtt.System.{Any}
use smqtt.System.Safety.{IsValid-Stable}
use smqtt.System.Suspension.{IsSuspended, NotLifted, IsSuspended-Stable}
use smqtt.Concurrent.Pool.{Server, Runs, idle}
use smqtt.Concurrent.Steady.{Runs-Stable}

-- From a well-formed database, every interleaving of the steps of requests, broker events and purges
-- leads to a well-formed one, also where handlers are given up halfway: keys are unique, every
-- device, relationship and exchange belongs to a user, device keys are valid Ed25519 keys, exchange
-- keys have 32 bytes, and no registration token was used more often than it may be.
pub Runs-IsValid :
    (state : AppState) {w : World} {u : Server}
    → IsValid state.ext w.db
    → Runs state Any (idle w) u
    → IsValid state.ext u.world.db
Runs-IsValid state h r = Runs-Stable state (IsValid-Stable state.ext) h r

-- As long as no request of the administrator lifts it, a suspension holds after every interleaving of
-- the steps of requests, broker events and purges.
pub Runs-IsSuspended :
    (state : AppState) (user_id : Text) {w : World} {u : Server}
    → IsSuspended user_id w.db
    → Runs state (NotLifted user_id) (idle w) u
    → IsSuspended user_id u.world.db
Runs-IsSuspended state user_id h r = Runs-Stable state (IsSuspended-Stable state.ext user_id) h r
