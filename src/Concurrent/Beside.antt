-- ===== src/Concurrent/Beside.antt =====
-- One handler beside all the others: between two of its steps the server takes any number of turns.
use smqtt.Prelude.{Bool, Text}
use smqtt.Error.{Result}
use smqtt.State.{AppState, World}
use smqtt.Task.{Task, done, step, run}
use smqtt.Task.Safe.{Safe, Safe-now, Safe-next}
use smqtt.Task.Refuses.{Yields, finished, stepped}
use smqtt.Concurrent.Pool.{Server, Runs, here}
use smqtt.Concurrent.Steady.{Serves, Steady, Runs-Steady}

pub data Served (state : AppState) (Allowed : Bool → Text → Type 0) {A : Type 0}
    : Server → Task A → Result A → Server → Type 0 where
  ended : (s : Server) (r : Result A) → Served state Allowed s (done r) r s
  took :
      (g : World → World) (k : World → Task A) {s t u : Server} (r : Result A)
      → Runs state Allowed s t
      → Served state Allowed (record t { world = g t.world }) (k t.world) r u
      → Served state Allowed s (step g k) r u

module _ (state : AppState) {Allowed : Bool → Text → Type 0} {P : World → Type 0}
    (sv : Serves state Allowed P) {A : Type 0} where
  -- What holds of the server's world holds at every step of the handler.
  pub Served-Yields :
      {s u : Server} (t : Task A) (r : Result A)
      → Steady P s
      → Safe P t
      → Served state Allowed s t r u
      → Yields P t r
  Served-Yields _ r h safe (ended _ _) = finished r
  Served-Yields _ r h safe (took g k {t} _ runs rest) =
      let before = Runs-Steady state sv h runs in
      stepped g k t.world r before.0 (
        Served-Yields (k t.world) r (Safe-now g k t.world safe before.0, before.1)
          (Safe-next g k t.world safe) rest)

-- A handler that nothing interrupts is served.
pub run-Served :
    (state : AppState) (Allowed : Bool → Text → Type 0) {A : Type 0} (t : Task A) (s : Server)
    → Served state Allowed s t (run t s.world).0 (record s { world = (run t s.world).1 })
unfolding run
run-Served state Allowed (done r) s = ended s r
run-Served state Allowed (step g k) s =
    took g k _ here (run-Served state Allowed (k s.world) (record s { world = g s.world }))
