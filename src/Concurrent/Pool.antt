-- ===== src/Concurrent/Pool.antt =====
-- The running server: the shared state, and the handlers that are under way. A turn starts a
-- handler, lets one of them take its next step, or takes one out: because it is done, or because it
-- is given up when its client is gone.
use smqtt.Prelude.{◌≡◌, Bool, Option, List, [], ◌∷◌, ◌++◌, Text}
use smqtt.State.{AppState, World}
use smqtt.Task.{Task, step, atom, forget}
use smqtt.Api.Extractors.{Headers}
use smqtt.Api.Router.{Call}
use smqtt.Api.Keeps.{Permits}
use smqtt.Broker.AuthHook.{Parameter, HookResult}
use smqtt.Main.{purge_tick}
use smqtt.Concurrent.Api.{dispatch}
use smqtt.Concurrent.Hook.{hook}

pub record Server : Type 0 where
  pub world : World
  pub running : List (Task (Unit {0}))

abbrev pub spawn : Task (Unit {0}) → Server → Server
spawn task s = record s { running = s.running ++ task ∷ [] }

pub data Turn (state : AppState) (Allowed : Bool → Text → Type 0) (s : Server)
    : Server → Type 0 where
  request :
      (headers : Headers) (call : Call)
      → Permits Allowed call
      → Turn state Allowed s (spawn (forget (dispatch state headers call)) s)
  broker_event :
      (param : Parameter) (acc : Option HookResult)
      → Turn state Allowed s (spawn (forget (hook state param acc)) s)
  purge : Turn state Allowed s (spawn (atom purge_tick) s)
  advance :
      (before after : List (Task (Unit {0}))) (g : World → World) (k : World → Task (Unit {0}))
      → s.running ≡ before ++ step g k ∷ after
      → Turn state Allowed s (record { world = g s.world; running = before ++ k s.world ∷ after })
  leave :
      (before after : List (Task (Unit {0}))) (task : Task (Unit {0}))
      → s.running ≡ before ++ task ∷ after
      → Turn state Allowed s (record s { running = before ++ after })

pub data Runs (state : AppState) (Allowed : Bool → Text → Type 0) (s : Server)
    : Server → Type 0 where
  here : Runs state Allowed s s
  later : {t u : Server} → Runs state Allowed s t → Turn state Allowed t u → Runs state Allowed s u

-- A server that has just started.
abbrev pub idle : World → Server
idle w = record { world = w; running = [] }
