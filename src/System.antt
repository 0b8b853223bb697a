-- ===== src/System.antt =====
-- The running server as a transition system: requests of the REST API, hooks of the broker, and
-- the periodic purge, in any order. A step is one whole handler; the queries of two handlers are
-- not interleaved here. `Allowed` restricts which suspensions the administrator sets.
pub mod Safety
pub mod Suspension
pub mod Lockout
pub mod Login
pub mod Sessions
use smqtt.Prelude.{Bool, Option, Text}
use smqtt.State.{AppState, World}
use smqtt.Api.Extractors.{Headers}
use smqtt.Api.Router.{Call, dispatch}
use smqtt.Api.Keeps.{Permits}
use smqtt.Broker.AuthHook.{Parameter, HookResult, hook}
use smqtt.Main.{purge_tick}

pub data Step (state : AppState) (Allowed : Bool → Text → Type 0) : World → World → Type 0 where
  request :
      (headers : Headers) (call : Call) (w : World)
      → Permits Allowed call
      → Step state Allowed w (dispatch state headers call w).1
  broker_event :
      (param : Parameter) (acc : Option HookResult) (w : World)
      → Step state Allowed w (hook state param acc w).1
  purge : (w : World) → Step state Allowed w (purge_tick w).1

pub data Reach (state : AppState) (Allowed : Bool → Text → Type 0) (w : World)
    : World → Type 0 where
  here : Reach state Allowed w w
  next : {u v : World} → Reach state Allowed w u → Step state Allowed u v → Reach state Allowed w v

-- Every suspension may be set and lifted.
abbrev pub Any : Bool → Text → Type 0
Any b user_id = Unit
