-- ===== src/Broker.antt =====
-- broker/mod.rs: calls of the embedded broker. rmqtt itself is third-party: what it is asked to do
-- is appended to `World.broker`, and its answers are only logged.
pub mod AuthHook
pub mod Kick
pub mod Keeps
use smqtt.Prelude.{List, [], ◌∷◌, ◌++◌, Text, Bytes, text}
use smqtt.Error.{Result, ok, err}
use smqtt.Rows.{Device}
use smqtt.State.{AppState, World, BrokerCall, forwards, kick}
use smqtt.Exec.{Action, pure, attempt, modify, ◌>>=◌, ◌>>◌}
use smqtt.Db.Users.{invalidate_tokens}
use smqtt.Db.Devices.{get_device_by_user}

unfoldable pub call_broker : BrokerCall → Action (Unit {0})
call_broker c = modify λ w. record w { broker = w.broker ++ c ∷ [] }

unfoldable pub publish_system : AppState → Text → Bytes → Action (Unit {0})
unfolding call_broker
publish_system state topic payload =
    call_broker (forwards state.node_id (text "smqtt-system") topic payload)

-- `for device in devices { … kick … }`
unfoldable pub kick_devices : AppState → List Device → Action (Unit {0})
unfolding call_broker
kick_devices state [] = pure tt
kick_devices state (device ∷ devices) =
    call_broker (kick state.node_id device.device_id) >> kick_devices state devices

unfoldable pub kick_found : AppState → Result (List Device) → Action (Unit {0})
unfolding kick_devices
kick_found state (ok devices) = kick_devices state devices
kick_found state (err e) = pure tt

unfoldable pub kick_user : AppState → Text → Action (Unit {0})
unfolding kick_found
kick_user state user_id = do
  attempt (invalidate_tokens user_id)
  found ← attempt (get_device_by_user user_id)
  kick_found state found
