-- ===== src/Broker/Keeps.antt =====
-- The calls of the broker (broker/mod.rs), and the properties that the queries keep.
use smqtt.Prelude.{nat_eq, Bool, List, [], ◌∷◌, Text, Bytes}
use smqtt.Error.{Result, ok, err}
use smqtt.State.{AppState, BrokerCall}
use smqtt.Rows.{Database, Device}
use smqtt.Exec.Keeps.{Keeps, Keeps-modify, Keeps-bind, Keeps-bind_post, keeps_rules}
use smqtt.Db.Stable.{Stable}
use smqtt.Db.Keeps.{
  create_user-Keeps, get_user-Keeps, invalidate_tokens-Keeps, set_suspended-Keeps,
  create_device-Keeps, get_device_by_user-Keeps, create_relationship-Keeps,
  list_relationships-Keeps, get_relationship-Keeps, delete_relationship-Keeps, user_topics-Keeps,
  create_exchange-Keeps, get_exchange-Keeps, set_responder_pubkey-Keeps, delete_exchange-Keeps,
  create_registration_token-Keeps, consume_registration_token-Keeps,
}
use smqtt.Crypto
use smqtt.Broker.{call_broker, publish_system, kick_devices, kick_found, kick_user}

pub ruleset queries = (
  keeps_rules, create_user-Keeps, get_user-Keeps, invalidate_tokens-Keeps, set_suspended-Keeps,
  create_device-Keeps, get_device_by_user-Keeps, create_relationship-Keeps,
  list_relationships-Keeps, get_relationship-Keeps, delete_relationship-Keeps, user_topics-Keeps,
  create_exchange-Keeps, get_exchange-Keeps, set_responder_pubkey-Keeps, delete_exchange-Keeps,
  create_registration_token-Keeps, consume_registration_token-Keeps,
)

module _ (state : AppState) {Allowed : Bool → Text → Type 0} {P : Database → Type 0}
    (st : Stable state.ext Allowed P) where
  pub call_broker-Keeps : (c : BrokerCall) → Keeps P (call_broker c)
  unfolding call_broker
  call_broker-Keeps c = Keeps-modify _ (λ w h. h)

  pub publish_system-Keeps :
      (topic : Text) (payload : Bytes) → Keeps P (publish_system state topic payload)
  unfolding publish_system
  publish_system-Keeps topic payload = Keeps-modify _ (λ w h. h)

  kick_devices-Keeps : (devices : List Device) → Keeps P (kick_devices state devices)
  unfolding kick_devices
  kick_devices-Keeps [] = search keeps_rules
  kick_devices-Keeps (device ∷ devices) =
      Keeps-bind _ _ (Keeps-modify _ (λ w h. h)) (λ u. kick_devices-Keeps devices)

  kick_found-Keeps : (found : Result (List Device)) → Keeps P (kick_found state found)
  unfolding kick_found
  kick_found-Keeps (ok devices) = kick_devices-Keeps devices
  kick_found-Keeps (err e) = search keeps_rules

  pub kick_user-Keeps : (user_id : Text) → Keeps P (kick_user state user_id)
  unfolding kick_user
  kick_user-Keeps user_id = search (queries, kick_found-Keeps) depth 9

  pub crypto_verify-Keeps : (token : Text) → Keeps P (Crypto.verify state token)
  unfolding Crypto.verify
  crypto_verify-Keeps token = search keeps_rules
