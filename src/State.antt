-- ===== src/State.antt =====
-- state.rs: the shared state. `AppState` holds what never changes while the server runs, `World`
-- what does: the database, the two maps, and the calls that were made to the broker.
-- `Oracle` answers what the program asks of its surroundings: the clock, fresh UUIDs, random
-- bytes, the registration hook, and whether the connection to the database fails. Each question
-- takes the next index, so two readings of the clock may differ.
use smqtt.Prelude.{ℕ, ◌+◌, Bool, Option, List, [], Text, Bytes, text, ◌++◌}
use smqtt.Map.{DashMap}
use smqtt.Claims.{Claims}
use smqtt.Config.{Config}
use smqtt.Foreign.{Foreign}
use smqtt.Rows.{Database}

-- How the registration hook at a URL answers.
pub data HookReply : Type 0 where
  not_sent not_json : Text → HookReply
  -- the field `allowed` of the body, where that is a Boolean
  answered : Option Bool → HookReply

pub record Oracle : Type 0 where
  pub asked : ℕ
  pub clock : ℕ → ℕ
  pub uuid : ℕ → Text
  -- index, number of bytes
  pub random : ℕ → ℕ → Bytes
  -- index, url, pubkey
  pub reply : ℕ → Text → Text → HookReply
  pub fails : ℕ → Bool

-- A call of rmqtt: a message to all subscribers of a topic, or the end of a device's session.
pub data BrokerCall : Type 0 where
  -- node, client id of the sender, topic, payload
  forwards : ℕ → Text → Text → Bytes → BrokerCall
  -- node, client id
  kick : ℕ → Text → BrokerCall

-- `JwtKeys` holds one secret twice, for encoding and for decoding.
pub record AppState : Type 0 where
  pub ext : Foreign
  pub config : Config
  pub jwt_keys : Bytes
  pub node_id : ℕ

pub record World : Type 0 where
  pub db : Database
  -- user id to nonce and expiry
  pub challenges : DashMap (Bytes × ℕ)
  -- client id to claims
  pub sessions : DashMap Claims
  pub broker : List BrokerCall
  pub oracle : Oracle

-- `AppState::new`
unfoldable pub new_app : Foreign → Config → Bytes → AppState
new_app ext config keys = record { ext = ext; config = config; jwt_keys = keys; node_id = 1 }

unfoldable pub new_world : Database → Oracle → World
new_world db oracle = record {
  db = db;
  challenges = [];
  sessions = [];
  broker = [];
  oracle = oracle;
}

-- `AppState::notify_topic` and `crypto::notification_topic`
unfoldable pub notification_topic : Foreign → Bytes → Text → Text
notification_topic ext notify_secret user_id =
    ext.b64_encode (ext.hmac_sha256 notify_secret (text "notify:" ++ user_id))

unfoldable pub notify_topic : AppState → Text → Text
unfolding notification_topic
notify_topic state user_id =
    notification_topic state.ext state.config.notifications.notify_secret user_id

abbrev pub next : World → World
next w = record w { oracle = record w.oracle { asked = w.oracle.asked + 1 } }
