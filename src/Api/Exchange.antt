-- ===== src/Api/Exchange.antt =====
-- api/exchange.rs: the key exchange between two users.
pub mod Initiate
pub mod Respond
pub mod Fetch
pub mod Delivery
pub mod Phase
pub mod Written
pub mod Lifecycle
use smqtt.Prelude.{
  Bool, true, false, not, ◌&&◌, Option, none, some, ◌∷◌, [], Text, Bytes, text, ◌==◌, nat_eq,
  text_eq, length,
}
use smqtt.Error.{forbidden, bad_request, conflict}
use smqtt.Foreign.{Foreign}
use smqtt.Rows.{PendingExchange}
use smqtt.State.{AppState, notify_topic}
use smqtt.Exec.{Action, pure, attempt, lift, raise_if, ◌>>=◌, ◌>>◌}
use smqtt.Crypto.{b64_decode}
use smqtt.Db.Users.{get_user}
use smqtt.Db.Exchanges.{create_exchange, get_exchange, set_responder_pubkey, delete_exchange}
use smqtt.Broker.{publish_system}

pub record InitiateRequest : Type 0 where
  pub peer_id : Text
  pub ephemeral_pubkey : Text

-- The payload of a notification, a JSON object.
unfoldable pub notice : Foreign → Text → Text → Bytes
notice ext kind exchange_id =
    ext.json_object ((text "type", kind) ∷ (text "exchange_id", exchange_id) ∷ [])

-- The base64 of an X25519 key, checked for its length.
unfoldable pub decode_ephemeral : Foreign → Text → Action Bytes
decode_ephemeral ext s = do
  pubkey ← lift (b64_decode ext s)
  raise_if (not (length pubkey == 32))
      (bad_request (text "ephemeral_pubkey must be 32 bytes (X25519)"))
  pure pubkey

-- The response is the id of the exchange.
unfoldable pub initiate : AppState → Text → InitiateRequest → Action Text
initiate state user_id req = do
  get_user req.peer_id
  pubkey ← decode_ephemeral state.ext req.ephemeral_pubkey
  exchange ← create_exchange user_id req.peer_id pubkey
  publish_system state (notify_topic state req.peer_id)
      (notice state.ext (text "pending_exchange") exchange.exchange_id)
  pure exchange.exchange_id

pub record ExchangeResponse : Type 0 where
  pub exchange_id : Text
  pub initiator_id : Text
  pub responder_id : Text
  pub initiator_pubkey : Text
  pub responder_pubkey : Option Text

abbrev pub is_some {ℓ} : {A : Type ℓ} → Option A → Bool
is_some none = false
is_some (some a) = true

abbrev pub encode_key : Foreign → Option Bytes → Option Text
encode_key ext none = none
encode_key ext (some b) = some (ext.b64_encode b)

-- Once the initiator has fetched both keys the record is deleted, and a failure to do so ignored.
unfoldable pub discard : Bool → Text → Action (Unit {0})
discard true exchange_id = attempt (delete_exchange exchange_id) >> pure tt
discard false exchange_id = pure tt

unfoldable pub get : AppState → Text → Text → Action ExchangeResponse
get state user_id exchange_id = do
  ex ← get_exchange exchange_id
  raise_if (not (ex.initiator_id == user_id) && not (ex.responder_id == user_id)) forbidden
  discard (is_some ex.responder_pubkey && ex.initiator_id == user_id) exchange_id
  pure (record {
    exchange_id = exchange_id;
    initiator_id = ex.initiator_id;
    responder_id = ex.responder_id;
    initiator_pubkey = state.ext.b64_encode ex.initiator_pubkey;
    responder_pubkey = encode_key state.ext ex.responder_pubkey;
  })

-- The guards of `respond`.
unfoldable pub may_respond : Text → PendingExchange → Action (Unit {0})
may_respond user_id ex = do
  raise_if (not (ex.responder_id == user_id)) forbidden
  raise_if (is_some ex.responder_pubkey) (conflict (text "exchange already has a response"))

unfoldable pub respond : AppState → Text → Text → Text → Action ExchangeResponse
unfolding may_respond
respond state user_id exchange_id ephemeral_pubkey = do
  ex ← get_exchange exchange_id
  may_respond user_id ex
  pubkey ← decode_ephemeral state.ext ephemeral_pubkey
  set_responder_pubkey exchange_id pubkey
  publish_system state (notify_topic state ex.initiator_id)
      (notice state.ext (text "exchange_complete") exchange_id)
  pure (record {
    exchange_id = exchange_id;
    initiator_id = ex.initiator_id;
    responder_id = ex.responder_id;
    initiator_pubkey = state.ext.b64_encode ex.initiator_pubkey;
    responder_pubkey = some (state.ext.b64_encode pubkey);
  })
