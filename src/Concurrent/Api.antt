-- ===== src/Concurrent/Api.antt =====
-- The handlers of src/api as tasks: one atomic step for each access to the shared state, that is
-- for each query, each operation on a map and each call of the broker. What the code computes in
-- between belongs to a step, or is a step that writes nothing.
use smqtt.Prelude.{
  not, ◌&&◌, Option, none, true, false, List, [], ◌∷◌, ◌++◌, Text, Bytes, text, add_u64, ltb, ◌==◌,
  text_eq,
}
use smqtt.Error.{Result, ok, err, unauthorized, forbidden}
use smqtt.Map.{insert}
use smqtt.Rows.{Device}
use smqtt.State.{AppState, kick, notify_topic}
use smqtt.Exec.{attempt, modify, raise_if, unix_now, fill_bytes}
use smqtt.Task.{Task, atom, ret, ◌>>=◌, ◌>>◌}
use smqtt.Crypto
use smqtt.Db.Users.{create_user, get_user, invalidate_tokens, set_suspended}
use smqtt.Db.Devices.{create_device, get_device_by_user}
use smqtt.Db.Relationships.{get_relationship, delete_relationship, user_topics}
use smqtt.Db.Exchanges.{create_exchange, get_exchange, set_responder_pubkey}
use smqtt.Db.Tokens as DbTokens
use smqtt.Broker.{call_broker, publish_system}
use smqtt.Api.Extractors.{Headers, auth_user}
use smqtt.Api.Register
use smqtt.Api.Auth
use smqtt.Api.Exchange
use smqtt.Api.Relationships
use smqtt.Api.Admin
use smqtt.Api.Router.{
  Call, Response, registered, text_body, exchange, relationship, relationships, done as finished,
}

unfoldable pub kick_devices : AppState → List Device → Task (Unit {0})
kick_devices state [] = ret tt
kick_devices state (device ∷ devices) = do
  atom (call_broker (kick state.node_id device.device_id))
  kick_devices state devices

unfoldable pub kick_found : AppState → Result (List Device) → Task (Unit {0})
kick_found state (ok devices) = kick_devices state devices
kick_found state (err e) = ret tt

unfoldable pub kick_user : AppState → Text → Task (Unit {0})
kick_user state user_id = do
  atom (attempt (invalidate_tokens user_id))
  found ← atom (attempt (get_device_by_user user_id))
  kick_found state found

unfoldable pub register : AppState → Register.RegisterRequest → Task Register.RegisterResponse
register state req = do
  atom (Register.check_mode state req state.config.registration.mode)
  pubkey ← atom (Register.decode_key state req)
  user ← atom create_user
  device ← atom (create_device user.user_id pubkey)
  ret (record { user_id = user.user_id; device_id = device.device_id })

unfoldable pub challenge : AppState → Text → Task Text
challenge state user_id = do
  atom (get_user user_id)
  nonce ← atom (fill_bytes 32)
  now ← atom unix_now
  let expires_at = add_u64 now Auth.challenge_ttl_secs
  atom (modify (λ w. record w { challenges = insert user_id (nonce, expires_at) w.challenges }))
  ret (state.ext.b64_encode nonce)

unfoldable pub open_session : Text → Task Bytes
open_session user_id = do
  challenge ← atom (Auth.pop_challenge user_id)
  now ← atom unix_now
  atom (raise_if (ltb challenge.1 now) unauthorized)
  user ← atom (get_user user_id)
  atom (raise_if user.suspended forbidden)
  ret challenge.0

unfoldable pub issue_token : AppState → Auth.VerifyRequest → Task Text
issue_token state req = do
  topics ← atom (user_topics state.ext req.user_id)
  let notify = notify_topic state req.user_id
  atom (
      Crypto.issue state req.user_id req.device_id state.config.jwt.ttl_seconds topics.0
        (topics.1 ++ notify ∷ []) notify)

unfoldable pub verify : AppState → Auth.VerifyRequest → Task Text
verify state req = do
  nonce ← open_session req.user_id
  atom (Auth.check_signature state req nonce)
  issue_token state req

unfoldable pub initiate : AppState → Text → Exchange.InitiateRequest → Task Text
initiate state user_id req = do
  atom (get_user req.peer_id)
  pubkey ← atom (Exchange.decode_ephemeral state.ext req.ephemeral_pubkey)
  created ← atom (create_exchange user_id req.peer_id pubkey)
  atom (
      publish_system state (notify_topic state req.peer_id)
        (Exchange.notice state.ext (text "pending_exchange") created.exchange_id))
  ret created.exchange_id

unfoldable pub get : AppState → Text → Text → Task Exchange.ExchangeResponse
get state user_id exchange_id = do
  ex ← atom (get_exchange exchange_id)
  atom (raise_if (not (ex.initiator_id == user_id) && not (ex.responder_id == user_id)) forbidden)
  atom (
      Exchange.discard (Exchange.is_some ex.responder_pubkey && ex.initiator_id == user_id)
        exchange_id)
  ret (record {
    exchange_id = exchange_id;
    initiator_id = ex.initiator_id;
    responder_id = ex.responder_id;
    initiator_pubkey = state.ext.b64_encode ex.initiator_pubkey;
    responder_pubkey = Exchange.encode_key state.ext ex.responder_pubkey;
  })

unfoldable pub respond : AppState → Text → Text → Text → Task Exchange.ExchangeResponse
respond state user_id exchange_id ephemeral_pubkey = do
  ex ← atom (get_exchange exchange_id)
  atom (Exchange.may_respond user_id ex)
  pubkey ← atom (Exchange.decode_ephemeral state.ext ephemeral_pubkey)
  atom (set_responder_pubkey exchange_id pubkey)
  atom (
      publish_system state (notify_topic state ex.initiator_id)
        (Exchange.notice state.ext (text "exchange_complete") exchange_id))
  ret (record {
    exchange_id = exchange_id;
    initiator_id = ex.initiator_id;
    responder_id = ex.responder_id;
    initiator_pubkey = state.ext.b64_encode ex.initiator_pubkey;
    responder_pubkey = Option.some (state.ext.b64_encode pubkey);
  })

unfoldable pub revoke : AppState → Text → Text → Task (Unit {0})
revoke state user_id relationship_id = do
  rel ← atom (get_relationship user_id relationship_id)
  atom (delete_relationship user_id relationship_id)
  kick_user state user_id
  kick_user state rel.peer_id

unfoldable pub create_registration_token : AppState → Headers → Admin.CreateTokenRequest → Task Text
create_registration_token state headers req = do
  atom (Admin.require_admin_key state headers)
  raw ← atom (fill_bytes 32)
  let token = state.ext.b64_encode raw
  atom (
      DbTokens.create_registration_token (Admin.token_hash state.ext token) req.expires_in
        req.max_uses)
  ret token

unfoldable pub suspend_user : AppState → Headers → Text → Option Text → Task (Unit {0})
suspend_user state headers user_id reason = do
  atom (Admin.require_admin_key state headers)
  atom (set_suspended user_id true reason)
  kick_user state user_id

unfoldable pub unsuspend_user : AppState → Headers → Text → Task (Unit {0})
unsuspend_user state headers user_id = do
  atom (Admin.require_admin_key state headers)
  atom (set_suspended user_id false none)

-- `create` and `list` make one query each.
unfoldable pub dispatch : AppState → Headers → Call → Task Response
dispatch state headers (Call.register req) = do r ← register state req; ret (registered r)
dispatch state headers (Call.challenge user_id) = do r ← challenge state user_id; ret (text_body r)
dispatch state headers (Call.verify req) = do r ← verify state req; ret (text_body r)
dispatch state headers (Call.initiate req) = do
  user_id ← atom (auth_user state headers)
  r ← initiate state user_id req
  ret (text_body r)
dispatch state headers (Call.get_exchange exchange_id) = do
  user_id ← atom (auth_user state headers)
  r ← get state user_id exchange_id
  ret (exchange r)
dispatch state headers (Call.respond exchange_id ephemeral_pubkey) = do
  user_id ← atom (auth_user state headers)
  r ← respond state user_id exchange_id ephemeral_pubkey
  ret (exchange r)
dispatch state headers (Call.create req) = do
  user_id ← atom (auth_user state headers)
  r ← atom (Relationships.create state user_id req)
  ret (relationship r)
dispatch state headers Call.list = do
  user_id ← atom (auth_user state headers)
  r ← atom (Relationships.list state user_id)
  ret (relationships r)
dispatch state headers (Call.revoke relationship_id) = do
  user_id ← atom (auth_user state headers)
  revoke state user_id relationship_id
  ret finished
dispatch state headers (Call.create_registration_token req) = do
  r ← create_registration_token state headers req
  ret (text_body r)
dispatch state headers (Call.suspend_user user_id reason) = do
  suspend_user state headers user_id reason
  ret finished
dispatch state headers (Call.unsuspend_user user_id) = do
  unsuspend_user state headers user_id
  ret finished
