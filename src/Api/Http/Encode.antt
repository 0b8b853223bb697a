-- ===== src/Api/Http/Encode.antt =====
-- The request that a client makes for a call.
use smqtt.Prelude.{
  ◌^◌, ◌<◌, ◌≡◌, true, Option, none, some, List, [], ◌∷◌, Text, text, text_eq, ℤ, pos, negsuc,
}
use smqtt.Api.Extractors.{Headers}
use smqtt.Api.Router.{Call}
use smqtt.Api.Http.{
  Method, get, post, delete, Value, null, string, strings, integer, Request, object,
}
use smqtt.Api.Http.Routes.{Endpoint, non_empty}
use smqtt.Api.Http.Serve.{path}

abbrev optional : Option Text → Value
optional none = null
optional (some s) = string s

abbrev send : Method → List Text → Headers → List (Text × Value) → Request
send method path headers fields = record {
  method = method;
  path = path;
  query = [];
  headers = headers;
  body = object fields;
}

unfoldable pub request_of : Headers → Call → Request
request_of h (Call.register req) = send post (text "register" ∷ []) h (
    (text "pubkey", string req.pubkey)
    ∷ (text "registration_token", optional req.registration_token)
    ∷ [])
request_of h (Call.challenge user_id) =
    record (send get (text "auth" ∷ text "challenge" ∷ []) h []) {
      query = (text "user_id", user_id) ∷ [];
    }
request_of h (Call.verify req) = send post (text "auth" ∷ text "verify" ∷ []) h (
    (text "user_id", string req.user_id)
    ∷ (text "device_id", string req.device_id)
    ∷ (text "signature", string req.signature)
    ∷ [])
request_of h (Call.initiate req) = send post (text "exchange" ∷ []) h (
    (text "peer_id", string req.peer_id)
    ∷ (text "ephemeral_pubkey", string req.ephemeral_pubkey)
    ∷ [])
request_of h (Call.get_exchange id) = send get (text "exchange" ∷ id ∷ []) h []
request_of h (Call.respond id key) =
    send post (text "exchange" ∷ id ∷ text "respond" ∷ []) h
      ((text "ephemeral_pubkey", string key) ∷ [])
request_of h (Call.create req) = send post (text "relationships" ∷ []) h (
    (text "peer_id", string req.peer_id)
    ∷ (text "publish_topics", strings req.publish_topics)
    ∷ (text "subscribe_topics", strings req.subscribe_topics)
    ∷ [])
request_of h Call.list = send get (text "relationships" ∷ []) h []
request_of h (Call.revoke id) = send delete (text "relationships" ∷ id ∷ []) h []
request_of h (Call.create_registration_token req) =
    send post (text "admin" ∷ text "registration-tokens" ∷ []) h (
      (text "expires_in", integer (pos req.expires_in))
      ∷ (text "max_uses", integer req.max_uses)
      ∷ [])
request_of h (Call.suspend_user id reason) =
    send post (text "admin" ∷ text "users" ∷ id ∷ text "suspend" ∷ []) h
      ((text "reason", optional reason) ∷ [])
request_of h (Call.unsuspend_user id) =
    send post (text "admin" ∷ text "users" ∷ id ∷ text "unsuspend" ∷ []) h []

-- An `i64`
abbrev pub IsI64 : ℤ → Type 0
IsI64 (pos n) = n < 2 ^ 63
IsI64 (negsuc n) = n < 2 ^ 63

-- Ids that fit into a path, and numbers that fit into their types.
abbrev pub IsSendable : Call → Type 0
IsSendable (Call.get_exchange id) = non_empty id ≡ true
IsSendable (Call.respond id key) = non_empty id ≡ true
IsSendable (Call.revoke id) = non_empty id ≡ true
IsSendable (Call.create_registration_token req) = (req.expires_in < 2 ^ 64) × IsI64 req.max_uses
IsSendable (Call.suspend_user id reason) = non_empty id ≡ true
IsSendable (Call.unsuspend_user id) = non_empty id ≡ true
IsSendable call = Unit

abbrev pub endpoint_of : Call → Endpoint
endpoint_of (Call.register req) = Endpoint.register
endpoint_of (Call.challenge user_id) = Endpoint.challenge
endpoint_of (Call.verify req) = Endpoint.verify
endpoint_of (Call.initiate req) = Endpoint.initiate
endpoint_of (Call.get_exchange id) = Endpoint.get_exchange
endpoint_of (Call.respond id key) = Endpoint.respond
endpoint_of (Call.create req) = Endpoint.create
endpoint_of Call.list = Endpoint.list
endpoint_of (Call.revoke id) = Endpoint.revoke
endpoint_of (Call.create_registration_token req) = Endpoint.create_registration_token
endpoint_of (Call.suspend_user id reason) = Endpoint.suspend_user
endpoint_of (Call.unsuspend_user id) = Endpoint.unsuspend_user

abbrev pub params_of : Call → List Text
params_of (Call.get_exchange id) = id ∷ []
params_of (Call.respond id key) = id ∷ []
params_of (Call.revoke id) = id ∷ []
params_of (Call.suspend_user id reason) = id ∷ []
params_of (Call.unsuspend_user id) = id ∷ []
params_of call = []
