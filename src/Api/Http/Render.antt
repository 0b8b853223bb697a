-- ===== src/Api/Http/Render.antt =====
-- The responses of src/api: the status code and the JSON that axum and `#[derive(Serialize)]` make of
-- what a handler returns, and `IntoResponse` of an error (error.rs).
use smqtt.Prelude.{
  ℕ, ◌≡◌, refl, ap, Bool, true, false, Option, none, some, List, [], ◌∷◌, Text, text, ltb, map,
}
use smqtt.Error.{
  Error, Result, ok, err, status, message, not_found, unauthorized, forbidden, bad_request,
  conflict, database, internal,
}
use smqtt.Api.Register.{RegisterResponse}
use smqtt.Api.Exchange.{ExchangeResponse}
use smqtt.Api.Relationships.{RelationshipResponse}
use smqtt.Api.Router.{
  Call, Response, registered, text_body, exchange, relationship, relationships, done,
}
use smqtt.Api.Http.{null, string, strings, integer, Value, Fields}
use smqtt.Api.Http.Body.{given, field, as_string, as_option, ◌>>=◌}

pub data Content : Type 0 where
  empty : Content
  object : Fields → Content
  array : List Fields → Content

unfoldable pub register_response : RegisterResponse → Fields
register_response r =
    (text "user_id", string r.user_id) ∷ (text "device_id", string r.device_id) ∷ []

-- `Option<String>`
unfoldable pub optional : Option Text → Value
optional none = null
optional (some s) = string s

unfoldable pub exchange_response : ExchangeResponse → Fields
exchange_response r =
    (text "exchange_id", string r.exchange_id)
    ∷ (text "initiator_id", string r.initiator_id)
    ∷ (text "responder_id", string r.responder_id)
    ∷ (text "initiator_pubkey", string r.initiator_pubkey)
    ∷ (text "responder_pubkey", optional r.responder_pubkey)
    ∷ []

unfoldable pub relationship_response : RelationshipResponse → Fields
relationship_response r =
    (text "relationship_id", string r.relationship_id)
    ∷ (text "user_id", string r.user_id)
    ∷ (text "peer_id", string r.peer_id)
    ∷ (text "publish_topics", strings r.publish_topics)
    ∷ (text "subscribe_topics", strings r.subscribe_topics)
    ∷ (text "created_at", integer r.created_at)
    ∷ []

unfoldable pub challenge_response : Text → Fields
challenge_response nonce = (text "nonce", string nonce) ∷ []

unfoldable pub verify_response : Text → Fields
verify_response token = (text "token", string token) ∷ []

unfoldable pub initiate_response : Text → Fields
initiate_response exchange_id = (text "exchange_id", string exchange_id) ∷ []

unfoldable pub create_token_response : Text → Fields
create_token_response token = (text "token", string token) ∷ []

-- The one field of a handler that returns a text.
unfoldable pub text_response : Call → Text → Content
text_response (Call.challenge user_id) t = object (challenge_response t)
text_response (Call.verify req) t = object (verify_response t)
text_response (Call.initiate req) t = object (initiate_response t)
text_response (Call.create_registration_token req) t = object (create_token_response t)
text_response _ t = empty

unfoldable pub content : Call → Response → Content
content call (registered r) = object (register_response r)
content call (text_body t) = text_response call t
content call (exchange r) = object (exchange_response r)
content call (relationship r) = object (relationship_response r)
content call (relationships rs) = array (map relationship_response rs)
content call done = empty

-- `StatusCode::NO_CONTENT` where a handler names it, and 200 otherwise
unfoldable pub success : Call → ℕ
success (Call.suspend_user id reason) = 204
success (Call.unsuspend_user id) = 204
success _ = 200

unfoldable pub into_response : Error → ℕ × Content
into_response e = (status e, object ((text "error", string (message e)) ∷ []))

unfoldable pub render : Call → Result Response → ℕ × Content
unfolding into_response
render call (ok r) = (success call, content call r)
render call (err e) = into_response e

abbrev is_ok : {A : Type 0} → Result A → Bool
is_ok (ok a) = true
is_ok (err e) = false

success_below : (call : Call) → ltb (success call) 300 ≡ true
unfolding success
success_below (Call.register req) = refl
success_below (Call.challenge user_id) = refl
success_below (Call.verify req) = refl
success_below (Call.initiate req) = refl
success_below (Call.get_exchange id) = refl
success_below (Call.respond id key) = refl
success_below (Call.create req) = refl
success_below Call.list = refl
success_below (Call.revoke id) = refl
success_below (Call.create_registration_token req) = refl
success_below (Call.suspend_user id reason) = refl
success_below (Call.unsuspend_user id) = refl

-- The status code is below 300 exactly where the handler has returned a result.
render_succeeds : (call : Call) (r : Result Response) → ltb (render call r).0 300 ≡ is_ok r
unfolding render into_response status
render_succeeds call (ok r) = success_below call
render_succeeds call (err not_found) = refl
render_succeeds call (err unauthorized) = refl
render_succeeds call (err forbidden) = refl
render_succeeds call (err (bad_request m)) = refl
render_succeeds call (err (conflict m)) = refl
render_succeeds call (err (database e)) = refl
render_succeeds call (err (internal m)) = refl

-- How a client reads an exchange.
abbrev read_exchange : Fields → Option ExchangeResponse
read_exchange fs = do
  id ← as_string (field (text "exchange_id") fs)
  initiator ← as_string (field (text "initiator_id") fs)
  responder ← as_string (field (text "responder_id") fs)
  initiator_key ← as_string (field (text "initiator_pubkey") fs)
  responder_key ← as_option (field (text "responder_pubkey") fs)
  some (record {
    exchange_id = id;
    initiator_id = initiator;
    responder_id = responder;
    initiator_pubkey = initiator_key;
    responder_pubkey = responder_key;
  })

-- A key that is not there is rendered as null and read back as none.
as_option-optional : (o : Option Text) → as_option (given (optional o)) ≡ some o
unfolding as_option optional
as_option-optional none = refl
as_option-optional (some s) = refl

-- A client reads the exchange that was rendered.
read_exchange-exchange_response :
    (r : ExchangeResponse) → read_exchange (exchange_response r) ≡ some r
unfolding exchange_response field as_string ◌>>=◌ smqtt.Prelude.text_beq
read_exchange-exchange_response r =
    ap (λ o. o >>= λ key. some (record r { responder_pubkey = key }))
      (as_option-optional r.responder_pubkey)
