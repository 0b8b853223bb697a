-- ===== src/Api/Router.antt =====
-- api/mod.rs: the routes. axum matches the path and decodes the body; a `Call` is the handler that
-- it chose with what it extracted, and `dispatch` runs the extractors of smqtt and the handler.
pub mod Guards
use smqtt.Prelude.{List, Option, Text}
use smqtt.State.{AppState}
use smqtt.Exec.{Action, pure, ◌>>=◌, ◌>>◌}
use smqtt.Api.Extractors.{Headers, auth_user}
use smqtt.Api.Register
use smqtt.Api.Register.{RegisterRequest, RegisterResponse}
use smqtt.Api.Auth
use smqtt.Api.Auth.{VerifyRequest}
use smqtt.Api.Exchange
use smqtt.Api.Exchange.{InitiateRequest, ExchangeResponse}
use smqtt.Api.Relationships
use smqtt.Api.Relationships.{CreateRequest, RelationshipResponse}
use smqtt.Api.Admin
use smqtt.Api.Admin.{CreateTokenRequest}

pub data Call : Type 0 where
  register : RegisterRequest → Call
  challenge : Text → Call
  verify : VerifyRequest → Call
  initiate : InitiateRequest → Call
  get_exchange : Text → Call
  respond : Text → Text → Call
  create : CreateRequest → Call
  list : Call
  revoke : Text → Call
  create_registration_token : CreateTokenRequest → Call
  suspend_user : Text → Option Text → Call
  unsuspend_user : Text → Call

pub data Response : Type 0 where
  registered : RegisterResponse → Response
  -- a nonce, a token, the id of an exchange
  text_body : Text → Response
  exchange : ExchangeResponse → Response
  relationship : RelationshipResponse → Response
  relationships : List RelationshipResponse → Response
  -- 200 or 204 without a body
  done : Response

unfoldable pub dispatch : AppState → Headers → Call → Action Response
dispatch state headers (register req) = do r ← Register.register state req; pure (registered r)
dispatch state headers (challenge user_id) = do r ← Auth.challenge state user_id; pure (text_body r)
dispatch state headers (verify req) = do r ← Auth.verify state req; pure (text_body r)
dispatch state headers (initiate req) = do
  user_id ← auth_user state headers
  r ← Exchange.initiate state user_id req
  pure (text_body r)
dispatch state headers (get_exchange exchange_id) = do
  user_id ← auth_user state headers
  r ← Exchange.get state user_id exchange_id
  pure (exchange r)
dispatch state headers (respond exchange_id ephemeral_pubkey) = do
  user_id ← auth_user state headers
  r ← Exchange.respond state user_id exchange_id ephemeral_pubkey
  pure (exchange r)
dispatch state headers (create req) = do
  user_id ← auth_user state headers
  r ← Relationships.create state user_id req
  pure (relationship r)
dispatch state headers list = do
  user_id ← auth_user state headers
  r ← Relationships.list state user_id
  pure (relationships r)
dispatch state headers (revoke relationship_id) = do
  user_id ← auth_user state headers
  Relationships.revoke state user_id relationship_id
  pure done
dispatch state headers (create_registration_token req) = do
  r ← Admin.create_registration_token state headers req
  pure (text_body r)
dispatch state headers (suspend_user user_id reason) = do
  Admin.suspend_user state headers user_id reason
  pure done
dispatch state headers (unsuspend_user user_id) = do
  Admin.unsuspend_user state headers user_id
  pure done
