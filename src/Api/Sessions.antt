-- ===== src/Api/Sessions.antt =====
-- The requests of src/api and the sessions of the broker's clients.
use smqtt.Prelude.{ℕ, refl, Bool, true, false, Option, none, some, List, [], ◌∷◌, Text, Bytes}
use smqtt.Error.{Result, ok, err}
use smqtt.Rows.{Device}
use smqtt.Claims.{Claims}
use smqtt.Map.{DashMap, insert, remove}
use smqtt.Config.{RegistrationMode, open_mode, closed_mode, policy_mode, PolicyKind, push, hook}
use smqtt.State.{AppState, World, BrokerCall, HookReply, not_sent, not_json, answered}
use smqtt.Exec.{Action, modify, ask_hook}
use smqtt.Exec.Frame.{IsSide, Frames, Frames-bind, frame_rules}
use smqtt.Crypto
use smqtt.Db.Users.{create_user, get_user, invalidate_tokens, set_suspended}
use smqtt.Db.Devices.{create_device, get_device_by_user}
use smqtt.Db.Relationships.{
  create_relationship, list_relationships, get_relationship, delete_relationship, user_topics,
}
use smqtt.Db.Exchanges.{create_exchange, get_exchange, set_responder_pubkey, delete_exchange}
use smqtt.Db.Tokens as Tokens
use smqtt.Db.Tokens.{consume_registration_token}
use smqtt.Broker.{call_broker, publish_system, kick_devices, kick_found, kick_user}
use smqtt.Api.Extractors.{Headers, auth_user}
use smqtt.Api.Register
use smqtt.Api.Auth
use smqtt.Api.Exchange
use smqtt.Api.Relationships
use smqtt.Api.Admin
use smqtt.Api.Router.{Call, dispatch}

abbrev pub sessions_of : World → DashMap Claims
sessions_of w = w.sessions

abbrev pub Quiet : {A : Type 0} → Action A → Type 0
Quiet m = Frames sessions_of m

pub sessions-IsSide : IsSide sessions_of
sessions-IsSide = record { asked = λ w. refl; stored = λ w db. refl }

pub ask_hook-Quiet : (url pubkey : Text) → Quiet (ask_hook url pubkey)
unfolding ask_hook
ask_hook-Quiet url pubkey = record { at = λ w. refl }

pub call_broker-Quiet : (c : BrokerCall) → Quiet (call_broker c)
unfolding call_broker modify
call_broker-Quiet c = record { at = λ w. refl }

pub set_challenge-Quiet :
    (user_id : Text) (nonce : Bytes) (expires_at : ℕ)
    → Quiet (modify λ w. record w { challenges = insert user_id (nonce, expires_at) w.challenges })
unfolding modify
set_challenge-Quiet user_id nonce expires_at = record { at = λ w. refl }

pub drop_challenge-Quiet :
    (user_id : Text) → Quiet (modify λ w. record w { challenges = remove user_id w.challenges })
unfolding modify
drop_challenge-Quiet user_id = record { at = λ w. refl }

pub ruleset quiet = (
  frame_rules, sessions-IsSide, ask_hook-Quiet, call_broker-Quiet, set_challenge-Quiet,
  drop_challenge-Quiet,
)

module _ (state : AppState) where
  kick_devices-Quiet : (devices : List Device) → Quiet (kick_devices state devices)
  unfolding kick_devices
  kick_devices-Quiet [] = search quiet
  kick_devices-Quiet (device ∷ devices) =
      Frames-bind _ _ (call_broker-Quiet _) λ u. kick_devices-Quiet devices

  kick_found-Quiet : (found : Result (List Device)) → Quiet (kick_found state found)
  unfolding kick_found
  kick_found-Quiet (ok devices) = kick_devices-Quiet devices
  kick_found-Quiet (err e) = search quiet

  kick_user-Quiet : (user_id : Text) → Quiet (kick_user state user_id)
  unfolding kick_user invalidate_tokens get_device_by_user
  kick_user-Quiet user_id = search (quiet, kick_found-Quiet) depth 12

  pub publish_system-Quiet :
      (topic : Text) (payload : Bytes) → Quiet (publish_system state topic payload)
  unfolding publish_system
  publish_system-Quiet topic payload = call_broker-Quiet _

  pub auth_user-Quiet : (headers : Headers) → Quiet (auth_user state headers)
  unfolding auth_user Crypto.verify
  auth_user-Quiet headers = search quiet depth 12

  read_reply-Quiet : (r : HookReply) → Quiet (Register.read_reply r)
  unfolding Register.read_reply
  read_reply-Quiet (not_sent e) = search quiet
  read_reply-Quiet (not_json e) = search quiet
  read_reply-Quiet (answered none) = search quiet
  read_reply-Quiet (answered (some b)) = search quiet

  apply_policy-Quiet :
      (req : Register.RegisterRequest) (kind : PolicyKind) (url : Option Text)
      → Quiet (Register.apply_policy state req kind url)
  unfolding Register.apply_policy Register.validate_via_hook consume_registration_token
  apply_policy-Quiet req push url = search quiet depth 12
  apply_policy-Quiet req hook url = search (quiet, read_reply-Quiet) depth 12

  pub check_mode-Quiet :
      (req : Register.RegisterRequest) (mode : RegistrationMode)
      → Quiet (Register.check_mode state req mode)
  unfolding Register.check_mode
  check_mode-Quiet req open_mode = search quiet
  check_mode-Quiet req closed_mode = search quiet
  check_mode-Quiet req policy_mode =
      Frames-bind _ _ (search quiet) λ policy. apply_policy-Quiet req policy.kind policy.hook_url

  register-Quiet : (req : Register.RegisterRequest) → Quiet (Register.register state req)
  unfolding Register.register Register.decode_key Register.enroll create_user create_device
  register-Quiet req =
      Frames-bind _ _ (check_mode-Quiet req state.config.registration.mode)
        λ u. Frames-bind _ _ (search quiet depth 12) λ key. search quiet depth 15

  challenge-Quiet : (user_id : Text) → Quiet (Auth.challenge state user_id)
  unfolding Auth.challenge get_user
  challenge-Quiet user_id = search quiet depth 15

  verify-Quiet : (req : Auth.VerifyRequest) → Quiet (Auth.verify state req)
  unfolding Auth.verify Auth.open_session Auth.pop_challenge Auth.check_signature Auth.issue_token
      Crypto.issue get_user get_device_by_user user_topics list_relationships
  verify-Quiet req =
      Frames-bind _ _ (search quiet depth 15)
        λ nonce. Frames-bind _ _ (search quiet depth 15) λ u. search quiet depth 15

  pub decode_ephemeral-Quiet : (s : Text) → Quiet (Exchange.decode_ephemeral state.ext s)
  unfolding Exchange.decode_ephemeral
  decode_ephemeral-Quiet s = search quiet depth 12

  initiate-Quiet :
      (user_id : Text) (req : Exchange.InitiateRequest)
      → Quiet (Exchange.initiate state user_id req)
  unfolding Exchange.initiate get_user create_exchange
  initiate-Quiet user_id req = search (quiet, decode_ephemeral-Quiet, publish_system-Quiet) depth 15

  pub discard-Quiet : (b : Bool) (exchange_id : Text) → Quiet (Exchange.discard b exchange_id)
  unfolding Exchange.discard delete_exchange
  discard-Quiet true exchange_id = search quiet depth 12
  discard-Quiet false exchange_id = search quiet

  get-Quiet : (user_id exchange_id : Text) → Quiet (Exchange.get state user_id exchange_id)
  unfolding Exchange.get get_exchange
  get-Quiet user_id exchange_id = search (quiet, discard-Quiet) depth 12

  respond-Quiet :
      (user_id exchange_id key : Text) → Quiet (Exchange.respond state user_id exchange_id key)
  unfolding Exchange.respond get_exchange set_responder_pubkey
  respond-Quiet user_id exchange_id s =
      search (quiet, decode_ephemeral-Quiet, publish_system-Quiet) depth 15

  pub create-Quiet :
      (user_id : Text) (req : Relationships.CreateRequest)
      → Quiet (Relationships.create state user_id req)
  unfolding Relationships.create create_relationship
  create-Quiet user_id req = search quiet depth 12

  pub list-Quiet : (user_id : Text) → Quiet (Relationships.list state user_id)
  unfolding Relationships.list list_relationships
  list-Quiet user_id = search quiet depth 12

  revoke-Quiet :
      (user_id relationship_id : Text) → Quiet (Relationships.revoke state user_id relationship_id)
  unfolding Relationships.revoke get_relationship delete_relationship
  revoke-Quiet user_id relationship_id = search (quiet, kick_user-Quiet) depth 15

  create_token-Quiet :
      (headers : Headers) (req : Admin.CreateTokenRequest)
      → Quiet (Admin.create_registration_token state headers req)
  unfolding Admin.create_registration_token Admin.require_admin_key Tokens.create_registration_token
  create_token-Quiet headers req = search quiet depth 15

  suspend_user-Quiet :
      (headers : Headers) (user_id : Text) (reason : Option Text)
      → Quiet (Admin.suspend_user state headers user_id reason)
  unfolding Admin.suspend_user Admin.require_admin_key set_suspended
  suspend_user-Quiet headers user_id reason = search (quiet, kick_user-Quiet) depth 15

  unsuspend_user-Quiet :
      (headers : Headers) (user_id : Text) → Quiet (Admin.unsuspend_user state headers user_id)
  unfolding Admin.unsuspend_user Admin.require_admin_key set_suspended
  unsuspend_user-Quiet headers user_id = search quiet depth 12

ruleset quiet_handlers = (
  frame_rules, register-Quiet, challenge-Quiet, verify-Quiet, auth_user-Quiet, initiate-Quiet,
  get-Quiet, respond-Quiet, create-Quiet, list-Quiet, revoke-Quiet, create_token-Quiet,
  suspend_user-Quiet, unsuspend_user-Quiet,
)

pub dispatch-Quiet :
    (state : AppState) (headers : Headers) (call : Call) → Quiet (dispatch state headers call)
unfolding dispatch
dispatch-Quiet state headers (Call.register req) = search quiet_handlers
dispatch-Quiet state headers _ = search quiet_handlers
