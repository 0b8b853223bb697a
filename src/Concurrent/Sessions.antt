-- ===== src/Concurrent/Sessions.antt =====
-- The broker's sessions and the requests, step by step.
use smqtt.Prelude.{Option, List, [], ◌∷◌, Text, text_eq, subst, sym}
use smqtt.Error.{Result, ok, err}
use smqtt.Claims.{Claims}
use smqtt.Rows.{Device}
use smqtt.Map.{DashMap}
use smqtt.State.{AppState}
use smqtt.Exec.{Action}
use smqtt.Task.{atom}
use smqtt.Task.Safe.{Safe, Safe-atom, Safe-bind, Safe-ret, safe_rules}
use smqtt.Api.Sessions.{
  Quiet, quiet, check_mode-Quiet, auth_user-Quiet, publish_system-Quiet, call_broker-Quiet,
  decode_ephemeral-Quiet, discard-Quiet, create-Quiet, list-Quiet,
}
use smqtt.Api.Extractors.{Headers}
use smqtt.Api.Register as Register
use smqtt.Api.Auth as Auth
use smqtt.Api.Exchange as Exchange
use smqtt.Api.Admin as Admin
use smqtt.Api.Router.{Call}
use smqtt.Crypto as Crypto
use smqtt.Db.Users.{create_user, get_user, invalidate_tokens, set_suspended}
use smqtt.Db.Devices.{create_device, get_device_by_user}
use smqtt.Db.Relationships.{get_relationship, delete_relationship, user_topics, list_relationships}
use smqtt.Db.Exchanges.{create_exchange, get_exchange, set_responder_pubkey}
use smqtt.Db.Tokens as Tokens
use smqtt.Concurrent.Api as Task

module _ (state : AppState) (Q : DashMap Claims → Type 0) where
  pub Quiet-Safe : {A : Type 0} (m : Action A) → Quiet m → Safe (λ w. Q w.sessions) (atom m)
  Quiet-Safe m k = Safe-atom m (λ w h. subst Q (sym (k.at w)) h)

  kick_devices-Safe : (ds : List Device) → Safe (λ w. Q w.sessions) (Task.kick_devices state ds)
  unfolding Task.kick_devices
  kick_devices-Safe [] = Safe-ret tt
  kick_devices-Safe (d ∷ ds) =
      Safe-bind _ _ (Quiet-Safe _ (call_broker-Quiet _)) (λ u. kick_devices-Safe ds)

  kick_found-Safe :
      (found : Result (List Device)) → Safe (λ w. Q w.sessions) (Task.kick_found state found)
  unfolding Task.kick_found
  kick_found-Safe (ok ds) = kick_devices-Safe ds
  kick_found-Safe (err e) = Safe-ret tt

  kick_user-Safe : (user_id : Text) → Safe (λ w. Q w.sessions) (Task.kick_user state user_id)
  unfolding Task.kick_user invalidate_tokens get_device_by_user
  kick_user-Safe user_id = search (safe_rules, Quiet-Safe, quiet, kick_found-Safe) depth 15

  register-Safe :
      (req : Register.RegisterRequest) → Safe (λ w. Q w.sessions) (Task.register state req)
  unfolding Task.register Register.decode_key create_user create_device
  register-Safe req =
      Safe-bind _ _ (Quiet-Safe _ (check_mode-Quiet state req _))
        λ u. search (safe_rules, Quiet-Safe, quiet) depth 15

  challenge-Safe : (user_id : Text) → Safe (λ w. Q w.sessions) (Task.challenge state user_id)
  unfolding Task.challenge get_user
  challenge-Safe user_id = search (safe_rules, Quiet-Safe, quiet) depth 15

  verify-Safe : (req : Auth.VerifyRequest) → Safe (λ w. Q w.sessions) (Task.verify state req)
  unfolding Task.verify Task.open_session Auth.pop_challenge Auth.check_signature Task.issue_token
      Crypto.issue get_user get_device_by_user user_topics list_relationships
  verify-Safe req = search (safe_rules, Quiet-Safe, quiet) depth 20

  initiate-Safe :
      (user_id : Text) (req : Exchange.InitiateRequest)
      → Safe (λ w. Q w.sessions) (Task.initiate state user_id req)
  unfolding Task.initiate get_user create_exchange
  initiate-Safe user_id req =
      search (safe_rules, Quiet-Safe, quiet, decode_ephemeral-Quiet, publish_system-Quiet) depth 15

  get-Safe :
      (user_id exchange_id : Text) → Safe (λ w. Q w.sessions) (Task.get state user_id exchange_id)
  unfolding Task.get get_exchange
  get-Safe user_id exchange_id = search (safe_rules, Quiet-Safe, quiet, discard-Quiet) depth 15

  respond-Safe :
      (user_id exchange_id key : Text)
      → Safe (λ w. Q w.sessions) (Task.respond state user_id exchange_id key)
  unfolding Task.respond get_exchange set_responder_pubkey Exchange.may_respond
  respond-Safe user_id exchange_id s =
      search (safe_rules, Quiet-Safe, quiet, decode_ephemeral-Quiet, publish_system-Quiet) depth 15

  revoke-Safe :
      (user_id relationship_id : Text)
      → Safe (λ w. Q w.sessions) (Task.revoke state user_id relationship_id)
  unfolding Task.revoke get_relationship delete_relationship
  revoke-Safe user_id relationship_id =
      search (safe_rules, Quiet-Safe, quiet, kick_user-Safe) depth 15

  create_token-Safe :
      (headers : Headers) (req : Admin.CreateTokenRequest)
      → Safe (λ w. Q w.sessions) (Task.create_registration_token state headers req)
  unfolding Task.create_registration_token Admin.require_admin_key Tokens.create_registration_token
  create_token-Safe headers req = search (safe_rules, Quiet-Safe, quiet) depth 15

  suspend_user-Safe :
      (headers : Headers) (user_id : Text) (reason : Option Text)
      → Safe (λ w. Q w.sessions) (Task.suspend_user state headers user_id reason)
  unfolding Task.suspend_user Admin.require_admin_key set_suspended
  suspend_user-Safe headers user_id reason =
      search (safe_rules, Quiet-Safe, quiet, kick_user-Safe) depth 15

  unsuspend_user-Safe :
      (headers : Headers) (user_id : Text)
      → Safe (λ w. Q w.sessions) (Task.unsuspend_user state headers user_id)
  unfolding Task.unsuspend_user Admin.require_admin_key set_suspended
  unsuspend_user-Safe headers user_id = search (safe_rules, Quiet-Safe, quiet) depth 15

  pub dispatch-Safe :
      (headers : Headers) (call : Call)
      → Safe (λ w. Q w.sessions) (Task.dispatch state headers call)
  unfolding Task.dispatch
  dispatch-Safe headers (Call.register req) = Safe-bind _ _ (register-Safe req) (λ r. Safe-ret _)
  dispatch-Safe headers _ = search (
    safe_rules, Quiet-Safe, auth_user-Quiet, create-Quiet, list-Quiet, challenge-Safe, verify-Safe,
    initiate-Safe, get-Safe, respond-Safe, revoke-Safe, create_token-Safe, suspend_user-Safe,
    unsuspend_user-Safe,
  )
