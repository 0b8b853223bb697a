-- ===== src/Concurrent/Safety.antt =====
-- The handlers, step by step, and the properties that the SQL statements keep.
use smqtt.Prelude.{◌≡◌, Bool, true, false, nat_eq, Option, List, [], ◌∷◌, Text, length}
use smqtt.Error.{Result, ok, err}
use smqtt.Rows.{Database, Device}
use smqtt.State.{AppState}
use smqtt.Exec.{Action, modify}
use smqtt.Exec.Keeps.{Keeps, Keeps-modify, keeps_rules}
use smqtt.Db.Invariant.{IsKey}
use smqtt.Db.Stable.{Stable}
use smqtt.Db.Keeps.{get_user-Keeps, get_exchange-Keeps, create_user-Keeps, create_device-Keeps}
use smqtt.Task.{atom, ◌>>=◌}
use smqtt.Task.Safe.{Safe, Safe-post, Safe-bind, Safe-Keeps, Safe-ret, Safe-catch, safe_rules}
use smqtt.Crypto as Crypto
use smqtt.Broker.Keeps.{queries, publish_system-Keeps, call_broker-Keeps, crypto_verify-Keeps}
use smqtt.Api.Extractors.{Headers, auth_user}
use smqtt.Api.Register as Register
use smqtt.Api.Auth as Auth
use smqtt.Api.Exchange as Exchange
use smqtt.Api.Relationships as Relationships
use smqtt.Api.Admin as Admin
use smqtt.Api.Router.{Call}
use smqtt.Api.Keeps.{
  auth_user-Keeps, check_mode-Keeps, decode_key-Keeps, decode_key-IsKey, pop_challenge-Keeps,
  check_signature-Keeps, decode_ephemeral-Keeps, decode_ephemeral_short, discard-Keeps,
  create-Keeps, list-Keeps, Permits,
}
use smqtt.Broker.AuthHook.{
  ConnectInfo, Parameter, HookResult, client_authenticate, client_subscribe_check_acl,
  client_disconnected, other,
}
use smqtt.Concurrent.Hook as Hook
use smqtt.Concurrent.Hook.{read_claims}
use smqtt.Concurrent.Api as Task

module _ (state : AppState) {Allowed : Bool → Text → Type 0} {P : Database → Type 0}
    (st : Stable state.ext Allowed P) where
  query-Safe : {A : Type 0} (m : Action A) → Keeps P m → Safe (λ w. P w.db) (atom m)
  query-Safe m k = Safe-Keeps m k

  kick_devices-Safe : (ds : List Device) → Safe (λ w. P w.db) (Task.kick_devices state ds)
  unfolding Task.kick_devices
  kick_devices-Safe [] = Safe-ret tt
  kick_devices-Safe (d ∷ ds) =
      Safe-bind _ _ (Safe-Keeps _ (call_broker-Keeps state st _)) (λ u. kick_devices-Safe ds)

  kick_found-Safe :
      (found : Result (List Device)) → Safe (λ w. P w.db) (Task.kick_found state found)
  unfolding Task.kick_found
  kick_found-Safe (ok ds) = kick_devices-Safe ds
  kick_found-Safe (err e) = Safe-ret tt

  kick_user-Safe : (user_id : Text) → Safe (λ w. P w.db) (Task.kick_user state user_id)
  unfolding Task.kick_user
  kick_user-Safe user_id = search (safe_rules, query-Safe, queries, kick_found-Safe) depth 12

  register-Safe : (req : Register.RegisterRequest) → Safe (λ w. P w.db) (Task.register state req)
  unfolding Task.register
  register-Safe req = Safe-bind _ _ (Safe-Keeps _ (check_mode-Keeps state st req _)) λ u.
      Safe-post (IsKey state.ext) _ _ (decode_key-Keeps state st req).at
        (decode_key-IsKey state st req)
        λ key valid. search (safe_rules, query-Safe, create_user-Keeps, create_device-Keeps) depth 9

  challenge-Safe : (user_id : Text) → Safe (λ w. P w.db) (Task.challenge state user_id)
  unfolding Task.challenge ◌>>=◌ atom smqtt.Exec.fill_bytes smqtt.Exec.unix_now modify
  challenge-Safe user_id =
      Safe-bind _ _ (query-Safe _ (get_user-Keeps st user_id))
        λ u. search (safe_rules, query-Safe, keeps_rules) depth 12

  open_session-Safe : (user_id : Text) → Safe (λ w. P w.db) (Task.open_session user_id)
  unfolding Task.open_session
  open_session-Safe user_id =
      Safe-bind _ _ (query-Safe _ (pop_challenge-Keeps state st user_id))
        λ c. search (safe_rules, query-Safe, queries) depth 12

  issue_token-Safe : (req : Auth.VerifyRequest) → Safe (λ w. P w.db) (Task.issue_token state req)
  unfolding Task.issue_token Crypto.issue
  issue_token-Safe req = search (safe_rules, query-Safe, queries) depth 12

  pub verify-Safe : (req : Auth.VerifyRequest) → Safe (λ w. P w.db) (Task.verify state req)
  unfolding Task.verify
  verify-Safe req = Safe-bind _ _ (open_session-Safe req.user_id) λ nonce.
      Safe-bind _ _ (query-Safe _ (check_signature-Keeps state st req nonce))
        λ u. issue_token-Safe req

  initiate-Safe :
      (user_id : Text) (req : Exchange.InitiateRequest)
      → Safe (λ w. P w.db) (Task.initiate state user_id req)
  unfolding Task.initiate
  initiate-Safe user_id req = Safe-bind _ _ (query-Safe _ (get_user-Keeps st req.peer_id)) λ u.
      Safe-post (λ key. length key ≡ 32) _ _
        (decode_ephemeral-Keeps state st req.ephemeral_pubkey).at
        (decode_ephemeral_short state st req.ephemeral_pubkey)
        λ key short. search (safe_rules, query-Safe, queries, publish_system-Keeps state) depth 9

  get-Safe : (user_id exchange_id : Text) → Safe (λ w. P w.db) (Task.get state user_id exchange_id)
  unfolding Task.get
  get-Safe user_id exchange_id =
      search (safe_rules, query-Safe, queries, discard-Keeps state) depth 12

  respond-Safe :
      (user_id exchange_id key : Text)
      → Safe (λ w. P w.db) (Task.respond state user_id exchange_id key)
  unfolding Task.respond Exchange.may_respond
  respond-Safe user_id exchange_id s =
      Safe-bind _ _ (query-Safe _ (get_exchange-Keeps st exchange_id)) λ ex.
        Safe-bind _ _ (query-Safe _ (search queries depth 9)) λ u.
          Safe-post (λ key. length key ≡ 32) _ _ (decode_ephemeral-Keeps state st s).at
            (decode_ephemeral_short state st s)
            λ key short.
              search (safe_rules, query-Safe, queries, publish_system-Keeps state) depth 9

  revoke-Safe :
      (user_id relationship_id : Text)
      → Safe (λ w. P w.db) (Task.revoke state user_id relationship_id)
  unfolding Task.revoke
  revoke-Safe user_id relationship_id =
      search (safe_rules, query-Safe, queries, kick_user-Safe) depth 12

  create_token-Safe :
      (headers : Headers) (req : Admin.CreateTokenRequest)
      → Safe (λ w. P w.db) (Task.create_registration_token state headers req)
  unfolding Task.create_registration_token Admin.require_admin_key
  create_token-Safe headers req = search (safe_rules, query-Safe, queries) depth 12

  suspend_user-Safe :
      (headers : Headers) (user_id : Text) (reason : Option Text)
      → Allowed true user_id
      → Safe (λ w. P w.db) (Task.suspend_user state headers user_id reason)
  unfolding Task.suspend_user Admin.require_admin_key
  suspend_user-Safe headers user_id reason allowed =
      search (safe_rules, query-Safe, queries, kick_user-Safe) depth 12

  unsuspend_user-Safe :
      (headers : Headers) (user_id : Text)
      → Allowed false user_id
      → Safe (λ w. P w.db) (Task.unsuspend_user state headers user_id)
  unfolding Task.unsuspend_user Admin.require_admin_key
  unsuspend_user-Safe headers user_id allowed = search (safe_rules, query-Safe, queries) depth 12

  auth-Safe : (headers : Headers) → Safe (λ w. P w.db) (atom (auth_user state headers))
  auth-Safe headers = query-Safe _ (auth_user-Keeps state st headers)

  create-Safe :
      (user_id : Text) (req : Relationships.CreateRequest)
      → Safe (λ w. P w.db) (atom (Relationships.create state user_id req))
  create-Safe user_id req = query-Safe _ (create-Keeps state st user_id req)

  list-Safe : (user_id : Text) → Safe (λ w. P w.db) (atom (Relationships.list state user_id))
  list-Safe user_id = query-Safe _ (list-Keeps state st user_id)

  pub dispatch-Safe :
      (headers : Headers) (call : Call)
      → Permits Allowed call
      → Safe (λ w. P w.db) (Task.dispatch state headers call)
  unfolding Task.dispatch
  dispatch-Safe headers (Call.register req) h = Safe-bind _ _ (register-Safe req) (λ r. Safe-ret _)
  dispatch-Safe headers _ h = search (
    safe_rules, register-Safe, challenge-Safe, verify-Safe, auth-Safe, initiate-Safe, get-Safe,
    respond-Safe, create-Safe, list-Safe, revoke-Safe, create_token-Safe, suspend_user-Safe,
    unsuspend_user-Safe,
  )

  read_claims-Keeps : (info : ConnectInfo) → Keeps P (read_claims state info)
  unfolding read_claims
  read_claims-Keeps info = search (keeps_rules, crypto_verify-Keeps) depth 9

  admit-Safe : (info : ConnectInfo) → Safe (λ w. P w.db) (Hook.admit state info)
  unfolding Hook.admit ◌>>=◌ atom read_claims
  admit-Safe info =
      search (safe_rules, query-Safe, read_claims-Keeps, keeps_rules, get_user-Keeps) depth 12

  pub hook-Safe :
      (param : Parameter) (acc : Option HookResult) → Safe (λ w. P w.db) (Hook.hook state param acc)
  unfolding Hook.hook Hook.check_subscribe_acl
  hook-Safe (client_authenticate info) acc = Safe-catch _ _ (admit-Safe info)
  hook-Safe (client_subscribe_check_acl client_id subscribe) acc =
      search (safe_rules, query-Safe, keeps_rules)
  hook-Safe (client_disconnected client_id) acc =
      Safe-bind _ _ (query-Safe _ (Keeps-modify _ (λ w h. h))) (λ u. Safe-ret _)
  hook-Safe other acc = Safe-ret _
