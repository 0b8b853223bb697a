-- ===== src/Concurrent/Alone.antt =====
-- A handler that is not interrupted, beside its atomic version.
use smqtt.Prelude.{◌≡◌, true, refl, Option, List, [], ◌∷◌, Text}
use mathlib.Core.Path.{fun_ext}
use smqtt.Error.{Result, ok, err}
use smqtt.Rows.{Device}
use smqtt.State.{AppState, World}
use smqtt.Exec as Exec
use smqtt.Exec.{Action, ◌>>=◌, pure, continue, modify}
use smqtt.Task as Tasks
use smqtt.Task.{Task, run}
use smqtt.Task.Run.{run-atom, run-ret, run-bind, run-catch}
use smqtt.Broker as Broker
use smqtt.Broker.AuthHook as AuthHook
use smqtt.Broker.AuthHook.{
  Parameter, HookResult, client_authenticate, client_subscribe_check_acl, client_disconnected,
  other,
}
use smqtt.Api.Extractors.{Headers}
use smqtt.Api.Register as Register
use smqtt.Api.Auth as Auth
use smqtt.Api.Exchange as Exchange
use smqtt.Api.Relationships as Relationships
use smqtt.Api.Admin as Admin
use smqtt.Api.Router as Router
use smqtt.Api.Router.{Call, Response}
use smqtt.Concurrent.Api as Task
use smqtt.Concurrent.Hook as Hook

continue_assoc :
    {A B C : Type 0} (r : Result A) (f : A → Action B) (h : B → Action C) (w : World)
    → continue (continue r f w).0 h (continue r f w).1
      ≡ continue r (λ a v. continue (f a v).0 h (f a v).1) w
continue_assoc (ok a) f h w = refl
continue_assoc (err e) f h w = refl

-- Sequences of actions may be regrouped.
bind_assoc_at :
    {A B C : Type 0} (m : Action A) (f : A → Action B) (h : B → Action C) (w : World)
    → ((m >>= f) >>= h) w ≡ (m >>= λ a. f a >>= h) w
unfolding ◌>>=◌
bind_assoc_at m f h w = continue_assoc (m w).0 f h (m w).1

bind_assoc :
    {A B C : Type 0} (m : Action A) (f : A → Action B) (h : B → Action C)
    → ((m >>= f) >>= h) ≡ (m >>= λ a. f a >>= h)
bind_assoc m f h = fun_ext (bind_assoc_at m f h)

ruleset alone = (run-bind, run-atom, run-ret, bind_assoc)

module _ (state : AppState) where
  run-kick_devices :
      (ds : List Device) → run (Task.kick_devices state ds) ≡ Broker.kick_devices state ds
  unfolding Task.kick_devices Broker.kick_devices
  run-kick_devices [] = run-ret tt
  run-kick_devices (d ∷ ds) = simp (alone, run-kick_devices ds)

  run-kick_found :
      (r : Result (List Device)) → run (Task.kick_found state r) ≡ Broker.kick_found state r
  unfolding Task.kick_found Broker.kick_found
  run-kick_found (ok ds) = run-kick_devices ds
  run-kick_found (err e) = run-ret tt

  run-kick_user :
      (user_id : Text) → run (Task.kick_user state user_id) ≡ Broker.kick_user state user_id
  unfolding Task.kick_user Broker.kick_user
  run-kick_user user_id = simp (alone, run-kick_found)

  run-register :
      (req : Register.RegisterRequest) → run (Task.register state req) ≡ Register.register state req
  unfolding Task.register Register.register Register.enroll
  run-register req = simp alone

  run-challenge :
      (user_id : Text) → run (Task.challenge state user_id) ≡ Auth.challenge state user_id
  unfolding Task.challenge Auth.challenge
  run-challenge user_id = simp alone

  run-open_session : (user_id : Text) → run (Task.open_session user_id) ≡ Auth.open_session user_id
  unfolding Task.open_session Auth.open_session
  run-open_session user_id = simp alone

  run-verify : (req : Auth.VerifyRequest) → run (Task.verify state req) ≡ Auth.verify state req
  unfolding Task.verify Auth.verify Task.issue_token Auth.issue_token
  run-verify req = simp (alone, run-open_session)

  run-initiate :
      (user_id : Text) (req : Exchange.InitiateRequest)
      → run (Task.initiate state user_id req) ≡ Exchange.initiate state user_id req
  unfolding Task.initiate Exchange.initiate
  run-initiate user_id req = simp alone

  run-get :
      (user_id exchange_id : Text)
      → run (Task.get state user_id exchange_id) ≡ Exchange.get state user_id exchange_id
  unfolding Task.get Exchange.get
  run-get user_id exchange_id = simp alone

  run-respond :
      (user_id exchange_id key : Text)
      → run (Task.respond state user_id exchange_id key)
        ≡ Exchange.respond state user_id exchange_id key
  unfolding Task.respond Exchange.respond
  run-respond user_id exchange_id key = simp alone

  run-revoke :
      (user_id relationship_id : Text)
      → run (Task.revoke state user_id relationship_id)
        ≡ Relationships.revoke state user_id relationship_id
  unfolding Task.revoke Relationships.revoke
  run-revoke user_id relationship_id = simp (alone, run-kick_user)

  run-create_token :
      (headers : Headers) (req : Admin.CreateTokenRequest)
      → run (Task.create_registration_token state headers req)
        ≡ Admin.create_registration_token state headers req
  unfolding Task.create_registration_token Admin.create_registration_token
  run-create_token headers req = simp alone

  run-suspend_user :
      (headers : Headers) (user_id : Text) (reason : Option Text)
      → run (Task.suspend_user state headers user_id reason)
        ≡ Admin.suspend_user state headers user_id reason
  unfolding Task.suspend_user Admin.suspend_user
  run-suspend_user headers user_id reason = simp (alone, run-kick_user)

  run-unsuspend_user :
      (headers : Headers) (user_id : Text)
      → run (Task.unsuspend_user state headers user_id) ≡ Admin.unsuspend_user state headers user_id
  unfolding Task.unsuspend_user Admin.unsuspend_user
  run-unsuspend_user headers user_id = simp alone

ruleset handlers_alone = (
  run-bind, run-atom, run-ret, run-register, run-challenge, run-verify, run-initiate, run-get,
  run-respond, run-revoke, run-create_token, run-suspend_user, run-unsuspend_user,
)

-- A request that no other handler interrupts does what the atomic handler does: the same result, the
-- same world, and the same questions asked of the surroundings.
pub run-dispatch :
    (state : AppState) (headers : Headers) (call : Call)
    → run (Task.dispatch state headers call) ≡ Router.dispatch state headers call
unfolding Task.dispatch Router.dispatch
run-dispatch state headers (Call.register req) = simp handlers_alone
run-dispatch state headers _ = simp handlers_alone

run-admit :
    (state : AppState) (info : AuthHook.ConnectInfo)
    → run (Hook.admit state info) ≡ AuthHook.admit state info
unfolding Hook.admit AuthHook.admit Hook.read_claims
run-admit state info = simp alone

run-check_subscribe_acl :
    (client_id : Text) (s : AuthHook.Subscribe) (w : World)
    → run (Hook.check_subscribe_acl client_id s) w ≡ (
      ok (AuthHook.check_subscribe_acl client_id s w).0,
      (AuthHook.check_subscribe_acl client_id s w).1,
    )
unfolding Hook.check_subscribe_acl AuthHook.check_subscribe_acl run Tasks.◌>>=◌ Tasks.atom Exec.gets
    Tasks.ret
run-check_subscribe_acl client_id s w = refl

run-disconnect :
    (acc : Option HookResult) (f : World → World) (w : World)
    → run {A = AuthHook.ReturnType}
        (Tasks.◌>>=◌ (Tasks.atom (modify f)) (λ _. Tasks.ret (true, acc)))
        w
      ≡ (ok (true, acc), f w)
unfolding run Tasks.◌>>=◌ Tasks.atom Tasks.ret modify
run-disconnect acc f w = refl

run-idle :
    (acc : Option HookResult) (w : World)
    → run {A = AuthHook.ReturnType} (Tasks.ret (true, acc)) w ≡ (ok (true, acc), w)
unfolding run Tasks.ret
run-idle acc w = refl

-- The hook, when nothing interrupts it, does what the atomic hook does.
pub run-hook :
    (state : AppState) (param : Parameter) (acc : Option HookResult) (w : World)
    → run (Hook.hook state param acc) w
      ≡ (ok (AuthHook.hook state param acc w).0, (AuthHook.hook state param acc w).1)
unfolding Hook.hook AuthHook.hook AuthHook.authenticate
run-hook state (client_authenticate info) acc w =
    rw (run-catch (Hook.admit state info) AuthHook.auth_answer, run-admit state info)
run-hook state (client_subscribe_check_acl client_id s) acc w =
    run-check_subscribe_acl client_id s w
run-hook state (client_disconnected client_id) acc w = run-disconnect acc _ w
run-hook state other acc w = run-idle acc w
