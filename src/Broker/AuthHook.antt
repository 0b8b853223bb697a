-- ===== src/Broker/AuthHook.antt =====
-- broker/auth_hook.rs: the hook that admits connections and subscriptions.
pub mod Outcome
pub mod Stale
use smqtt.Prelude.{
  ℕ, Bool, true, false, not, Option, none, some, Text, Bytes, as_i64, ltb_ℤ, ◌==◌, text_eq, any,
  from_utf8, if◌then◌else◌,
}
use smqtt.Claims.{Claims}
use smqtt.Error.{Result, ok, err, unauthorized}
use smqtt.Map.{get, insert, remove}
use smqtt.State.{AppState, World}
use smqtt.Exec.{Action, ok_or, raise_if, modify, ◌>>=◌, ◌>>◌}
use smqtt.Crypto.{verify}
use smqtt.Db.Users.{get_user}

pub record ConnectInfo : Type 0 where
  pub client_id : Text
  pub password : Option Bytes

pub record Subscribe : Type 0 where
  pub topic_filter : Text
  pub qos : ℕ

pub data HookResult : Type 0 where
  -- `AuthResult::Allow(superuser, None)` and `AuthResult::NotAuthorized`
  allow : Bool → HookResult
  not_authorized : HookResult
  -- `SubscribeAclResult`, with the granted QoS or refused as not authorized
  subscribe_success : ℕ → HookResult
  subscribe_failure : HookResult

-- Whether the next handler is asked too, and the result.
abbrev pub ReturnType : Type 0
ReturnType = Bool × Option HookResult

abbrev pub deny : ReturnType
deny = (false, some not_authorized)

-- `std::str::from_utf8` of the password, where there is one
unfoldable pub password_text : ConnectInfo → Option Text
password_text connect_info = elim connect_info.password [ none ↦ none | some pw ↦ from_utf8 pw ]

-- The steps of `authenticate`. Each early `return deny()` is an error here.
unfoldable pub admit : AppState → ConnectInfo → Action (Unit {0})
unfolding password_text
admit state connect_info = do
  token ← ok_or unauthorized (password_text connect_info)
  claims ← verify state token
  raise_if (not (connect_info.client_id == claims.dev)) unauthorized
  user ← get_user claims.sub
  raise_if user.suspended unauthorized
  raise_if (ltb_ℤ (as_i64 claims.iat) user.tokens_valid_from) unauthorized
  modify (λ w. record w { sessions = insert connect_info.client_id claims w.sessions })

abbrev pub auth_answer : Result (Unit {0}) → ReturnType
auth_answer (ok u) = (false, some (allow false))
auth_answer (err e) = deny

unfoldable pub authenticate : AppState → ConnectInfo → World → ReturnType × World
authenticate state connect_info w = let (r, w') = admit state connect_info w in (auth_answer r, w')

unfoldable pub may_subscribe : Text → Option Claims → Bool
may_subscribe topic none = false
may_subscribe topic (some claims) = any (λ t. t == topic) claims.sub_topics

unfoldable pub check_subscribe_acl : Text → Subscribe → World → ReturnType × World
unfolding may_subscribe
check_subscribe_acl client_id subscribe w = (
  if may_subscribe subscribe.topic_filter (get client_id w.sessions)
      then (true, some (subscribe_success subscribe.qos))
      else (false, some subscribe_failure),
  w,
)

pub data Parameter : Type 0 where
  client_authenticate : ConnectInfo → Parameter
  -- the session's client id
  client_subscribe_check_acl : Text → Subscribe → Parameter
  client_disconnected : Text → Parameter
  other : Parameter

unfoldable pub hook : AppState → Parameter → Option HookResult → World → ReturnType × World
hook state (client_authenticate connect_info) acc w = authenticate state connect_info w
hook state (client_subscribe_check_acl client_id subscribe) acc w =
    check_subscribe_acl client_id subscribe w
hook state (client_disconnected client_id) acc w =
    ((true, acc), record w { sessions = remove client_id w.sessions })
hook state other acc w = ((true, acc), w)
