-- ===== src/Concurrent/Hook.antt =====
-- The handler of the broker hook as a task (broker/auth_hook.rs).
use smqtt.Prelude.{
  true, false, not, Option, some, Text, as_i64, ltb_ℤ, ◌==◌, text_eq, if◌then◌else◌,
}
use smqtt.Error.{unauthorized}
use smqtt.Claims.{Claims}
use smqtt.Map.{get, insert, remove}
use smqtt.State.{AppState}
use smqtt.Exec as Exec
use smqtt.Exec.{Action, modify, gets, ok_or, raise_if}
use smqtt.Task.{Task, atom, ret, catch, ◌>>=◌, ◌>>◌}
use smqtt.Crypto.{verify}
use smqtt.Db.Users.{get_user}
use smqtt.Broker.AuthHook.{
  ConnectInfo, Subscribe, HookResult, ReturnType, Parameter, client_authenticate,
  client_subscribe_check_acl, client_disconnected, other, password_text, auth_answer, may_subscribe,
  subscribe_success, subscribe_failure,
}

-- The token of a connection, checked for its signature, its expiry and its device.
unfoldable pub read_claims : AppState → ConnectInfo → Action Claims
unfolding Exec.◌>>=◌ password_text
read_claims state connect_info =
    Exec.◌>>=◌ (ok_or unauthorized (password_text connect_info)) λ token.
      Exec.◌>>=◌ (verify state token) λ claims.
        Exec.◌>>=◌ (raise_if (not (connect_info.client_id == claims.dev)) unauthorized)
          λ u. Exec.pure claims

unfoldable pub admit : AppState → ConnectInfo → Task (Unit {0})
admit state connect_info = do
  claims ← atom (read_claims state connect_info)
  user ← atom (get_user claims.sub)
  atom (raise_if user.suspended unauthorized)
  atom (raise_if (ltb_ℤ (as_i64 claims.iat) user.tokens_valid_from) unauthorized)
  atom (modify (λ w. record w { sessions = insert connect_info.client_id claims w.sessions }))

unfoldable pub check_subscribe_acl : Text → Subscribe → Task ReturnType
check_subscribe_acl client_id subscribe = do
  session ← atom (gets (λ w. get client_id w.sessions))
  ret (
      if may_subscribe subscribe.topic_filter session
      then (true, some (subscribe_success subscribe.qos))
      else (false, some subscribe_failure))

unfoldable pub hook : AppState → Parameter → Option HookResult → Task ReturnType
hook state (client_authenticate connect_info) acc = catch (admit state connect_info) auth_answer
hook state (client_subscribe_check_acl client_id subscribe) acc =
    check_subscribe_acl client_id subscribe
hook state (client_disconnected client_id) acc = do
  atom (modify (λ w. record w { sessions = remove client_id w.sessions }))
  ret (true, acc)
hook state other acc = ret (true, acc)
