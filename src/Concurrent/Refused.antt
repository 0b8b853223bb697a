-- ===== src/Concurrent/Refused.antt =====
-- What a user is refused who is suspended when a request or a connection begins (api/auth.rs,
-- broker/auth_hook.rs).
use smqtt.Prelude.{
  ◌≡◌, true, some, Option-cases, inl, inr, Text, text_eq, subst, arith, sym, ℕ, Option,
}
use smqtt.Error.{Result, ok}
use smqtt.Claims.{Claims}
use smqtt.Rows.{User}
use smqtt.State.{AppState, World}
use smqtt.Exec.{fetch, ◌>>=◌, unix_now}
use smqtt.Task.{Task}
use smqtt.Task.Refuses.{
  Refuses, Refuses-Yields, Refuses-bind, Refuses-post, Refuses-then, Refuses-guard, Refuses-catch,
  Yields,
}
use smqtt.Db.Users.{find_user, get_user}
use smqtt.Api.Auth.{VerifyRequest}
use smqtt.System.Suspension.{IsSuspended, NotLifted, IsSuspended-Stable}
use smqtt.Crypto as Crypto
use smqtt.Task.Safe.{Safe}
use smqtt.Broker.AuthHook.{
  ConnectInfo, HookResult, ReturnType, password_text, client_authenticate, deny, auth_answer,
}
use smqtt.Concurrent.Hook as Hook
use smqtt.Concurrent.Hook.{read_claims}
use smqtt.Concurrent.Api as Task
use smqtt.Concurrent.Pool.{Server, Runs, idle}
use smqtt.Concurrent.Safety.{verify-Safe, hook-Safe}
use smqtt.Concurrent.Steady.{Stable-Serves, Runs-AreSafe}
use smqtt.Concurrent.Beside.{Served, Served-Yields}

module _ (user_id : Text) where
  -- A user that is found while suspended is suspended.
  found_suspended :
      (w : World) (user : User)
      → IsSuspended user_id w.db
      → (get_user user_id w).0 ≡ ok user
      → user.suspended ≡ true
  unfolding get_user fetch ◌>>=◌
  found_suspended w user h e = elim (Option-cases (find_user user_id w.db)) [
    | inl missing ↦ absurd (ground arith)
    | inr (x, exists) ↦ ground arith
  ]

  open_session-Refuses : Refuses (λ w. IsSuspended user_id w.db) (Task.open_session user_id)
  unfolding Task.open_session
  open_session-Refuses = Refuses-then _ _ λ c. Refuses-then _ _ λ now. Refuses-then _ _ λ u.
      Refuses-post (λ user. user.suspended ≡ true) _ _ found_suspended
        λ user h. Refuses-guard _ _ _ h

module _ (state : AppState) (user_id : Text) where
  verify-Refuses :
      (req : VerifyRequest)
      → req.user_id ≡ user_id
      → Refuses (λ w. IsSuspended user_id w.db) (Task.verify state req)
  unfolding Task.verify
  verify-Refuses req same = Refuses-bind _ _ (
      subst (λ u. Refuses (λ w. IsSuspended user_id w.db) (Task.open_session u)) (sym same)
        (open_session-Refuses user_id))

  -- The claims that an unexpired token of the connection is decoded to name the user.
  abbrev pub IsTokenOf : ConnectInfo → Type 0
  IsTokenOf info =
      (token : Text) (time : ℕ) (claims : Claims)
      → password_text info ≡ some token
      → state.ext.jwt_decode state.jwt_keys time token ≡ some claims
      → claims.sub ≡ user_id

  read_claims_of :
      (info : ConnectInfo) (w : World) (claims : Claims)
      → IsTokenOf info
      → (read_claims state info w).0 ≡ ok claims
      → claims.sub ≡ user_id
  unfolding read_claims ◌>>=◌ Crypto.verify unix_now
  read_claims_of info w claims of_user e = elim (Option-cases (password_text info)) [
    | inl missing ↦ absurd (ground arith)
    | inr (token, given) ↦
        elim (Option-cases
          (state.ext.jwt_decode state.jwt_keys (w.oracle.clock w.oracle.asked) token)) [
            | inl bad ↦ absurd (ground arith)
            | inr (c, decoded) ↦
                of_user token (w.oracle.clock w.oracle.asked) claims given
                  (ground (arith, decoded, given))
          ]
  ]

  admit-Refuses :
      (info : ConnectInfo)
      → IsTokenOf info
      → Refuses (λ w. IsSuspended user_id w.db) (Hook.admit state info)
  unfolding Hook.admit
  admit-Refuses info of_user =
      Refuses-post (λ c. c.sub ≡ user_id) _ _ (λ w c h e. read_claims_of info w c of_user e)
        λ c same.
          Refuses-post (λ user. user.suspended ≡ true) _ _
            (λ w user h e.
              found_suspended user_id w user h (subst (λ u. (get_user u w).0 ≡ ok user) same e))
            λ user h. Refuses-guard _ _ _ h

  follow-Served :
      {A : Type 0} {w : World} {s u : Server} (t : Task A) (r : Result A)
      → Runs state (NotLifted user_id) (idle w) s
      → IsSuspended user_id s.world.db
      → Safe (λ w. IsSuspended user_id w.db) t
      → Served state (NotLifted user_id) s t r u
      → Yields (λ w. IsSuspended user_id w.db) t r
  follow-Served t r runs h safe served =
      let sv = Stable-Serves state (IsSuspended-Stable state.ext user_id) in
      Served-Yields state sv t r (h, Runs-AreSafe state sv tt runs) safe served

  -- A `verify` that begins while the user is suspended issues no token, in whatever way its steps are
  -- interleaved with those of other requests, of broker events and of purges, among them any number
  -- that were under way when the suspension was set or when the `verify` began; if no request since the
  -- server was last idle lifts this user's suspension. (Of a `verify` that began before the suspension
  -- it says nothing: one that has passed its check goes on.)
  pub suspended_served_no_token :
      (req : VerifyRequest) (token : Text) {w : World} {s u : Server}
      → Runs state (NotLifted user_id) (idle w) s
      → IsSuspended user_id s.world.db
      → req.user_id ≡ user_id
      → ¬ (Served state (NotLifted user_id) s (Task.verify state req) (ok token) u)
  suspended_served_no_token req token runs h same served =
      Refuses-Yields _ token (verify-Refuses req same) (
        follow-Served _ _ runs h (verify-Safe state (IsSuspended-Stable state.ext user_id) req)
          served)

  -- A connection that the broker asks about while the user is suspended is refused, if its token is
  -- none but the user's, in whatever way the steps of the hook are interleaved with those of requests,
  -- of other broker events and of purges, among them any number that were under way when the suspension
  -- was set or when the hook began; if no request since the server was last idle lifts this user's
  -- suspension. (Of a hook that began before the suspension it says nothing: one that has read the user
  -- goes on.)
  pub suspended_served_no_connection :
      (info : ConnectInfo) (acc : Option HookResult) (r : Result ReturnType) {w : World}
      {s u : Server}
      → Runs state (NotLifted user_id) (idle w) s
      → IsSuspended user_id s.world.db
      → IsTokenOf info
      → Served state (NotLifted user_id) s (Hook.hook state (client_authenticate info) acc) r u
      → r ≡ ok deny
  unfolding Hook.hook
  suspended_served_no_connection info acc r runs h of_user served =
      (Refuses-catch _ auth_answer r (admit-Refuses info of_user) (
        follow-Served _ r runs h
          (hook-Safe state (IsSuspended-Stable state.ext user_id) (client_authenticate info) acc)
          served)).1
