-- ===== src/Concurrent/Granted.antt =====
-- Subscriptions and the tokens behind them, step by step (broker/auth_hook.rs).
use smqtt.Prelude.{
  ◌≡◌, Bool, true, Option, some, [], Text, ◌==◌, text_eq, text_beq_iff, subst, sym, arith, any,
  Option-cases, inl, inr,
}
use smqtt.Error.{ok}
use smqtt.Claims.{Claims}
use smqtt.Map.{get, insert, remove}
use smqtt.State.{AppState, World}
use smqtt.Exec.{modify, raise_if, unix_now, ◌>>=◌}
use smqtt.Task.{atom}
use smqtt.Task.Safe.{Safe, Safe-atom, Safe-post, Safe-bind, Safe-ret, Safe-catch}
use smqtt.Crypto as Crypto
use smqtt.Db.Users.{get_user}
use smqtt.Broker.AuthHook.{
  ConnectInfo, Subscribe, HookResult, Parameter, client_authenticate, client_subscribe_check_acl,
  client_disconnected, other, password_text, check_subscribe_acl, subscribe_success,
}
use smqtt.Broker.AuthHook.Outcome.{subscribe_iff}
use smqtt.Api.Sessions.{Quiet, quiet}
use smqtt.System.{Any}
use smqtt.System.Sessions.{
  IsGenuine, AreGenuine, AreGenuine-insert, AreGenuine-remove, purge_tick-Quiet,
}
use smqtt.Concurrent.Hook as Hook
use smqtt.Concurrent.Hook.{read_claims}
use smqtt.Concurrent.Pool.{Server, Runs, idle}
use smqtt.Concurrent.Steady.{Serves, Runs-Serves}
use smqtt.Concurrent.Sessions.{Quiet-Safe, dispatch-Safe}

module _ (state : AppState) where
  read_claims-Quiet : (info : ConnectInfo) → Quiet (read_claims state info)
  unfolding read_claims Crypto.verify
  read_claims-Quiet info = search quiet depth 12

  get_user-Quiet : (user_id : Text) → Quiet (get_user user_id)
  unfolding get_user
  get_user-Quiet user_id = search quiet

  read_claims-IsGenuine :
      (info : ConnectInfo) (w : World) (claims : Claims)
      → (read_claims state info w).0 ≡ ok claims
      → IsGenuine state info.client_id claims
  unfolding read_claims ◌>>=◌ Crypto.verify unix_now
  read_claims-IsGenuine info w claims e = elim (Option-cases (password_text info)) [
    | inl missing ↦ absurd (ground arith)
    | inr (token, given) ↦
        elim (Option-cases
          (state.ext.jwt_decode state.jwt_keys (w.oracle.clock w.oracle.asked) token)) [
            | inl bad ↦ absurd (ground arith)
            | inr (c, decoded) ↦ record {
              bound = ground (arith, given, decoded, text_beq_iff info.client_id claims.dev);
              token = token;
              time = w.oracle.clock w.oracle.asked;
              decoded = ground (arith, given, decoded);
            }
          ]
  ]

  set_session-Safe :
      (id : Text) (c : Claims)
      → IsGenuine state id c
      → Safe
          (λ w. AreGenuine state w.sessions)
          (atom (modify (λ w. record w { sessions = insert id c w.sessions })))
  unfolding modify
  set_session-Safe id c new = Safe-atom _ (λ w h. AreGenuine-insert state id c w.sessions new h)

  guard-Safe :
      (b : Bool) (e : smqtt.Error.Error)
      → Safe (λ w. AreGenuine state w.sessions) (atom (raise_if b e))
  guard-Safe b e = Quiet-Safe state (AreGenuine state) _ (search quiet)

  admit-Safe :
      (info : ConnectInfo) → Safe (λ w. AreGenuine state w.sessions) (Hook.admit state info)
  unfolding Hook.admit
  admit-Safe info =
      Safe-post (IsGenuine state info.client_id) _ _
        (λ w h. subst (AreGenuine state) (sym ((read_claims-Quiet info).at w)) h)
        (read_claims-IsGenuine info)
        λ c new.
          Safe-bind _ _ (Quiet-Safe state (AreGenuine state) _ (get_user-Quiet c.sub)) λ user.
            Safe-bind _ _ (guard-Safe _ _)
              λ u. Safe-bind _ _ (guard-Safe _ _) λ v. set_session-Safe info.client_id c new

  drop_session-Safe :
      (id : Text)
      → Safe
          (λ w. AreGenuine state w.sessions)
          (atom (modify (λ w. record w { sessions = remove id w.sessions })))
  unfolding modify
  drop_session-Safe id = Safe-atom _ (λ w h. AreGenuine-remove state id w.sessions h)

  hook-Safe :
      (param : Parameter) (acc : Option HookResult)
      → Safe (λ w. AreGenuine state w.sessions) (Hook.hook state param acc)
  unfolding Hook.hook Hook.check_subscribe_acl
  hook-Safe (client_authenticate info) acc = Safe-catch _ _ (admit-Safe info)
  hook-Safe (client_subscribe_check_acl client_id s) acc =
      Safe-bind _ _ (Quiet-Safe state (AreGenuine state) _ (search quiet)) (λ r. Safe-ret _)
  hook-Safe (client_disconnected client_id) acc =
      Safe-bind _ _ (drop_session-Safe client_id) (λ u. Safe-ret _)
  hook-Safe other acc = Safe-ret _

  AreGenuine-Serves :
      {Allowed : Bool → Text → Type 0} → Serves state Allowed (λ w. AreGenuine state w.sessions)
  AreGenuine-Serves = record {
    requests = λ headers call permitted. dispatch-Safe state (AreGenuine state) headers call;
    events = hook-Safe;
    purges = Quiet-Safe state (AreGenuine state) _ (purge_tick-Quiet state);
  }

-- However the steps of requests, broker events and purges were interleaved since the server started
-- without sessions: a subscription is granted only to a client that has a session, whose claims name
-- the topic among those to subscribe to, are bound to the device of this client id, and are what the
-- server's key verified of a token at some time.
pub granted_by_token_interleaved :
    (state : AppState) {w : World} {u : Server} (client_id : Text) (s : Subscribe)
    → w.sessions ≡ []
    → Runs state Any (idle w) u
    → (check_subscribe_acl client_id s u.world).0 ≡ (true, some (subscribe_success s.qos))
    → (claims : Claims) × (get client_id u.world.sessions ≡ some claims)
      × (any (λ t. t == s.topic_filter) claims.sub_topics ≡ true)
      × IsGenuine state client_id claims
unfolding get
granted_by_token_interleaved state {w} {u} client_id s fresh runs granted =
    let (claims, found, named) = (subscribe_iff client_id s u.world).0 granted in
    let start = subst (AreGenuine state) (sym fresh) (λ j d h. absurd (cc (h))) in
    (
      claims,
      found,
      named,
      Runs-Serves state {P = λ w. AreGenuine state w.sessions} (AreGenuine-Serves state) start runs
          client_id claims found,
    )
