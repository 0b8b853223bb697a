-- ===== src/System/Sessions.antt =====
-- What the sessions of the broker hold in every reachable state.
use smqtt.Prelude.{
  ℕ, ◌≡◌, Bool, true, Option, some, [], Text, ◌==◌, text_eq, text_beq_iff, arith, subst, sym, inl,
  inr, any, Bool-cases,
}
use smqtt.Claims.{Claims}
use smqtt.Map.{DashMap, get, insert, remove, get-insert, get-remove}
use smqtt.State.{AppState, World}
use smqtt.Exec.Frame.{frame_rules}
use smqtt.Db.Exchanges.{purge_expired_exchanges}
use smqtt.Api.Sessions.{dispatch-Quiet, Quiet, sessions-IsSide}
use smqtt.Broker.AuthHook.{
  ConnectInfo, Subscribe, HookResult, Parameter, client_authenticate, client_subscribe_check_acl,
  client_disconnected, other, authenticate, check_subscribe_acl, subscribe_success, hook,
}
use smqtt.Broker.AuthHook.Outcome.{authenticate_cases, subscribe_iff}
use smqtt.Main.{purge_tick}
use smqtt.System.{Step, request, broker_event, purge, Reach, here, next, Any}

-- The client's claims were read from a token that the server signed for the device of this client id.
pub record IsGenuine (state : AppState) (client_id : Text) (claims : Claims) : Type 0 where
  pub bound : claims.dev ≡ client_id
  pub token : Text
  pub time : ℕ
  pub decoded : state.ext.jwt_decode state.jwt_keys time token ≡ some claims

abbrev pub AreGenuine : AppState → DashMap Claims → Type 0
AreGenuine state sessions =
    (client_id : Text) (claims : Claims)
    → get client_id sessions ≡ some claims
    → IsGenuine state client_id claims

module _ (state : AppState) where
  pub AreGenuine-insert :
      (id : Text) (c : Claims) (m : DashMap Claims)
      → IsGenuine state id c
      → AreGenuine state m
      → AreGenuine state (insert id c m)
  AreGenuine-insert id c m new old j d h = elim (Bool-cases (id == j)) [
    | inl same ↦
        let e : id ≡ j = (text_beq_iff id j).0 same in
        let k : c ≡ d = ground (arith, get-insert id j c m) in
        subst (λ i. IsGenuine state i d) e (subst (IsGenuine state id) k new)
    | inr different ↦ old j d (ground (arith, get-insert id j c m))
  ]

  pub AreGenuine-remove :
      (id : Text) (m : DashMap Claims) → AreGenuine state m → AreGenuine state (remove id m)
  AreGenuine-remove id m old j d h = old j d (ground (arith, get-remove id j m))

  authenticate-AreGenuine :
      (info : ConnectInfo) (w : World)
      → AreGenuine state w.sessions
      → AreGenuine state (authenticate state info w).1.sessions
  authenticate-AreGenuine info w old = elim (authenticate_cases state info w) [
    | inl (c, a, e) ↦
        let new : IsGenuine state info.client_id c = record {
          bound = sym a.bound;
          token = a.token;
          time = _;
          decoded = a.decoded;
        } in
        subst (λ r. AreGenuine state r.1.sessions) (sym e)
          (AreGenuine-insert info.client_id c w.sessions new old)
    | inr (refused, s, d) ↦ subst (AreGenuine state) (sym s) old
  ]

  hook-AreGenuine :
      (param : Parameter) (acc : Option HookResult) (w : World)
      → AreGenuine state w.sessions
      → AreGenuine state (hook state param acc w).1.sessions
  unfolding hook check_subscribe_acl
  hook-AreGenuine (client_authenticate info) acc w h = authenticate-AreGenuine info w h
  hook-AreGenuine (client_subscribe_check_acl client_id subscribe) acc w h = h
  hook-AreGenuine (client_disconnected client_id) acc w h = AreGenuine-remove client_id w.sessions h
  hook-AreGenuine other acc w h = h

  pub purge_tick-Quiet : Quiet purge_tick
  unfolding purge_tick purge_expired_exchanges
  purge_tick-Quiet = search (frame_rules, sessions-IsSide) depth 12

  Step-AreGenuine :
      {Allowed : Bool → Text → Type 0} {u v : World}
      → Step state Allowed u v
      → AreGenuine state u.sessions
      → AreGenuine state v.sessions
  Step-AreGenuine (request headers call w permitted) h =
      subst (AreGenuine state) (sym ((dispatch-Quiet state headers call).at w)) h
  Step-AreGenuine (broker_event param acc w) h = hook-AreGenuine param acc w h
  Step-AreGenuine (purge w) h = subst (AreGenuine state) (sym (purge_tick-Quiet.at w)) h

  Reach-AreGenuine :
      {Allowed : Bool → Text → Type 0} {u v : World}
      → AreGenuine state u.sessions
      → Reach state Allowed u v
      → AreGenuine state v.sessions
  Reach-AreGenuine h here = h
  Reach-AreGenuine h (next r s) = Step-AreGenuine s (Reach-AreGenuine h r)

-- Whatever has happened since the server started without sessions: a subscription is granted only to
-- a client whose session stems from a token that the server's key verifies, which is bound to the
-- device of this client id and names the topic among those to subscribe to.
pub granted_by_token :
    (state : AppState) {u v : World} (client_id : Text) (s : Subscribe)
    → u.sessions ≡ []
    → Reach state Any u v
    → (check_subscribe_acl client_id s v).0 ≡ (true, some (subscribe_success s.qos))
    → (claims : Claims) × IsGenuine state client_id claims
      × (any (λ t. t == s.topic_filter) claims.sub_topics ≡ true)
unfolding get
granted_by_token state {u} {v} client_id s fresh r granted =
    let (claims, found, named) = (subscribe_iff client_id s v).0 granted in
    let start = subst (AreGenuine state) (sym fresh) (λ j d h. absurd (cc (h))) in
    (claims, Reach-AreGenuine state start r client_id claims found, named)
