-- ===== src/System/Safety.antt =====
-- What holds in every reachable state.
use smqtt.Prelude.{Bool, Option, Text, text_eq}
use smqtt.Foreign.{Foreign}
use smqtt.Rows.{Database, empty_database}
use smqtt.State.{AppState, World}
use smqtt.Exec.{◌>>=◌}
use smqtt.Exec.Keeps.{Keeps, keeps_rules}
use smqtt.Db.Invariant.{IsValid}
use smqtt.Db.Stable.{Stable}
use smqtt.Db.Statements
use smqtt.Db.Keeps.{get_user-Keeps, purge_expired_exchanges-Keeps}
use smqtt.Broker.Keeps.{crypto_verify-Keeps}
use smqtt.Api.Keeps.{dispatch-Keeps}
use smqtt.Main.{purge_tick}
use smqtt.Broker.AuthHook.{
  ConnectInfo, HookResult, Parameter, client_authenticate, client_subscribe_check_acl,
  client_disconnected, other, admit, authenticate, check_subscribe_acl, hook,
}
use smqtt.System.{Step, request, broker_event, purge, Reach, here, next, Any}

module _ (state : AppState) {Allowed : Bool → Text → Type 0} {P : Database → Type 0}
    (st : Stable state.ext Allowed P) where
  admit-Keeps : (info : ConnectInfo) → Keeps P (admit state info)
  unfolding admit ◌>>=◌
  admit-Keeps info = search (keeps_rules, get_user-Keeps, crypto_verify-Keeps) depth 12

  hook-Keeps :
      (param : Parameter) (acc : Option HookResult) (w : World)
      → P w.db
      → P (hook state param acc w).1.db
  unfolding hook authenticate check_subscribe_acl
  hook-Keeps (client_authenticate info) acc w h = (admit-Keeps info).at w h
  hook-Keeps (client_subscribe_check_acl client_id subscribe) acc w h = h
  hook-Keeps (client_disconnected client_id) acc w h = h
  hook-Keeps other acc w h = h

  pub purge_tick-Keeps : Keeps P purge_tick
  unfolding purge_tick
  purge_tick-Keeps = search (keeps_rules, purge_expired_exchanges-Keeps)

  Step-Stable : {u v : World} → Step state Allowed u v → P u.db → P v.db
  Step-Stable (request headers call w permitted) h =
      (dispatch-Keeps state st headers call permitted).at w h
  Step-Stable (broker_event param acc w) h = hook-Keeps param acc w h
  Step-Stable (purge w) h = purge_tick-Keeps.at w h

  pub Reach-Stable : {u v : World} → P u.db → Reach state Allowed u v → P v.db
  Reach-Stable h here = h
  Reach-Stable h (next r s) = Step-Stable s (Reach-Stable h r)

pub IsValid-Stable : (ext : Foreign) → Stable ext Any (IsValid ext)
IsValid-Stable ext = record {
  user_in = λ u db v. Statements.insert_user-IsValid ext db v u;
  valid_from_set = λ now id db v. Statements.update_valid_from-IsValid ext db v now id;
  suspended_set = λ b reason id db a v. Statements.update_suspended-IsValid ext db v b reason id;
  device_in = λ d db k v. Statements.insert_device-IsValid ext db v d k;
  relationship_in = λ r db v. Statements.insert_relationship-IsValid ext db v r;
  relationship_out = λ u r db v. Statements.remove_relationship-IsValid ext db v u r;
  exchange_in = λ x db k n v. Statements.insert_exchange-IsValid ext db v x k;
  responder_set = λ k x db s v. Statements.update_responder-IsValid ext db v k x s;
  exchange_out = λ x db v. Statements.remove_exchange-IsValid ext db v x;
  expired_out = λ now db v. Statements.remove_expired-IsValid ext db v now;
  token_in = λ t db k v. Statements.insert_token-IsValid ext db v t k;
  token_used = λ t now db v. Statements.use_token-IsValid ext db v t now;
}

-- From a well-formed database, every sequence of requests, broker events and purges leads to a
-- well-formed one: keys are unique, every device, relationship and exchange belongs to a user,
-- device keys are valid Ed25519 keys, exchange keys have 32 bytes, and no registration token was
-- used more often than it may be.
pub Reach-IsValid :
    (state : AppState) {u v : World}
    → IsValid state.ext u.db
    → Reach state Any u v
    → IsValid state.ext v.db
Reach-IsValid state h r = Reach-Stable state (IsValid-Stable state.ext) h r

-- An empty database is well formed.
pub empty-IsValid : (ext : Foreign) → IsValid ext empty_database
empty-IsValid ext = record {
  users_unique = tt;
  devices_unique = tt;
  relationships_unique = tt;
  exchanges_unique = tt;
  tokens_unique = tt;
  devices_owned = tt;
  relationships_owned = tt;
  exchanges_owned = tt;
  devices_keyed = tt;
  exchanges_keyed = tt;
  tokens_within = tt;
}
