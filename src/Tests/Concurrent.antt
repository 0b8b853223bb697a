-- ===== src/Tests/Concurrent.antt =====
-- Interleaved runs from the scene of Tests/Scene.antt.
use smqtt.Prelude.{
  ℕ, zero, suc, ◌+◌, ◌≡◌, ◌≢◌, refl, Bool, true, false, Option, none, some, List, [], ◌∷◌, ◌++◌,
  Text, Bytes, text, inl, inr, ◌==◌, text_eq, text_beq, arith, if◌then◌else◌, subst, sym, ap, any,
  leb, Bool-cases,
}
use smqtt.Error.{ok}
use smqtt.Db.Invariant.{IsValid}
use smqtt.State.{AppState, World}
use smqtt.Task.{Task, done, step, atom, forget}
use smqtt.Api.Extractors.{Headers}
use smqtt.Api.Auth.{VerifyRequest}
use smqtt.Api.Router.{Call}
use smqtt.Broker.AuthHook.{ConnectInfo, password_text}
use smqtt.Main.{purge_tick}
use smqtt.System.{Any}
use smqtt.System.Suspension.{IsSuspended, NotLifted}
use smqtt.Concurrent.Api.{dispatch, verify}
use smqtt.Concurrent.Pool.{Server, request, purge, advance, Runs, here, later, idle}
use smqtt.Concurrent.Schedule.{tick, ticks}
use smqtt.Concurrent.Beside.{Served}
use smqtt.Concurrent.Interleaved.{Runs-IsSuspended, Runs-IsValid}
use smqtt.Concurrent.Refused.{suspended_served_no_token}
use smqtt.Tests.Sample.{toy, put, put_all, put_list, write_claims}
use smqtt.Tests.Scene.{alice, phone, nonce, phone_key, server, scene, scene_with, alice_token}

-- A step of one of the tasks is a turn, or none where the task is done.
tick-Runs :
    (state : AppState) (Allowed : Bool → Text → Type 0) (s : Server)
    (before after : List (Task (Unit {0}))) (t : Task (Unit {0})) (w : World)
    → Runs state Allowed s (record { world = w; running = before ++ t ∷ after })
    → Runs state Allowed s
        (record { world = (tick t w).1; running = before ++ (tick t w).0 ∷ after })
unfolding tick
tick-Runs state Allowed s before after (done r) w runs = runs
tick-Runs state Allowed s before after (step g k) w runs =
    later runs (advance before after g k refl)

pub ticks-Runs :
    (state : AppState) (Allowed : Bool → Text → Type 0) (s : Server) (n : ℕ) (t : Task (Unit {0}))
    (w : World)
    → Runs state Allowed s (record { world = w; running = t ∷ [] })
    → Runs state Allowed s (record { world = (ticks n t w).1; running = (ticks n t w).0 ∷ [] })
unfolding ticks
ticks-Runs state Allowed s zero t w runs = runs
ticks-Runs state Allowed s (suc n) t w runs =
    ticks-Runs state Allowed s n _ _ (tick-Runs state Allowed s [] [] t w runs)

abbrev pub anonymous : Headers
anonymous name = none

-- Alice's request for a challenge, and a purge between its first two steps.
abbrev asking : Task (Unit {0})
asking = forget (dispatch server anonymous (Call.challenge alice))

abbrev asked : World → Task (Unit {0}) × World
asked w = tick asking w

abbrev purged : World → Task (Unit {0}) × World
purged w = tick (atom purge_tick) (asked w).1

abbrev pub busy : World → Server
busy w = record {
  world = (tick (asked w).0 (purged w).1).1;
  running = (tick (asked w).0 (purged w).1).0 ∷ (purged w).0 ∷ [];
}

pub busy-Runs : (Allowed : Bool → Text → Type 0) (w : World) → Runs server Allowed (idle w) (busy w)
busy-Runs Allowed w =
    let first = later here (request anonymous (Call.challenge alice) tt) in
    let second = later (tick-Runs server Allowed (idle w) [] [] asking w first) purge in
    let third =
      tick-Runs server Allowed (idle w) ((asked w).0 ∷ []) [] (atom purge_tick) (asked w).1
        second in
    tick-Runs server Allowed (idle w) [] ((purged w).0 ∷ []) (asked w).0 (purged w).1 third

scene-IsValid : IsValid toy scene.db
unfolding text_beq
scene-IsValid = record {
  users_unique = (refl, (refl, tt));
  devices_unique = (refl, (refl, tt));
  relationships_unique = (refl, tt);
  exchanges_unique = (refl, (refl, tt));
  tokens_unique = (refl, tt);
  devices_owned = (refl, (refl, tt));
  relationships_owned = (refl, tt);
  exchanges_owned = (refl, (refl, tt));
  devices_keyed = ((refl, refl), ((refl, refl), tt));
  exchanges_keyed = ((refl, tt), ((refl, refl), tt));
  tokens_within = ((ground arith, inl refl), tt);
}

Runs-IsValid_example : IsValid toy (busy scene).world.db
Runs-IsValid_example = Runs-IsValid server scene-IsValid (busy-Runs Any scene)

abbrev pub signed : VerifyRequest
signed = record { user_id = alice; device_id = phone; signature = phone_key ++ nonce }

alice-IsSuspended : IsSuspended alice (scene_with true).db
unfolding text_beq
alice-IsSuspended = refl

abbrev pub locked : Server
locked = busy (scene_with true)

pub locked-IsSuspended : IsSuspended alice locked.world.db
locked-IsSuspended =
    Runs-IsSuspended server alice alice-IsSuspended (busy-Runs (NotLifted alice) (scene_with true))

suspended_served_no_token_example :
    ¬ (Served server (NotLifted alice) locked (verify server signed) (ok (text "token")) locked)
suspended_served_no_token_example =
    suspended_served_no_token server alice signed (text "token")
      (busy-Runs (NotLifted alice) (scene_with true)) locked-IsSuspended refl

abbrev connecting : ConnectInfo
connecting = record { client_id = phone; password = some alice_token }

given : password_text connecting ≡ some alice_token
unfolding password_text smqtt.Prelude.from_utf8 put write_claims put_list put_all
given = refl
