-- ===== src/Concurrent/Steady.antt =====
-- Properties that each step of each handler keeps, and the running server.
use smqtt.Prelude.{Bool, Option, List, [], ◌∷◌, ◌++◌, Text, subst, All, All-append}
use smqtt.Rows.{Database}
use smqtt.State.{AppState, World}
use smqtt.Task.{Task, atom, forget}
use smqtt.Task.Safe.{Safe, Safe-now, Safe-next, Safe-bind, Safe-ret, Safe-Keeps}
use smqtt.Db.Stable.{Stable}
use smqtt.Api.Extractors.{Headers}
use smqtt.Api.Router.{Call}
use smqtt.Api.Keeps.{Permits}
use smqtt.Broker.AuthHook.{Parameter, HookResult}
use smqtt.Concurrent.Api.{dispatch}
use smqtt.Concurrent.Hook.{hook}
use smqtt.Main.{purge_tick}
use smqtt.System.Safety.{purge_tick-Keeps}
use smqtt.Concurrent.Safety.{dispatch-Safe, hook-Safe}
use smqtt.Concurrent.Pool.{
  Server, spawn, Turn, request, broker_event, purge, advance, leave, Runs, here, later, idle,
}

abbrev pub AreSafe : (World → Type 0) → List (Task (Unit {0})) → Type 0
AreSafe P ts = All (Safe P) ts

module _ {P : World → Type 0} where
  -- The task in the middle may be replaced by tasks that are safe if it is.
  AreSafe-replace :
      (ts : List (Task (Unit {0}))) (t : Task (Unit {0})) (us vs : List (Task (Unit {0})))
      → (Safe P t → AreSafe P us → AreSafe P vs)
      → AreSafe P (ts ++ t ∷ us)
      → AreSafe P (ts ++ vs)
  AreSafe-replace [] t us vs f h = f h.0 h.1
  AreSafe-replace (s ∷ ts) t us vs f h = (h.0, AreSafe-replace ts t us vs f h.1)

  AreSafe-middle :
      (ts : List (Task (Unit {0}))) (t : Task (Unit {0})) (us : List (Task (Unit {0})))
      → AreSafe P (ts ++ t ∷ us)
      → Safe P t
  AreSafe-middle [] t us h = h.0
  AreSafe-middle (s ∷ ts) t us h = AreSafe-middle ts t us h.1

  Safe-forget : {A : Type 0} (t : Task A) → Safe P t → Safe P (forget t)
  Safe-forget t h = Safe-bind t _ h (λ a. Safe-ret tt)

-- The world is well and every handler under way keeps it so.
abbrev pub Steady : (World → Type 0) → Server → Type 0
Steady P s = P s.world × AreSafe P s.running

-- Every handler keeps `P` in each of its steps.
pub record Serves (state : AppState) (Allowed : Bool → Text → Type 0) (P : World → Type 0)
    : Type 0 where
  pub requests :
      (headers : Headers) (call : Call)
      → Permits Allowed call
      → Safe P (dispatch state headers call)
  pub events : (param : Parameter) (acc : Option HookResult) → Safe P (hook state param acc)
  pub purges : Safe P (atom purge_tick)

module _ (state : AppState) {Allowed : Bool → Text → Type 0} {P : World → Type 0}
    (sv : Serves state Allowed P) where
  spawn-Steady : (t : Task (Unit {0})) (s : Server) → Safe P t → Steady P s → Steady P (spawn t s)
  spawn-Steady t s safe h = (h.0, All-append (Safe P) s.running (t ∷ []) h.1 (safe, tt))

  -- What a handler under way does is safe whether or not `P` holds yet.
  Turn-AreSafe : {s u : Server} → Turn state Allowed s u → AreSafe P s.running → AreSafe P u.running
  Turn-AreSafe {s} (request headers call permitted) h =
      All-append (Safe P) s.running (_ ∷ []) h
        (Safe-forget _ (sv.requests headers call permitted), tt)
  Turn-AreSafe {s} (broker_event param acc) h =
      All-append (Safe P) s.running (_ ∷ []) h (Safe-forget _ (sv.events param acc), tt)
  Turn-AreSafe {s} purge h = All-append (Safe P) s.running (_ ∷ []) h (sv.purges, tt)
  Turn-AreSafe {s} (advance before after g k e) h =
      AreSafe-replace before _ after _ (λ safe rest. (Safe-next g k s.world safe, rest))
        (subst (AreSafe P) e h)
  Turn-AreSafe {s} (leave before after t e) h =
      AreSafe-replace before t after after (λ safe rest. rest) (subst (AreSafe P) e h)

  pub Runs-AreSafe :
      {s u : Server} → AreSafe P s.running → Runs state Allowed s u → AreSafe P u.running
  Runs-AreSafe h here = h
  Runs-AreSafe h (later r t) = Turn-AreSafe t (Runs-AreSafe h r)

  -- A turn keeps `P`, if the handlers under way do.
  Turn-keeps : {s u : Server} → Turn state Allowed s u → AreSafe P s.running → P s.world → P u.world
  Turn-keeps (request headers call permitted) safe h = h
  Turn-keeps (broker_event param acc) safe h = h
  Turn-keeps purge safe h = h
  Turn-keeps {s} (advance before after g k e) safe h =
      Safe-now g k s.world (AreSafe-middle before _ after (subst (AreSafe P) e safe)) h
  Turn-keeps (leave before after t e) safe h = h

  pub Runs-Steady : {s u : Server} → Steady P s → Runs state Allowed s u → Steady P u
  Runs-Steady h here = h
  Runs-Steady h (later r t) =
      let before = Runs-Steady h r in (Turn-keeps t before.1 before.0, Turn-AreSafe t before.1)

  -- What every handler keeps step by step holds under every interleaving.
  pub Runs-Serves : {w : World} {u : Server} → P w → Runs state Allowed (idle w) u → P u.world
  Runs-Serves h r = (Runs-Steady (h, tt) r).0

-- What the SQL statements keep, every handler keeps.
pub Stable-Serves :
    (state : AppState) {Allowed : Bool → Text → Type 0} {P : Database → Type 0}
    → Stable state.ext Allowed P
    → Serves state Allowed (λ w. P w.db)
Stable-Serves state st = record {
  requests = dispatch-Safe state st;
  events = hook-Safe state st;
  purges = Safe-Keeps _ (purge_tick-Keeps state st);
}

-- What the SQL statements keep holds of the database under every interleaving.
pub Runs-Stable :
    (state : AppState) {Allowed : Bool → Text → Type 0} {P : Database → Type 0}
    → Stable state.ext Allowed P
    → {w : World} {u : Server} → P w.db
    → Runs state Allowed (idle w) u
    → P u.world.db
Runs-Stable state {P} st h r = Runs-Serves state {P = λ w. P w.db} (Stable-Serves state st) h r
