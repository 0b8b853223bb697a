-- ===== src/Exec/Frame.antt =====
-- What an action leaves alone: a part of the world outside the database and the oracle.
use smqtt.Prelude.{ℕ, ◌≡◌, refl, ◌∙◌, Bool, true, false, Option, none, some, if◌then◌else◌}
use smqtt.Error.{Error, Result, ok, err, unavailable, database}
use smqtt.Rows.{Database}
use smqtt.State.{World, next}
use smqtt.Exec.{
  Action, pure, raise, lift, gets, attempt, ok_or, raise_if, continue, ◌>>=◌, unix_now, new_uuid,
  fill_bytes, run_query, fetch, outcome,
}

pub record IsSide {X : Type 0} (view : World → X) : Type 0 where
  pub asked : (w : World) → view (next w) ≡ view w
  pub stored : (w : World) (db : Database) → view (record w { db = db }) ≡ view w

pub record Frames {X A : Type 0} (view : World → X) (m : Action A) : Type 0 where
  pub at : (w : World) → view (m w).1 ≡ view w

module _ {X : Type 0} {view : World → X} {A : Type 0} where
  pub Frames-pure : (a : A) → Frames view (pure a)
  unfolding pure
  Frames-pure a = record { at = λ w. refl }

  pub Frames-raise : (e : Error) → Frames view (raise {A = A} e)
  unfolding raise
  Frames-raise e = record { at = λ w. refl }

  pub Frames-lift : (r : Result A) → Frames view (lift r)
  unfolding lift
  Frames-lift r = record { at = λ w. refl }

  pub Frames-gets : (f : World → A) → Frames view (gets f)
  unfolding gets
  Frames-gets f = record { at = λ w. refl }

  pub Frames-attempt : (m : Action A) → Frames view m → Frames view (attempt m)
  unfolding attempt
  Frames-attempt m k = record { at = k.at }

  pub Frames-ok_or : (e : Error) (o : Option A) → Frames view (ok_or e o)
  unfolding ok_or
  Frames-ok_or e none = record { at = λ w. refl }
  Frames-ok_or e (some a) = record { at = λ w. refl }

  outcome-view :
      IsSide view → (o : Option (A × Database)) (w : World) → view (outcome o w).1 ≡ view w
  outcome-view side none w = refl
  outcome-view side (some (a, db')) w = side.stored w db'

  pub Frames-run_query :
      IsSide view → (q : Database → Option (A × Database)) → Frames view (run_query q)
  unfolding run_query
  Frames-run_query side q = record {
    at = λ w.
        elim (w.oracle.fails w.oracle.asked)
          as (λ b.
            view (if b then (err (database unavailable), next w) else outcome (q w.db) (next w)).1
            ≡ view w) [
              | true ↦ side.asked w
              | false ↦ outcome-view side (q w.db) (next w) ∙ side.asked w
            ];
  }

  pub Frames-fetch : IsSide view → (f : Database → A) → Frames view (fetch f)
  unfolding fetch
  Frames-fetch side f = Frames-run_query side (λ db. some (f db, db))

module _ {X : Type 0} {view : World → X} where
  pub Frames-unix_now : IsSide view → Frames view unix_now
  unfolding unix_now
  Frames-unix_now side = record { at = side.asked }

  pub Frames-new_uuid : IsSide view → Frames view new_uuid
  unfolding new_uuid
  Frames-new_uuid side = record { at = side.asked }

  pub Frames-fill_bytes : IsSide view → (n : ℕ) → Frames view (fill_bytes n)
  unfolding fill_bytes
  Frames-fill_bytes side n = record { at = side.asked }

  pub Frames-raise_if : (b : Bool) (e : Error) → Frames view (raise_if b e)
  unfolding raise_if
  Frames-raise_if b e = record { at = λ w. refl }

module _ {X A B : Type 0} {view : World → X} where
  Frames-continue :
      (r : Result A) (f : A → Action B) → ((a : A) → Frames view (f a)) → Frames view (continue r f)
  Frames-continue (ok a) f kf = record { at = (kf a).at }
  Frames-continue (err e) f kf = record { at = λ w. refl }

  pub Frames-bind :
      (m : Action A) (f : A → Action B)
      → Frames view m
      → ((a : A) → Frames view (f a))
      → Frames view (m >>= f)
  unfolding ◌>>=◌
  Frames-bind m f km kf = record { at = λ w. (Frames-continue (m w).0 f kf).at (m w).1 ∙ km.at w }

  -- What follows `m` leaves the view as `m` left it.
  pub view-bind :
      (m : Action A) (f : A → Action B)
      → ((a : A) → Frames view (f a))
      → (w : World) → view ((m >>= f) w).1 ≡ view (m w).1
  unfolding ◌>>=◌
  view-bind m f kf w = (Frames-continue (m w).0 f kf).at (m w).1

pub ruleset frame_rules = (
  Frames-pure, Frames-raise, Frames-lift, Frames-gets, Frames-attempt, Frames-ok_or,
  Frames-run_query, Frames-fetch, Frames-unix_now, Frames-new_uuid, Frames-fill_bytes,
  Frames-raise_if, Frames-bind,
)
