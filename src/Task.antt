-- ===== src/Task.antt =====
-- A handler that may be interrupted: tokio can run other handlers between its accesses to the
-- shared state. A task is done, or it takes one atomic step and goes on as what that step saw.
pub mod Run
pub mod Safe
pub mod Refuses
use smqtt.Prelude.{Option}
use smqtt.Error.{Error, Result, ok, err}
use smqtt.State.{World}
use smqtt.Exec.{Action}

pub data Task (A : Type 0) : Type 0 where
  done : Result A → Task A
  -- the next world, and the rest of the task
  step : (World → World) → (World → Task A) → Task A

module _ {A : Type 0} where
  -- An action that nothing interrupts.
  unfoldable pub atom : Action A → Task A
  atom m = step (λ w. (m w).1) (λ w. done (m w).0)

  unfoldable pub ret : A → Task A
  ret a = done (ok a)

  -- A task that nothing interrupts, as an action.
  unfoldable pub run : Task A → Action A
  run (done r) w = (r, w)
  run (step g k) w = run (k w) (g w)

infixl 10 ◌>>=◌ ◌>>◌
unfoldable pub ◌>>=◌ : {A B : Type 0} → Task A → (A → Task B) → Task B
done (ok a) >>= f = f a
done (err e) >>= f = done (err e)
step g k >>= f = step g (λ w. k w >>= f)

abbrev pub ◌>>◌ : {A B : Type 0} → Task A → Task B → Task B
t >> u = t >>= λ _. u

-- `catch` hands the result on, be it an error.
unfoldable pub catch : {A B : Type 0} → Task A → (Result A → B) → Task B
catch (done r) f = done (ok (f r))
catch (step g k) f = step g (λ w. catch (k w) f)

-- A task whose result nobody waits for any more.
abbrev pub forget : {A : Type 0} → Task A → Task (Unit {0})
forget t = t >>= λ _. ret tt
