-- ===== src/Task/Run.antt =====
-- What an uninterrupted task does.
use smqtt.Prelude.{◌≡◌, refl}
use mathlib.Core.Path.{fun_ext}
use smqtt.Error.{Result, ok, err}
use smqtt.State.{World}
use smqtt.Exec as Exec
use smqtt.Exec.{Action, ◌>>=◌ as and_then}
use smqtt.Task.{Task, done, step, atom, ret, run, ◌>>=◌, catch}

pub run-atom : {A : Type 0} (m : Action A) → run (atom m) ≡ m
unfolding run atom
run-atom m = refl

pub run-ret : {A : Type 0} (a : A) → run (ret a) ≡ Exec.pure a
unfolding run ret Exec.pure
run-ret a = refl

run-bind_at :
    {A B : Type 0} (t : Task A) (f : A → Task B) (w : World)
    → run (t >>= f) w ≡ and_then (run t) (λ a. run (f a)) w
unfolding run ◌>>=◌ and_then
run-bind_at (done (ok a)) f w = refl
run-bind_at (done (err e)) f w = refl
run-bind_at (step g k) f w = run-bind_at (k w) f (g w)

pub run-bind :
    {A B : Type 0} (t : Task A) (f : A → Task B) → run (t >>= f) ≡ and_then (run t) (λ a. run (f a))
run-bind t f = fun_ext (run-bind_at t f)

-- The result of an action, handed to `f`.
abbrev pub settle : {A B : Type 0} → (Result A → B) → Action A → Action B
settle f m w = (ok (f (m w).0), (m w).1)

run-catch_at :
    {A B : Type 0} (t : Task A) (f : Result A → B) (w : World)
    → run (catch t f) w ≡ settle f (run t) w
unfolding run catch
run-catch_at (done r) f w = refl
run-catch_at (step g k) f w = run-catch_at (k w) f (g w)

pub run-catch : {A B : Type 0} (t : Task A) (f : Result A → B) → run (catch t f) ≡ settle f (run t)
run-catch t f = fun_ext (run-catch_at t f)
