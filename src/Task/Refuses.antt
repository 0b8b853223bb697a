-- ===== src/Task/Refuses.antt =====
-- Tasks that come to no result, whatever other tasks do between their steps.
use smqtt.Prelude.{◌≡◌, refl, Bool, true, false}
use smqtt.Error.{Error, Result, ok, err}
use smqtt.State.{World}
use smqtt.Exec.{Action, raise_if}
use smqtt.Task.{Task, done, step, atom, ◌>>=◌, catch}

-- The task ends with an error if `P` holds of the world at each of its steps.
pub data Refuses {A : Type 0} (P : World → Type 0) : Task A → Type 0 where
  at_error : (e : Error) → Refuses P (done (err e))
  at_step :
      (g : World → World) (k : World → Task A)
      → ((w : World) → P w → Refuses P (k w))
      → Refuses P (step g k)

-- A result that the task may come to when `P` holds of the world at each of its steps.
pub data Yields {A : Type 0} (P : World → Type 0) : Task A → Result A → Type 0 where
  finished : (r : Result A) → Yields P (done r) r
  stepped :
      (g : World → World) (k : World → Task A) (w : World) (r : Result A)
      → P w
      → Yields P (k w) r
      → Yields P (step g k) r

module _ {P : World → Type 0} {A : Type 0} where
  pub Refuses-Yields : (t : Task A) (a : A) → Refuses P t → ¬ (Yields P t (ok a))
  Refuses-Yields _ b (at_error e) y = elim y [ ]
  Refuses-Yields _ b (at_step g k next) (stepped _ _ w _ h y) = Refuses-Yields (k w) b (next w h) y

module _ {P : World → Type 0} {A B : Type 0} where
  pub Refuses-bind : (t : Task A) (f : A → Task B) → Refuses P t → Refuses P (t >>= f)
  unfolding ◌>>=◌
  Refuses-bind _ f (at_error e) = at_error e
  Refuses-bind _ f (at_step g k next) = at_step _ _ (λ w h. Refuses-bind (k w) f (next w h))

  -- The rest may use what the first action promises of its result.
  pub Refuses-post :
      (Q : A → Type 0) (m : Action A) (f : A → Task B)
      → ((w : World) (a : A) → P w → (m w).0 ≡ ok a → Q a)
      → ((a : A) → Q a → Refuses P (f a))
      → Refuses P (atom m >>= f)
  unfolding atom ◌>>=◌
  Refuses-post Q m f post rest = at_step _ _ λ w h. after (m w).0 (λ a. post w a h)
    where
      after : (r : Result A) → ((a : A) → r ≡ ok a → Q a) → Refuses P (done r >>= f)
      after (ok a) q = rest a (q a refl)
      after (err e) q = at_error e

  pub Refuses-then :
      (m : Action A) (f : A → Task B) → ((a : A) → Refuses P (f a)) → Refuses P (atom m >>= f)
  Refuses-then m f rest = Refuses-post (λ a. Unit) m f (λ w a h e. tt) (λ a u. rest a)

module _ {P : World → Type 0} {B : Type 0} where
  pub Refuses-guard :
      (b : Bool) (e : Error) (f : Unit {0} → Task B)
      → b ≡ true
      → Refuses P (atom (raise_if b e) >>= f)
  unfolding atom ◌>>=◌ raise_if
  Refuses-guard true e f h = at_step _ _ λ w k. at_error e
  Refuses-guard false e f h = absurd (cc h)

module _ {P : World → Type 0} {A B : Type 0} where
  -- What is caught is an error.
  pub Refuses-catch :
      (t : Task A) (f : Result A → B) (r : Result B)
      → Refuses P t
      → Yields P (catch t f) r
      → (e : Error) × (r ≡ ok (f (err e)))
  unfolding catch
  Refuses-catch _ f _ (at_error e) (finished _) = (e, refl)
  Refuses-catch _ f r (at_step g k next) (stepped _ _ w _ h y) =
      Refuses-catch (k w) f r (next w h) y
