-- ===== src/Task/Safe.antt =====
-- Properties of the world that a task keeps whatever other tasks do between its steps.
use smqtt.Prelude.{◌≡◌, refl}
use smqtt.Error.{Result, ok, err}
use smqtt.Rows.{Database}
use smqtt.State.{World}
use smqtt.Exec.{Action}
use smqtt.Exec.Keeps.{Keeps}
use smqtt.Task.{Task, done, step, atom, ret, ◌>>=◌, catch}

-- Each step keeps `P`, wherever it is taken.
pub data Safe {A : Type 0} (P : World → Type 0) : Task A → Type 0 where
  at_end : (r : Result A) → Safe P (done r)
  at_step :
      (g : World → World) (k : World → Task A)
      → ((w : World) → P w → P (g w))
      → ((w : World) → Safe P (k w))
      → Safe P (step g k)

module _ {P : World → Type 0} {A : Type 0} where
  pub Safe-atom : (m : Action A) → ((w : World) → P w → P (m w).1) → Safe P (atom m)
  unfolding atom
  Safe-atom m kept = at_step _ _ kept (λ w. at_end _)

  pub Safe-ret : (a : A) → Safe P (ret a)
  unfolding ret
  Safe-ret a = at_end _

module _ {P : World → Type 0} {A : Type 0} where
  pub Safe-now :
      (g : World → World) (k : World → Task A) (w : World) → Safe P (step g k) → P w → P (g w)
  Safe-now _ _ w (at_step g k kept next) h = kept w h

  pub Safe-next :
      (g : World → World) (k : World → Task A) (w : World) → Safe P (step g k) → Safe P (k w)
  Safe-next _ _ w (at_step g k kept next) = next w

module _ {P : World → Type 0} {A B : Type 0} where
  pub Safe-bind :
      (t : Task A) (f : A → Task B) → Safe P t → ((a : A) → Safe P (f a)) → Safe P (t >>= f)
  unfolding ◌>>=◌
  Safe-bind _ f (at_end (ok a)) rest = rest a
  Safe-bind _ f (at_end (err e)) rest = at_end _
  Safe-bind _ f (at_step g k kept next) rest =
      at_step _ _ kept (λ w. Safe-bind (k w) f (next w) rest)

  pub Safe-catch : (t : Task A) (f : Result A → B) → Safe P t → Safe P (catch t f)
  unfolding catch
  Safe-catch _ f (at_end r) = at_end _
  Safe-catch _ f (at_step g k kept next) = at_step _ _ kept (λ w. Safe-catch (k w) f (next w))

  -- The rest may use what the first action promises of its result.
  pub Safe-post :
      (Q : A → Type 0) (m : Action A) (f : A → Task B)
      → ((w : World) → P w → P (m w).1)
      → ((w : World) (a : A) → (m w).0 ≡ ok a → Q a)
      → ((a : A) → Q a → Safe P (f a))
      → Safe P (atom m >>= f)
  unfolding atom ◌>>=◌
  Safe-post Q m f kept post rest = at_step _ _ kept (λ w. after (m w).0 (post w))
    where
      after : (r : Result A) → ((a : A) → r ≡ ok a → Q a) → Safe P (done r >>= f)
      after (ok a) q = rest a (q a refl)
      after (err e) q = at_end _

-- What an action keeps of the database, its atom keeps.
pub Safe-Keeps :
    {P : Database → Type 0} {A : Type 0} (m : Action A) → Keeps P m → Safe (λ w. P w.db) (atom m)
Safe-Keeps m k = Safe-atom m k.at

pub ruleset safe_rules = (Safe-ret, Safe-bind, Safe-catch)
