-- ===== src/Concurrent/Schedule.antt =====
-- Two handlers over one world, in a given order of their steps.
use smqtt.Prelude.{ℕ, zero, suc, ◌≡◌, refl, ap, List, [], ◌∷◌, ◌++◌}
use smqtt.Error.{Result, ok}
use smqtt.Exec.{Action}
use smqtt.State.{World}
use smqtt.Task.{Task, done, step, atom, ◌>>=◌}

pub data Side : Type 0 where
  left right : Side

pub record Pair (A B : Type 0) : Type 0 where
  pub first : Task A
  pub second : Task B
  pub world : World

-- One step of a task; a task that is done stays so.
unfoldable pub tick : {A : Type 0} → Task A → World → Task A × World
tick (done r) w = (done r, w)
tick (step g k) w = (k w, g w)

-- One step of the task on that side.
unfoldable pub turn : {A B : Type 0} → Side → Pair A B → Pair A B
turn left p =
    let (t, w) = tick p.first p.world in record { first = t; second = p.second; world = w }
turn right p =
    let (t, w) = tick p.second p.world in record { first = p.first; second = t; world = w }

unfoldable pub interleave : {A B : Type 0} → List Side → Pair A B → Pair A B
interleave [] p = p
interleave (side ∷ rest) p = interleave rest (turn side p)

unfoldable pub ticks : {A : Type 0} → ℕ → Task A → World → Task A × World
ticks zero t w = (t, w)
ticks (suc n) t w = let (u, v) = tick t w in ticks n u v

unfoldable pub times : ℕ → Side → List Side
times zero side = []
times (suc n) side = side ∷ times n side

module _ {A B : Type 0} where
  -- A side that has several turns in a row takes so many steps.
  pub interleave-left :
      (n : ℕ) (rest : List Side) (t : Task A) (u : Task B) (w : World) (r : Task A × World)
      → ticks n t w ≡ r
      → interleave (times n left ++ rest) (record { first = t; second = u; world = w })
        ≡ interleave rest (record { first = r.0; second = u; world = r.1 })
  unfolding interleave ticks times turn
  interleave-left zero rest t u w r e =
      ap (λ r. interleave rest (record { first = r.0; second = u; world = r.1 })) e
  interleave-left (suc n) rest t u w r e = interleave-left n rest _ u _ r e

  pub interleave-right :
      (n : ℕ) (rest : List Side) (t : Task A) (u : Task B) (w : World) (r : Task B × World)
      → ticks n u w ≡ r
      → interleave (times n right ++ rest) (record { first = t; second = u; world = w })
        ≡ interleave rest (record { first = t; second = r.0; world = r.1 })
  unfolding interleave ticks times turn
  interleave-right zero rest t u w r e =
      ap (λ r. interleave rest (record { first = t; second = r.0; world = r.1 })) e
  interleave-right (suc n) rest t u w r e = interleave-right n rest t _ _ r e

-- An action that returns takes one step.
pub ticks-atom :
    {A B : Type 0} (n : ℕ) (m : Action A) (f : A → Task B) (w : World) (a : A) (v : World)
    → m w ≡ (ok a, v)
    → ticks (suc n) (atom m >>= f) w ≡ ticks n (f a) v
unfolding ticks tick atom ◌>>=◌
ticks-atom n m f w a v e = ap (λ r. ticks n (done r.0 >>= f) r.1) e

pub ticks_none : {A : Type 0} (t : Task A) (w : World) → ticks 0 t w ≡ (t, w)
unfolding ticks
ticks_none t w = refl

pub interleave_none : {A B : Type 0} (p : Pair A B) → interleave [] p ≡ p
unfolding interleave
interleave_none p = refl

-- A last action takes one step.
pub ticks-atom_last :
    {A : Type 0} (m : Action A) (w : World) (r : Result A × World)
    → m w ≡ r
    → ticks 1 (atom m) w ≡ (done r.0, r.1)
unfolding ticks tick atom
ticks-atom_last m w r e = ap (λ q. (done q.0, q.1)) e
