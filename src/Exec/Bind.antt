-- ===== src/Exec/Bind.antt =====
-- How a sequence of actions comes to its result.
use smqtt.Prelude.{◌≡◌, refl}
use smqtt.Error.{Error, Result, ok, err}
use smqtt.State.{World}
use smqtt.Exec.{Action, continue, ◌>>=◌}

module _ {A B : Type 0} where
  continue_ok :
      (r : Result A) (f : A → Action B) (w : World) (b : B)
      → (continue r f w).0 ≡ ok b
      → (a : A) × (r ≡ ok a) × ((f a w).0 ≡ ok b)
  continue_ok (ok a) f w b h = (a, refl, h)
  continue_ok (err e) f w b h = absurd (cc)

  -- A sequence returns if both parts do.
  pub bind_ok :
      (m : Action A) (f : A → Action B) (w : World) (b : B)
      → ((m >>= f) w).0 ≡ ok b
      → (a : A) × ((m w).0 ≡ ok a) × ((f a (m w).1).0 ≡ ok b)
  unfolding ◌>>=◌
  bind_ok m f w b h = continue_ok (m w).0 f (m w).1 b h

  -- The second part starts in the world that the first one left.
  pub bind-ok :
      (m : Action A) (f : A → Action B) (w : World) (a : A)
      → (m w).0 ≡ ok a
      → (m >>= f) w ≡ f a (m w).1
  unfolding ◌>>=◌
  bind-ok m f w a h = rw h

  pub bind-err :
      (m : Action A) (f : A → Action B) (w : World) (e : Error)
      → (m w).0 ≡ err e
      → (m >>= f) w ≡ (err e, (m w).1)
  unfolding ◌>>=◌
  bind-err m f w e h = rw h
