-- ===== src/Exec.antt =====
-- A handler: an action on the `World` that returns or fails. What was written before a failure
-- stays written, so the world comes back beside an error too.
pub mod Bind
pub mod Keeps
pub mod Frame
use smqtt.Prelude.{ℕ, Bool, true, false, Option, none, some, Text, Bytes, if◌then◌else◌}
use smqtt.Error.{Error, Result, ok, err, SqlxError, constraint, unavailable, database}
use smqtt.Rows.{Database}
use smqtt.State.{World, HookReply, next}

abbrev pub Action : Type 0 → Type 0
Action A = World → Result A × World

module _ {A : Type 0} where
  unfoldable pub pure : A → Action A
  pure a w = (ok a, w)

  unfoldable pub raise : Error → Action A
  raise e w = (err e, w)

  unfoldable pub lift : Result A → Action A
  lift r w = (r, w)

  unfoldable pub gets : (World → A) → Action A
  gets f w = (ok (f w), w)

  unfoldable pub attempt : Action A → Action (Result A)
  attempt m w = let (r, w') = m w in (ok r, w')

  -- `.ok_or(e)?`
  unfoldable pub ok_or : Error → Option A → Action A
  ok_or e none w = (err e, w)
  ok_or e (some a) w = (ok a, w)

unfoldable pub modify : (World → World) → Action (Unit {0})
modify f w = (ok tt, f w)

-- `if b { return Err(e) }`
unfoldable pub raise_if : Bool → Error → Action (Unit {0})
raise_if b e w = (if b then err e else ok tt, w)

abbrev pub continue : {A B : Type 0} → Result A → (A → Action B) → Action B
continue (ok a) f w = f a w
continue (err e) f w = (err e, w)

infixl 10 ◌>>=◌ ◌>>◌
-- Opening this opens the actions above too.
unfoldable pub ◌>>=◌ : {A B : Type 0} → Action A → (A → Action B) → Action B
unfolding pure raise lift gets attempt ok_or modify raise_if
◌>>=◌ m f w = let (r, w') = m w in continue r f w'

abbrev pub ◌>>◌ : {A B : Type 0} → Action A → Action B → Action B
m >> k = m >>= λ _. k

-- `crypto::unix_now`
unfoldable pub unix_now : Action ℕ
unix_now w = (ok (w.oracle.clock w.oracle.asked), next w)

-- `Uuid::new_v4().to_string()`
unfoldable pub new_uuid : Action Text
new_uuid w = (ok (w.oracle.uuid w.oracle.asked), next w)

-- `rand::thread_rng().fill_bytes` on so many bytes
unfoldable pub fill_bytes : ℕ → Action Bytes
fill_bytes n w = (ok (w.oracle.random w.oracle.asked n), next w)

unfoldable pub ask_hook : Text → Text → Action HookReply
ask_hook url pubkey w = (ok (w.oracle.reply w.oracle.asked url pubkey), next w)

abbrev outcome : {A : Type 0} → Option (A × Database) → World → Result A × World
outcome none w = (err (database constraint), w)
outcome (some (a, db')) w = (ok a, record w { db = db' })

-- One SQL statement: it fails with the connection, is refused by a constraint, or takes effect as
-- a whole.
unfoldable pub run_query : {A : Type 0} → (Database → Option (A × Database)) → Action A
run_query q w =
    if w.oracle.fails w.oracle.asked
    then (err (database unavailable), next w)
    else outcome (q w.db) (next w)

-- A statement that only reads.
unfoldable pub fetch : {A : Type 0} → (Database → A) → Action A
unfolding run_query
fetch f = run_query λ db. some (f db, db)
