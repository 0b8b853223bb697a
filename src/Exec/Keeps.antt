-- ===== src/Exec/Keeps.antt =====
-- Invariants of actions, one rule for each way to build an action.
use smqtt.Prelude.{ℕ, ◌≡◌, refl, Bool, true, false, Option, none, some, Text, if◌then◌else◌}
use smqtt.Error.{Error, Result, ok, err, unavailable, database}
use smqtt.Rows.{Database}
use smqtt.State.{World, next}
use smqtt.Exec.{
  Action, pure, raise, lift, gets, attempt, ok_or, modify, raise_if, ◌>>=◌, unix_now, new_uuid,
  continue, ◌>>◌, fill_bytes, ask_hook, run_query, fetch, outcome,
}

-- The action keeps `P` of the database, whether it returns or fails.
pub record Keeps {A : Type 0} (P : Database → Type 0) (m : Action A) : Type 0 where
  pub at : (w : World) → P w.db → P (m w).1.db

-- The state that a statement leaves, unless a constraint refuses it.
abbrev pub After : {A : Type 0} → (Database → Type 0) → Option (A × Database) → Type 0
After P none = Unit
After P (some (a, db')) = P db'

-- A statement that a constraint may refuse.
pub After-if :
    (P : Database → Type 0) {A : Type 0} (b : Bool) (o : Option (A × Database))
    → After P o
    → After P (if b then none else o)
After-if P true o h = tt
After-if P false o h = h

pub After-both :
    (P Q : Database → Type 0) {A : Type 0} (o : Option (A × Database))
    → After P o
    → After Q o
    → After (λ db. P db × Q db) o
After-both P Q none h k = tt
After-both P Q (some (a, db')) h k = (h, k)

outcome-After :
    (P : Database → Type 0) {A : Type 0} (w : World) (o : Option (A × Database))
    → P w.db
    → After P o
    → P (outcome o (next w)).1.db
outcome-After P w none h k = h
outcome-After P w (some (a, db')) h k = k

module _ {P : Database → Type 0} {A : Type 0} where
  -- An option or a result that is at hand.
  pub Keeps-ok_or : (e : Error) (o : Option A) → Keeps P (ok_or e o)
  unfolding ok_or
  Keeps-ok_or e none = record { at = λ w h. h }
  Keeps-ok_or e (some a) = record { at = λ w h. h }

  pub Keeps-gets : (view : World → A) → Keeps P (gets view)
  unfolding gets
  Keeps-gets view = record { at = λ w h. h }

  pub Keeps-lift : (given : Result A) → Keeps P (lift given)
  unfolding lift
  Keeps-lift given = record { at = λ w h. h }

  -- Whichever branch a test takes.
  pub Keeps-if :
      (test : Bool) (m n : Action A)
      → (test ≡ true → Keeps P m)
      → (test ≡ false → Keeps P n)
      → Keeps P (if test then m else n)
  Keeps-if true m n k l = k refl
  Keeps-if false m n k l = l refl

  pub Keeps-attempt : (m : Action A) → Keeps P m → Keeps P (attempt m)
  unfolding attempt
  Keeps-attempt m k = record { at = k.at }

  pub Keeps-raise : (e : Error) → Keeps P (raise {A = A} e)
  unfolding raise
  Keeps-raise e = record { at = λ w h. h }

  pub Keeps-pure : (value : A) → Keeps P (pure value)
  unfolding pure
  Keeps-pure value = record { at = λ w h. h }

  pub Keeps-fetch : (f : Database → A) → Keeps P (fetch f)
  unfolding fetch
  Keeps-fetch f = record {
    at = λ w h.
        elim (w.oracle.fails w.oracle.asked)
          as (λ b.
            P
              (if b
                then (err (database unavailable), next w)
                else outcome (some (f w.db, w.db)) (next w)).1.db) [ true ↦ h | false ↦ h ];
  }

  pub Keeps-run_query :
      (q : Database → Option (A × Database))
      → ((db : Database) → P db → After P (q db))
      → Keeps P (run_query q)
  unfolding run_query
  Keeps-run_query q kq = record {
    at = λ w h.
        elim (w.oracle.fails w.oracle.asked)
          as (λ b.
            P
              (if b
                then (err (database unavailable), next w)
                else outcome (q w.db) (next w)).1.db) [
                  | true ↦ h
                  | false ↦ outcome-After P w (q w.db) h (kq w.db h)
                ];
  }

  -- After a guard the rest may use that it passed.
  pub Keeps-guard :
      (b : Bool) (e : Error) (n : Action A) → (b ≡ false → Keeps P n) → Keeps P (raise_if b e >> n)
  unfolding ◌>>=◌
  Keeps-guard true e n k = record { at = λ w h. h }
  Keeps-guard false e n k = record { at = (k refl).at }

module _ {P : Database → Type 0} where
  pub Keeps-unix_now : Keeps P unix_now
  unfolding unix_now
  Keeps-unix_now = record { at = λ w h. h }

  pub Keeps-new_uuid : Keeps P new_uuid
  unfolding new_uuid
  Keeps-new_uuid = record { at = λ w h. h }

  pub Keeps-fill_bytes : (n : ℕ) → Keeps P (fill_bytes n)
  unfolding fill_bytes
  Keeps-fill_bytes n = record { at = λ w h. h }

  pub Keeps-ask_hook : (url pubkey : Text) → Keeps P (ask_hook url pubkey)
  unfolding ask_hook
  Keeps-ask_hook url pubkey = record { at = λ w h. h }

  pub Keeps-raise_if : (b : Bool) (e : Error) → Keeps P (raise_if b e)
  unfolding raise_if
  Keeps-raise_if b e = record { at = λ w h. h }

  pub Keeps-modify : (f : World → World) → ((w : World) → P w.db → P (f w).db) → Keeps P (modify f)
  unfolding modify
  Keeps-modify f k = record { at = k }

module _ {P : Database → Type 0} {A B : Type 0} where
  pub Keeps-continue :
      (r : Result A) (f : A → Action B)
      → ((a : A) → r ≡ ok a → Keeps P (f a))
      → Keeps P (continue r f)
  Keeps-continue (ok a) f kf = record { at = (kf a refl).at }
  Keeps-continue (err e) f kf = record { at = λ w h. h }

  pub Keeps-bind :
      (m : Action A) (f : A → Action B) → Keeps P m → ((a : A) → Keeps P (f a)) → Keeps P (m >>= f)
  unfolding ◌>>=◌
  Keeps-bind m f km kf = record {
    at = λ w h. let (r, w') = m w in (Keeps-continue r f (λ a e. kf a)).at w' (km.at w h);
  }

module _ {P : Database → Type 0} {A B : Type 0} where
  -- The rest may use what the first action promises of its result.
  pub Keeps-bind_post :
      (Q : A → Type 0) (m : Action A) (f : A → Action B)
      → Keeps P m
      → ((w : World) (a : A) → (m w).0 ≡ ok a → Q a)
      → ((a : A) → Q a → Keeps P (f a))
      → Keeps P (m >>= f)
  unfolding ◌>>=◌
  Keeps-bind_post Q m f km post kf = record {
    at = λ w h. (Keeps-continue (m w).0 f (λ a e. kf a (post w a e))).at (m w).1 (km.at w h);
  }

pub ruleset keeps_rules = (
  Keeps-ok_or, Keeps-fetch, Keeps-if, Keeps-gets, Keeps-lift, Keeps-attempt, Keeps-raise,
  Keeps-pure, Keeps-unix_now, Keeps-new_uuid, Keeps-fill_bytes, Keeps-ask_hook, Keeps-guard,
  Keeps-raise_if, Keeps-bind,
)
