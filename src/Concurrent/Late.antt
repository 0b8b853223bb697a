-- ===== src/Concurrent/Late.antt =====
-- A race that the code leaves open: a connection that is admitted while its user is suspended
-- (broker/auth_hook.rs).
use smqtt.Prelude.{
  ℕ, suc, Bool, as_i64, ltb_ℤ, ◌+◌, ◌≡◌, refl, ap, ◌∙◌, false, Option, some, text_eq, text_beq_iff,
  arith,
}
use smqtt.Error.{Result, ok, unauthorized}
use smqtt.Rows.{User}
use smqtt.Claims.{Claims}
use smqtt.Map.{insert}
use smqtt.State.{AppState, World, next}
use smqtt.Exec.{Action, modify, raise_if, unix_now, fetch, ◌>>=◌}
use smqtt.Task.{Task, done, atom, ◌>>=◌ as then_do, catch}
use smqtt.Crypto as Crypto
use smqtt.Db.Users.{get_user}
use smqtt.Broker.AuthHook.{ConnectInfo, HookResult, client_authenticate, allow, auth_answer}
use smqtt.Broker.AuthHook.Outcome.{Admits}
use smqtt.Concurrent.Hook.{read_claims, admit, hook}
use smqtt.Concurrent.Schedule.{ticks, tick, ticks_none}

module _ {A B C : Type 0} where
  ticks-caught :
      (n : ℕ) (m : Action A) (f : A → Task B) (g : Result B → C) (w : World) (a : A) (v : World)
      → m w ≡ (ok a, v)
      → ticks (suc n) (catch (then_do (atom m) f) g) w ≡ ticks n (catch (f a) g) v
  unfolding ticks tick atom then_do catch
  ticks-caught n m f g w a v e = ap (λ r. ticks n (catch (then_do (done r.0) f) g) r.1) e

ticks-caught_last :
    {A C : Type 0} (m : Action A) (g : Result A → C) (w : World) (r : Result A × World)
    → m w ≡ r
    → ticks 1 (catch (atom m) g) w ≡ (done (ok (g r.0)), r.1)
unfolding ticks tick atom catch
ticks-caught_last m g w r e = ap (λ q. (done (ok (g q.0)), q.1)) e

-- What is left of `admit` when the user has been read.
abbrev last_checks : ConnectInfo → Claims → User → Task (Unit {0})
last_checks info claims user = then_do (atom (raise_if user.suspended unauthorized)) λ u.
    then_do (atom (raise_if (ltb_ℤ (as_i64 claims.iat) user.tokens_valid_from) unauthorized))
      λ v. atom (modify (λ w. record w { sessions = insert info.client_id claims w.sessions }))

module _ (state : AppState) (info : ConnectInfo) (w : World) (claims : Claims)
    (m : Admits state info w claims) where
  claims_read : read_claims state info w ≡ (ok claims, next w)
  unfolding read_claims ◌>>=◌ Crypto.verify unix_now
  claims_read = ground (arith, m.given, m.decoded, m.bound, text_beq_iff info.client_id claims.dev)

  user_read :
      w.oracle.fails (w.oracle.asked + 1) ≡ false
      → get_user claims.sub (next w) ≡ (ok m.user, next (next w))
  unfolding get_user fetch ◌>>=◌
  user_read up = ground (arith, m.exists, up)

  checks_left :
      w.oracle.fails (w.oracle.asked + 1) ≡ false
      → ticks 2 (catch (admit state info) auth_answer) w
        ≡ (catch (last_checks info claims m.user) auth_answer, next (next w))
  unfolding admit
  checks_left up =
      ticks-caught 1 _ _ auth_answer w claims (next w) claims_read
      ∙ ticks-caught 0 _ _ auth_answer (next w) m.user (next (next w)) (user_read up)
      ∙ ticks_none _ _

  checks_pass :
      (v : World)
      → ticks 3 (catch (last_checks info claims m.user) auth_answer) v ≡ (
        done (ok (false, some (allow false))),
        record v { sessions = insert info.client_id claims v.sessions },
      )
  unfolding raise_if modify
  checks_pass v =
      ticks-caught 2 _ _ auth_answer v tt v (passes _ m.active v)
      ∙ ticks-caught 1 _ _ auth_answer v tt v (passes _ m.current v)
      ∙ ticks-caught_last _ auth_answer v _ refl
    where
      passes : (b : Bool) → b ≡ false → (v : World) → raise_if b unauthorized v ≡ (ok tt, v)
      passes b h v = rw h refl

  -- A hook that has read its user before a suspension (its first two steps, one after the other) goes on
  -- to admit the connection and to store its session whatever the world is by then, so also one in which
  -- the user has been suspended and kicked in between: the kick came too early for this connection.
  -- (If the token passed every check when it was read, and the query for the user was answered.)
  pub suspended_connects_late :
      (acc : Option HookResult) (v : World)
      → w.oracle.fails (w.oracle.asked + 1) ≡ false
      → ticks 3 (ticks 2 (hook state (client_authenticate info) acc) w).0 v ≡ (
        done (ok (false, some (allow false))),
        record v { sessions = insert info.client_id claims v.sessions },
      )
  unfolding hook
  suspended_connects_late acc v up = ap (λ r. ticks 3 r.0 v) (checks_left up) ∙ checks_pass v
