-- ===== src/Broker/AuthHook/Stale.antt =====
-- A kick and the tokens issued before it.
use smqtt.Prelude.{
  ◌+◌, ◌≡◌, refl, ap, false, some, Text, ◌==◌, text_eq, ◌∙◌, arith, inl, inr, as_i64, ◌<ℤ◌, ℤ,
  subst,
}
use mathlib.Core.Option
use smqtt.Table.Laws.{find-update}
use smqtt.Claims.{Claims}
use smqtt.Rows.{User, Database}
use smqtt.State.{AppState, World}
use smqtt.Db.Users.{find_user}
use smqtt.Broker.{kick_user}
use smqtt.Broker.Kick.{valid_from, kicked, kick_user_lem}
use smqtt.Broker.AuthHook.{ConnectInfo, deny, allow, password_text, authenticate}
use smqtt.Broker.AuthHook.Outcome.{Admits, Admits-claims, authenticate_cases, authenticate_complete}

find-valid_from :
    (now : ℤ) (user_id : Text) (db : Database)
    → find_user user_id (valid_from now user_id db)
      ≡ Option.map {A = User} (λ u. record u { tokens_valid_from = now }) (find_user user_id db)
find-valid_from now user_id db = find-update (λ u. u.user_id == user_id) _ (λ u. refl) db.users

-- A user that is found afterwards has the new time.
found_valid_from :
    (now : ℤ) (user_id : Text) (db : Database) (user : User)
    → find_user user_id (valid_from now user_id db) ≡ some user
    → user.tokens_valid_from ≡ now
found_valid_from now user_id db user h = ground (arith, find-valid_from now user_id db)

-- The worlds in which a kick is followed by a connection.
module _ (state : AppState) (user_id : Text) (w : World) (info : ConnectInfo) (token : Text)
    (claims : Claims) (given : password_text info ≡ some token)
    (decoded : state.ext.jwt_decode state.jwt_keys
        (w.oracle.clock (w.oracle.asked + 1 + 1 + 1))
        token
      ≡ some claims)
    (sub : claims.sub ≡ user_id) where
  stale_not_Admits :
      as_i64 claims.iat <ℤ as_i64 (w.oracle.clock w.oracle.asked)
      → (c : Claims) → Admits state info (kicked state user_id w) c
      → ⊥
  stale_not_Admits old c a =
      let e = Admits-claims state info (kicked state user_id w) token claims c given decoded a in
      let db' = valid_from (as_i64 (w.oracle.clock w.oracle.asked)) user_id w.db in
      let found = subst (λ k. find_user k db' ≡ some a.user) (ap (λ x. x.sub) e ∙ sub) a.exists in
      let time = found_valid_from _ user_id w.db a.user found in
      ground (arith, e, time, a.current, old)

  -- If both statements of `kick_user` were carried out, a token of the user that was issued in an
  -- earlier second than the kick is refused at a connection right after it, even if it has not
  -- expired.
  pub kicked_denied :
      w.oracle.fails (w.oracle.asked + 1) ≡ false
      → w.oracle.fails (w.oracle.asked + 1 + 1) ≡ false
      → as_i64 claims.iat <ℤ as_i64 (w.oracle.clock w.oracle.asked)
      → (authenticate state info (kick_user state user_id w).1).0 ≡ deny
  kicked_denied f g old =
      rw (kick_user_lem state user_id w f g)
        (elim (authenticate_cases state info (kicked state user_id w)) [
          | inl (c, a, e) ↦ absurd (stale_not_Admits old c a)
          | inr (refused, s, d) ↦ refused
        ])

  -- A token that was issued in the very second of the kick and has not expired opens a connection
  -- right after the kick, if its user is not suspended, the client id is its device, and all
  -- statements are carried out.
  pub same_second_admitted :
      (user : User)
      → w.oracle.fails (w.oracle.asked + 1) ≡ false
      → w.oracle.fails (w.oracle.asked + 1 + 1) ≡ false
      → w.oracle.fails (w.oracle.asked + 1 + 1 + 1 + 1) ≡ false
      → find_user user_id w.db ≡ some user
      → user.suspended ≡ false
      → info.client_id ≡ claims.dev
      → claims.iat ≡ w.oracle.clock w.oracle.asked
      → (authenticate state info (kick_user state user_id w).1).0 ≡ (false, some (allow false))
  same_second_admitted user f g k exists active bound same =
      let now = as_i64 (w.oracle.clock w.oracle.asked) in
      rw (kick_user_lem state user_id w f g) (
        ap (λ r. r.0)
          (authenticate_complete state info (kicked state user_id w) claims
            (record {
              token = token;
              given = given;
              decoded = decoded;
              bound = bound;
              user = record user { tokens_valid_from = now };
              exists = rw (sub, find-valid_from now user_id w.db, exists) refl;
              active = active;
              current = rw same (ground arith);
            })
            k))
