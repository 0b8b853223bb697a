-- ===== src/Broker/AuthHook/Outcome.antt =====
-- The outcome of the hook for a connection and for a subscription (broker/auth_hook.rs).
use smqtt.Prelude.{
  ◌+◌, ◌≡◌, refl, ap, true, false, some, Text, ◌==◌, text_eq, text_beq_iff, arith, inl, inr, ◌⊎◌,
  ◌↔◌, any, as_i64, ltb_ℤ, Option-cases, subst,
}
use smqtt.Claims.{Claims}
use smqtt.Map.{get, insert}
use smqtt.Rows.{User}
use smqtt.Error.{Error, Result, ok, err}
use smqtt.State.{AppState, World, next}
use smqtt.Exec.{◌>>=◌, unix_now, fetch}
use smqtt.Crypto.{verify}
use smqtt.Db.Users.{get_user, find_user}
use smqtt.Broker.AuthHook.{
  ConnectInfo, Subscribe, allow, subscribe_success, deny, password_text, auth_answer, admit,
  authenticate, may_subscribe, check_subscribe_acl,
}

-- A token that is valid now, for this device, of a user who is not suspended, and issued at or after
-- the time from which the user's tokens are valid.
pub record Admits (state : AppState) (info : ConnectInfo) (w : World) (claims : Claims)
    : Type 0 where
  pub token : Text
  pub given : password_text info ≡ some token
  pub decoded :
      state.ext.jwt_decode state.jwt_keys (w.oracle.clock w.oracle.asked) token ≡ some claims
  pub bound : info.client_id ≡ claims.dev
  pub user : User
  pub exists : find_user claims.sub w.db ≡ some user
  pub active : user.suspended ≡ false
  pub current : ltb_ℤ (as_i64 claims.iat) user.tokens_valid_from ≡ false

-- The claims are those of the token in the password.
pub Admits-claims :
    (state : AppState) (info : ConnectInfo) (w : World) (token : Text) (claims c : Claims)
    → password_text info ≡ some token
    → state.ext.jwt_decode state.jwt_keys (w.oracle.clock w.oracle.asked) token ≡ some claims
    → Admits state info w c
    → c ≡ claims
Admits-claims state info w token claims c given decoded a =
    let e : a.token ≡ token = cc (a.given, given) in
    let d =
      subst (λ t. state.ext.jwt_decode state.jwt_keys (w.oracle.clock w.oracle.asked) t ≡ some c) e
        a.decoded in
    cc (d, decoded)

-- The world after a connection was admitted.
abbrev pub admitted : ConnectInfo → Claims → World → World
admitted info claims w =
    next (next (record w { sessions = insert info.client_id claims w.sessions }))

module _ (state : AppState) (info : ConnectInfo) (w : World) where
  admit_sound :
      (admit state info w).0 ≡ ok tt
      → (claims : Claims) × Admits state info w claims
        × ((admit state info w).1 ≡ admitted info claims w)
  unfolding admit ◌>>=◌ verify unix_now get_user fetch
  admit_sound h = elim (Option-cases (password_text info)) [
    | inl missing ↦ absurd (ground arith)
    | inr (token, given) ↦
        elim (Option-cases
          (state.ext.jwt_decode state.jwt_keys (w.oracle.clock w.oracle.asked) token)) [
            | inl invalid ↦ absurd (ground arith)
            | inr (claims, decoded) ↦ elim (Option-cases (find_user claims.sub w.db)) [
              | inl unknown ↦ absurd (ground arith)
              | inr (user, exists) ↦ (
                claims,
                record {
                  token = token;
                  given = given;
                  decoded = decoded;
                  bound = ground (arith, text_beq_iff info.client_id claims.dev);
                  user = user;
                  exists = exists;
                  active = ground arith;
                  current = ground arith;
                },
                ground arith,
              )
            ]
          ]
  ]

  admit_complete :
      (claims : Claims)
      → Admits state info w claims
      → w.oracle.fails (w.oracle.asked + 1) ≡ false
      → admit state info w ≡ (ok tt, admitted info claims w)
  unfolding admit ◌>>=◌ verify unix_now get_user fetch
  admit_complete claims a up = ground (arith, text_beq_iff info.client_id claims.dev)

  admit_refused :
      (e : Error)
      → (admit state info w).0 ≡ err e
      → ((admit state info w).1.sessions ≡ w.sessions) × ((admit state info w).1.db ≡ w.db)
  unfolding admit ◌>>=◌ verify unix_now get_user fetch
  admit_refused e h = ground arith

Result-cases : (r : Result (Unit {0})) → (r ≡ ok tt) ⊎ ((e : Error) × (r ≡ err e))
Result-cases (ok u) = inl refl
Result-cases (err e) = inr (e, refl)

module _ (state : AppState) (info : ConnectInfo) (w : World) where
  -- `authenticate` either allows the connection, which it does only for a token that meets every
  -- check and then remembers the token's claims under the client id, or it answers not authorized
  -- and leaves the sessions and the database as they were.
  pub authenticate_cases :
      ((claims : Claims) × Admits state info w claims
        × (authenticate state info w ≡ ((false, some (allow false)), admitted info claims w)))
      ⊎ (((authenticate state info w).0 ≡ deny)
          × ((authenticate state info w).1.sessions ≡ w.sessions)
          × ((authenticate state info w).1.db ≡ w.db))
  unfolding authenticate
  authenticate_cases = elim (Result-cases (admit state info w).0) [
    | inl h ↦
        let (claims, a, e) = admit_sound state info w h in
        inl (claims, a, λ i. ((auth_answer (h i)), e i))
    | inr (e, h) ↦ let (s, d) = admit_refused state info w e h in inr (ap auth_answer h, s, d)
  ]

  -- A token that meets every check is let in, if the query for its user is answered.
  pub authenticate_complete :
      (claims : Claims)
      → Admits state info w claims
      → w.oracle.fails (w.oracle.asked + 1) ≡ false
      → authenticate state info w ≡ ((false, some (allow false)), admitted info claims w)
  unfolding authenticate
  authenticate_complete claims a up = rw (admit_complete state info w claims a up)

-- A subscription is granted exactly if the client has a session whose token names the topic.
pub subscribe_iff :
    (client_id : Text) (s : Subscribe) (w : World)
    → ((check_subscribe_acl client_id s w).0 ≡ (true, some (subscribe_success s.qos))) ↔ (
        (claims : Claims) × (get client_id w.sessions ≡ some claims)
        × (any (λ t. t == s.topic_filter) claims.sub_topics ≡ true))
unfolding check_subscribe_acl may_subscribe
subscribe_iff client_id s w = (
  λ h. elim (Option-cases (get client_id w.sessions)) [
    | inl missing ↦ absurd (ground arith)
    | inr (claims, found) ↦ (claims, found, ground arith)
  ],
  λ h. let (claims, found, named) = h in ground arith,
)
