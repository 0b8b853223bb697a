-- ===== src/System/Lockout.antt =====
-- What a suspension means for the user, and what the sessions of the broker are bound to.
use smqtt.Prelude.{◌≡◌, ◌≢◌, ap, true, false, some, Text, text_eq, inl, inr, subst, ◌∙◌}
use smqtt.Rows.{User, Database}
use smqtt.Error.{ok}
use smqtt.Claims.{Claims}
use smqtt.State.{AppState, World}
use smqtt.Db.Users.{find_user}
use smqtt.Api.Auth.{VerifyRequest, verify}
use smqtt.Api.Auth.Issue.{verify_sound}
use smqtt.Broker.AuthHook.{ConnectInfo, password_text, authenticate, deny}
use smqtt.Broker.AuthHook.Outcome.{Admits-claims, authenticate_cases}
use smqtt.System.{Reach}
use smqtt.System.Suspension.{IsSuspended, NotLifted, suspension, Reach-IsSuspended}

-- A suspended user is not an active one.
active_not_suspended :
    (user_id : Text) (db : Database) (user : User)
    → find_user user_id db ≡ some user
    → user.suspended ≡ false
    → ¬ (IsSuspended user_id db)
active_not_suspended user_id db user exists active h =
    cc (subst (λ o. suspension o ≡ true) exists h, active)

module _ (state : AppState) (user_id : Text) {u v : World} where
  -- Once a user is suspended, then whatever requests, broker events and purges follow, as long as the
  -- administrator does not lift it, `verify` issues no token to the user.
  pub suspended_no_token :
      (req : VerifyRequest) (token : Text)
      → IsSuspended user_id u.db
      → Reach state (NotLifted user_id) u v
      → req.user_id ≡ user_id
      → (verify state req v).0 ≢ ok token
  suspended_no_token req token h r same issued =
      let (nonce, opens, signs, encoded) = verify_sound state req v token issued in
      active_not_suspended user_id v.db opens.user
        (subst (λ k. find_user k v.db ≡ some opens.user) same opens.exists) opens.active
        (Reach-IsSuspended state user_id h r)

  -- Once a user is suspended, then whatever requests, broker events and purges follow, as long as the
  -- administrator does not lift it, the broker refuses every connection with a token of the user,
  -- though the token has not expired.
  pub suspended_no_connection :
      (info : ConnectInfo) (token : Text) (claims : Claims)
      → IsSuspended user_id u.db
      → Reach state (NotLifted user_id) u v
      → password_text info ≡ some token
      → state.ext.jwt_decode state.jwt_keys (v.oracle.clock v.oracle.asked) token ≡ some claims
      → claims.sub ≡ user_id
      → (authenticate state info v).0 ≡ deny
  suspended_no_connection info token claims h r given decoded sub =
      elim (authenticate_cases state info v) [
        | inl (c, a, e) ↦
            let e = Admits-claims state info v token claims c given decoded a in
            let exists =
              subst (λ k. find_user k v.db ≡ some a.user) (ap (λ x. x.sub) e ∙ sub) a.exists in
            absurd (
              active_not_suspended user_id v.db a.user exists a.active
                (Reach-IsSuspended state user_id h r))
        | inr (refused, s, d) ↦ refused
      ]
