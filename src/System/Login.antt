-- ===== src/System/Login.antt =====
-- From a signed challenge to an open connection.
use smqtt.Prelude.{◌+◌, ◌≤◌, ◌≡◌, false, some, Text, as_i64, ltb_ℤ}
use smqtt.Foreign.{ForeignLaws, leeway}
use smqtt.Claims.{Claims}
use smqtt.Crypto.{new_claims}
use smqtt.Rows.{User}
use smqtt.Error.{ok}
use smqtt.State.{AppState, World}
use smqtt.Db.Users.{find_user}
use smqtt.Api.Auth.{VerifyRequest, verify}
use smqtt.Api.Auth.Outcome.{token_claims}
use smqtt.Api.Auth.Issue.{verify_sound}
use smqtt.Broker.AuthHook.{ConnectInfo, password_text, authenticate, allow}
use smqtt.Broker.AuthHook.Outcome.{admitted, authenticate_complete}

-- The claims of the token that `verify` issues in the world `w`.
abbrev pub issued_claims : AppState → VerifyRequest → World → Claims
issued_claims state req w =
    token_claims state req w.db (w.oracle.clock (w.oracle.asked + 1 + 1 + 1 + 1))

-- A token from `verify`, given as the password, opens a connection of the device that it was issued
-- for, in any state in which the token has not expired, the user is not suspended and was not
-- kicked in a later second than that of the token, and the query for the user is answered; the
-- session then has the claims that were issued. (If a token is decoded to the claims that were
-- encoded.)
pub verify_connects :
    (state : AppState) (req : VerifyRequest) (w v : World) (token : Text) (info : ConnectInfo)
    (user : User)
    → ForeignLaws state.ext
    → (verify state req w).0 ≡ ok token
    → password_text info ≡ some token
    → info.client_id ≡ req.device_id
    → v.oracle.clock v.oracle.asked ≤ (issued_claims state req w).exp + leeway
    → find_user req.user_id v.db ≡ some user
    → user.suspended ≡ false
    → ltb_ℤ (as_i64 (issued_claims state req w).iat) user.tokens_valid_from ≡ false
    → v.oracle.fails (v.oracle.asked + 1) ≡ false
    → authenticate state info v
      ≡ ((false, some (allow false)), admitted info (issued_claims state req w) v)
unfolding new_claims
verify_connects state req w v token info user laws issued given device fresh exists active current
      up =
    let (nonce, opens, signs, encoded) = verify_sound state req w token issued in
    authenticate_complete state info v (issued_claims state req w)
      (record {
        token = token;
        given = given;
        decoded = laws.jwt_round state.jwt_keys _ (issued_claims state req w) token encoded fresh;
        bound = device;
        user = user;
        exists = exists;
        active = active;
        current = current;
      })
      up
