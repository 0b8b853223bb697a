-- ===== src/Api/Auth/Issue.antt =====
-- When `verify` issues a token (api/auth.rs).
use smqtt.Prelude.{◌+◌, ◌≡◌, false, Bytes, Text, inr, arith}
use smqtt.Map.{remove}
use smqtt.Error.{ok}
use smqtt.State.{AppState, World, next}
use smqtt.Exec.{◌>>=◌, unix_now, fetch}
use smqtt.Exec.Bind.{bind_ok}
use smqtt.Db.Users.{get_user}
use smqtt.Db.Devices.{get_device_by_user}
use smqtt.Api.Auth.{
  VerifyRequest, pop_challenge, open_session, check_signature, issue_token, verify,
}
use smqtt.Api.Auth.Outcome.{
  Opens, Signs, token_claims, open_session_sound, open_session_complete, check_signature_sound,
  check_signature_complete, issue_token_lem,
}
use smqtt.Crypto.{b64_decode}

-- The world in which the signature is checked.
abbrev opened : Text → World → World
opened user_id w = next (next (record w { challenges = remove user_id w.challenges }))

module _ (state : AppState) (req : VerifyRequest) (w : World) where
  open_session_world :
      (nonce : Bytes)
      → (open_session req.user_id w).0 ≡ ok nonce
      → (open_session req.user_id w).1 ≡ opened req.user_id w
  unfolding open_session pop_challenge ◌>>=◌ unix_now get_user fetch
  open_session_world nonce h = ground arith

  check_signature_world :
      (nonce : Bytes)
      → (check_signature state req nonce w).0 ≡ ok tt
      → (check_signature state req nonce w).1 ≡ next w
  unfolding check_signature ◌>>=◌ get_device_by_user fetch b64_decode
  check_signature_world nonce h = ground arith

  issue_token_ok :
      (token : Text)
      → (issue_token state req w).0 ≡ ok token
      → state.ext.jwt_encode state.jwt_keys
          (token_claims state req w.db (w.oracle.clock (w.oracle.asked + 1)))
        ≡ inr token
  issue_token_ok token h = ground (arith, issue_token_lem state req w)

module _ (state : AppState) (req : VerifyRequest) (w : World) (token : Text) where
  -- If `verify` returns a token, then the user had an unexpired challenge and is not suspended, the
  -- device of the request is one of the user's, its key signed the nonce of that challenge, and the
  -- token encodes the claims for this user and device: all topics of the user's relationships and
  -- the notification topic, issued at the time at which the clock was read last.
  pub verify_sound :
      (verify state req w).0 ≡ ok token
      → (nonce : Bytes) × Opens req.user_id w nonce
        × Signs state req nonce w.db
        × (state.ext.jwt_encode state.jwt_keys
              (token_claims state req w.db (w.oracle.clock (w.oracle.asked + 1 + 1 + 1 + 1)))
            ≡ inr token)
  unfolding verify
  verify_sound h =
      let (nonce, p, h₁) = bind_ok (open_session req.user_id) _ w token h in
      let h₂ = rw (open_session_world state req w nonce p) at h₁ in
      let (u, q, h₃) =
        bind_ok (check_signature state req nonce) _ (opened req.user_id w) token h₂ in
      let h₄ = rw (check_signature_world state req (opened req.user_id w) nonce q) at h₃ in
      (
        nonce,
        open_session_sound req.user_id w nonce p,
        check_signature_sound state req nonce (opened req.user_id w) q,
        issue_token_ok state req (next (opened req.user_id w)) token h₄,
      )

  -- If the user has an unexpired challenge and is not suspended, a device of the user signed its nonce
  -- as `Signs` says, the three queries are answered, and the claims are encoded as a token, then
  -- `verify` returns this token.
  pub verify_complete :
      (nonce : Bytes)
      → Opens req.user_id w nonce
      → Signs state req nonce w.db
      → w.oracle.fails (w.oracle.asked + 1) ≡ false
      → w.oracle.fails (w.oracle.asked + 1 + 1) ≡ false
      → w.oracle.fails (w.oracle.asked + 1 + 1 + 1) ≡ false
      → state.ext.jwt_encode state.jwt_keys
          (token_claims state req w.db (w.oracle.clock (w.oracle.asked + 1 + 1 + 1 + 1)))
        ≡ inr token
      → (verify state req w).0 ≡ ok token
  unfolding verify ◌>>=◌
  verify_complete nonce o s f₁ f₂ f₃ e = rw (open_session_complete req.user_id w nonce o f₁) (
      rw (check_signature_complete state req nonce (opened req.user_id w) s f₂)
        (ground (arith, issue_token_lem state req (next (opened req.user_id w)))))
