-- ===== src/Api/Auth/Challenge.antt =====
-- The challenges of api/auth.rs.
use smqtt.Prelude.{
  ◌≡◌, refl, ap, none, some, Text, Bytes, ◌==◌, text_eq, text_beq_iff, ◌+◌, add_u64, inl, inr,
  Option-cases, ◌∙◌, arith, if◌then◌else◌,
}
use smqtt.Error.{ok, err, unauthorized}
use smqtt.Rows.{User}
use smqtt.Map.{get, remove, get-remove, get-insert}
use smqtt.State.{AppState, World}
use smqtt.Exec.{◌>>=◌, fetch, fill_bytes, unix_now}
use smqtt.Exec.Frame.{IsSide, Frames, Frames-bind, view-bind, frame_rules}
use smqtt.Crypto.{issue}
use smqtt.Db.Users.{get_user, find_user}
use smqtt.Db.Devices.{get_device_by_user}
use smqtt.Db.Relationships.{user_topics, list_relationships}
use smqtt.Api.Auth.{
  VerifyRequest, pop_challenge, open_session, check_signature, issue_token, verify, challenge,
}

challenges-IsSide : IsSide (λ w. w.challenges)
challenges-IsSide = record { asked = λ w. refl; stored = λ w db. refl }

check_signature-Frames :
    (state : AppState) (req : VerifyRequest) (nonce : Bytes)
    → Frames (λ w. w.challenges) (check_signature state req nonce)
unfolding check_signature get_device_by_user
check_signature-Frames state req nonce = search (frame_rules, challenges-IsSide) depth 15

issue_token-Frames :
    (state : AppState) (req : VerifyRequest) → Frames (λ w. w.challenges) (issue_token state req)
unfolding issue_token issue user_topics list_relationships
issue_token-Frames state req = search (frame_rules, challenges-IsSide) depth 15

module _ (state : AppState) (req : VerifyRequest) (w : World) where
  challenges-pop_challenge :
      (pop_challenge req.user_id w).1.challenges ≡ remove req.user_id w.challenges
  unfolding pop_challenge ◌>>=◌
  challenges-pop_challenge = ground arith

  challenges-open_session :
      (open_session req.user_id w).1.challenges ≡ remove req.user_id w.challenges
  unfolding open_session get_user
  challenges-open_session =
      view-bind {view = λ w. w.challenges} (pop_challenge req.user_id) _
        (λ c. search (frame_rules, challenges-IsSide) depth 9) w
      ∙ challenges-pop_challenge

  -- Whether `verify` succeeds or fails, and at whatever step, the user's challenge is gone
  -- afterwards, and no other user's challenge has changed.
  pub verify_pops :
      (j : Text)
      → get j (verify state req w).1.challenges
        ≡ (if req.user_id == j then none else get j w.challenges)
  unfolding verify
  verify_pops j =
      ap (get j) (
        view-bind {view = λ w. w.challenges} (open_session req.user_id) _
          (λ nonce.
            Frames-bind _ _ (check_signature-Frames state req nonce)
              λ u. issue_token-Frames state req)
          w
        ∙ challenges-open_session)
      ∙ get-remove req.user_id j w.challenges

verify_unchallenged :
    (state : AppState) (req : VerifyRequest) (w : World)
    → get req.user_id w.challenges ≡ none
    → (verify state req w).0 ≡ err unauthorized
unfolding verify open_session pop_challenge ◌>>=◌
verify_unchallenged state req w missing = ground arith

-- A challenge cannot be used twice: right after any `verify` for a user, failed or not, another
-- `verify` for that user is refused as unauthorized.
pub verify_replayed :
    (state : AppState) (first second : VerifyRequest) (w : World)
    → second.user_id ≡ first.user_id
    → (verify state second (verify state first w).1).0 ≡ err unauthorized
verify_replayed state first second w same =
    verify_unchallenged state second (verify state first w).1 (
      verify_pops state first w second.user_id
      ∙ ground (arith, same, text_beq_iff first.user_id second.user_id))

-- A successful `challenge` is for an existing user: it stores under the user's id the 32 random
-- bytes that the response encodes, to be answered within 60 seconds, and no other user's challenge
-- changes.
pub challenge_sound :
    (state : AppState) (user_id j response : Text) (w : World)
    → (challenge state user_id w).0 ≡ ok response
    → let nonce = w.oracle.random (w.oracle.asked + 1) 32 in
      let expires_at = add_u64 (w.oracle.clock (w.oracle.asked + 1 + 1)) 60 in
      (user : User) × (find_user user_id w.db ≡ some user)
      × (response ≡ state.ext.b64_encode nonce)
      × (get j (challenge state user_id w).1.challenges
          ≡ (if user_id == j then some (nonce, expires_at) else get j w.challenges))
unfolding challenge get_user ◌>>=◌ fetch fill_bytes unix_now
challenge_sound state user_id j response w h = elim (Option-cases (find_user user_id w.db)) [
  | inl missing ↦ absurd (ground arith)
  | inr (user, exists) ↦ (
    user,
    exists,
    ground arith,
    ground (
      arith,
      get-insert user_id j
          (
            w.oracle.random (w.oracle.asked + 1) 32,
            add_u64 (w.oracle.clock (w.oracle.asked + 1 + 1)) 60,
          )
          w.challenges,
    ),
  )
]
