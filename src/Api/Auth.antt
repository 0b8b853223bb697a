-- ===== src/Api/Auth.antt =====
-- api/auth.rs: challenge and response.
pub mod Challenge
pub mod Outcome
pub mod Issue
use smqtt.Prelude.{
  ℕ, not, Option, List, ◌∷◌, [], ◌++◌, Text, Bytes, text, add_u64, ltb, ◌==◌, nat_eq, text_eq,
  length, find,
}
use smqtt.Error.{unauthorized, forbidden, bad_request, internal}
use smqtt.Map.{get, insert, remove}
use smqtt.State.{AppState, notify_topic}
use smqtt.Exec.{
  Action, pure, lift, gets, ok_or, modify, raise_if, ◌>>=◌, ◌>>◌, unix_now, fill_bytes,
}
use smqtt.Rows.{Device}
use smqtt.Crypto.{b64_decode, issue}
use smqtt.Db.Users.{get_user}
use smqtt.Db.Devices.{get_device_by_user}
use smqtt.Db.Relationships.{user_topics}

abbrev pub challenge_ttl_secs : ℕ
challenge_ttl_secs = 60

-- The response is the nonce in base64.
unfoldable pub challenge : AppState → Text → Action Text
challenge state user_id = do
  get_user user_id
  nonce ← fill_bytes 32
  now ← unix_now
  let expires_at = add_u64 now challenge_ttl_secs
  modify (λ w. record w { challenges = insert user_id (nonce, expires_at) w.challenges })
  pure (state.ext.b64_encode nonce)

pub record VerifyRequest : Type 0 where
  pub user_id : Text
  pub device_id : Text
  pub signature : Text

-- Step 1 of `verify`: the challenge is removed before anything else is checked.
unfoldable pub pop_challenge : Text → Action (Bytes × ℕ)
pop_challenge user_id = do
  found ← gets (λ w. get user_id w.challenges)
  modify (λ w. record w { challenges = remove user_id w.challenges })
  ok_or unauthorized found

-- Steps 1 and 2: a fresh challenge, and a user who is not suspended. Returns the nonce.
unfoldable pub open_session : Text → Action Bytes
open_session user_id = do
  challenge ← pop_challenge user_id
  now ← unix_now
  raise_if (ltb challenge.1 now) unauthorized
  user ← get_user user_id
  raise_if user.suspended forbidden
  pure challenge.0

abbrev pub find_device : Text → List Device → Option Device
find_device device_id devices = find (λ d. d.device_id == device_id) devices

-- Step 3: the signature of the nonce by the device's key.
unfoldable pub check_signature : AppState → VerifyRequest → Bytes → Action (Unit {0})
check_signature state req nonce = do
  devices ← get_device_by_user req.user_id
  device ← ok_or unauthorized (find_device req.device_id devices)
  raise_if (not (length device.pubkey == 32)) (internal (text "invalid pubkey in db"))
  raise_if (not (state.ext.is_ed25519_key device.pubkey)) (internal (text "invalid pubkey in db"))
  sig_bytes ← lift (b64_decode state.ext req.signature)
  raise_if (not (length sig_bytes == 64)) (bad_request (text "signature must be 64 bytes"))
  raise_if (not (state.ext.ed25519_verify device.pubkey nonce sig_bytes)) unauthorized

-- Step 4: the token, with the topics of the user's relationships and the notification topic.
unfoldable pub issue_token : AppState → VerifyRequest → Action Text
issue_token state req = do
  topics ← user_topics state.ext req.user_id
  let notify = notify_topic state req.user_id
  issue state req.user_id req.device_id state.config.jwt.ttl_seconds topics.0
      (topics.1 ++ notify ∷ []) notify

-- The response is the token.
unfoldable pub verify : AppState → VerifyRequest → Action Text
verify state req = do
  nonce ← open_session req.user_id
  check_signature state req nonce
  issue_token state req
