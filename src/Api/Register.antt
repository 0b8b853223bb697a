-- ===== src/Api/Register.antt =====
-- api/register.rs: registration under the configured policy.
pub mod Consume
pub mod Policy
pub mod Accepted
use smqtt.Prelude.{not, Option, none, some, Text, Bytes, text, ◌==◌, nat_eq, length}
use smqtt.Error.{forbidden, bad_request, internal}
use smqtt.Config.{RegistrationMode, open_mode, closed_mode, policy_mode, PolicyKind, push, hook}
use smqtt.Foreign.{Foreign}
use smqtt.State.{AppState, HookReply, not_sent, not_json, answered}
use smqtt.Exec.{Action, pure, raise, lift, ok_or, raise_if, ◌>>=◌, ◌>>◌, ask_hook}
use smqtt.Crypto.{b64_decode}
use smqtt.Db.Users.{create_user}
use smqtt.Db.Devices.{create_device}
use smqtt.Db.Tokens.{consume_registration_token}

pub record RegisterRequest : Type 0 where
  pub pubkey : Text
  pub registration_token : Option Text

pub record RegisterResponse : Type 0 where
  pub user_id : Text
  pub device_id : Text

unfoldable pub token_hash : Foreign → Text → Bytes
token_hash ext token = ext.hmac_sha256 (text "smqtt-token-hash") token

unfoldable pub read_reply : HookReply → Action (Unit {0})
read_reply (not_sent e) = raise (internal e)
read_reply (not_json e) = raise (internal e)
read_reply (answered none) = raise forbidden
read_reply (answered (some allowed)) = raise_if (not allowed) forbidden

unfoldable pub validate_via_hook : Text → Text → Action (Unit {0})
unfolding read_reply
validate_via_hook url pubkey = do reply ← ask_hook url pubkey; read_reply reply

-- `match policy.kind`
unfoldable pub apply_policy :
    AppState → RegisterRequest → PolicyKind → Option Text → Action (Unit {0})
unfolding token_hash
apply_policy state req push hook_url = do
  token ← ok_or (bad_request (text "registration_token required")) req.registration_token
  consume_registration_token (token_hash state.ext token)
apply_policy state req hook hook_url = do
  url ← ok_or (internal (text "hook_url not configured")) hook_url
  validate_via_hook url req.pubkey

-- Step 1 of `register`: `match state.config.registration.mode`.
unfoldable pub check_mode : AppState → RegisterRequest → RegistrationMode → Action (Unit {0})
unfolding apply_policy
check_mode state req open_mode = pure tt
check_mode state req closed_mode = raise forbidden
check_mode state req policy_mode = do
  policy ←
      ok_or (internal (text "policy mode configured but no policy"))
        state.config.registration.policy
  apply_policy state req policy.kind policy.hook_url

-- Step 2 of `register`: the 32 bytes of an Ed25519 key.
unfoldable pub decode_key : AppState → RegisterRequest → Action Bytes
decode_key state req = do
  pubkey_bytes ← lift (b64_decode state.ext req.pubkey)
  raise_if (not (length pubkey_bytes == 32))
      (bad_request (text "pubkey must be 32 bytes (Ed25519)"))
  raise_if (not (state.ext.is_ed25519_key pubkey_bytes))
      (bad_request (text "invalid Ed25519 public key"))
  pure pubkey_bytes

-- Step 3 of `register`: the rows of the user and the device.
unfoldable pub enroll : Bytes → Action RegisterResponse
enroll pubkey = do
  user ← create_user
  device ← create_device user.user_id pubkey
  pure (record { user_id = user.user_id; device_id = device.device_id })

unfoldable pub register : AppState → RegisterRequest → Action RegisterResponse
register state req = do
  check_mode state req state.config.registration.mode
  pubkey ← decode_key state req
  enroll pubkey
