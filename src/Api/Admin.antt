-- ===== src/Api/Admin.antt =====
-- api/admin.rs: registration tokens and suspension, behind the admin key.
pub mod Tokens
use smqtt.Prelude.{ℕ, not, Option, none, true, false, Text, Bytes, text, ℤ, ◌==◌, text_eq}
use smqtt.Error.{unauthorized}
use smqtt.Foreign.{Foreign}
use smqtt.State.{AppState}
use smqtt.Exec.{Action, pure, raise_if, ◌>>=◌, ◌>>◌, fill_bytes}
use smqtt.Db.Users.{set_suspended}
use smqtt.Db.Tokens as DbTokens
use smqtt.Broker.{kick_user}
use smqtt.Api.Extractors.{Headers, header_or_empty}

unfoldable pub require_admin_key : AppState → Headers → Action (Unit {0})
require_admin_key state headers =
    raise_if
      (not (header_or_empty state.ext headers (text "x-admin-key") == state.config.admin.api_key))
      unauthorized

pub record CreateTokenRequest : Type 0 where
  pub expires_in : ℕ
  pub max_uses : ℤ

unfoldable pub token_hash : Foreign → Text → Bytes
token_hash ext token = ext.hmac_sha256 (text "smqtt-token-hash") token

-- The response is the token itself; only its hash is stored.
unfoldable pub create_registration_token : AppState → Headers → CreateTokenRequest → Action Text
unfolding token_hash
create_registration_token state headers req = do
  require_admin_key state headers
  raw ← fill_bytes 32
  let token = state.ext.b64_encode raw
  DbTokens.create_registration_token (token_hash state.ext token) req.expires_in req.max_uses
  pure token

unfoldable pub suspend_user : AppState → Headers → Text → Option Text → Action (Unit {0})
suspend_user state headers user_id reason = do
  require_admin_key state headers
  set_suspended user_id true reason
  kick_user state user_id

unfoldable pub unsuspend_user : AppState → Headers → Text → Action (Unit {0})
unsuspend_user state headers user_id = do
  require_admin_key state headers
  set_suspended user_id false none
