-- ===== src/Tests/Login.antt =====
-- A login in the scene of Tests/Scene.antt, from the challenge to a subscription.
use smqtt.Prelude.{
  ◌≡◌, refl, true, false, none, some, [], ◌++◌, Text, text, any, text_beq, text_eq, ◌==◌, arith,
}
use smqtt.Error.{ok}
use smqtt.State.{World}
use smqtt.Api.Auth.{VerifyRequest, verify}
use smqtt.Broker.AuthHook.{ConnectInfo, password_text, authenticate, allow}
use smqtt.Broker.AuthHook.Outcome.{admitted}
use smqtt.System.Login.{issued_claims, verify_connects}
use smqtt.Tests.Sample.{toy-laws, put, put_list, take_text, take_list, write_claims}
use smqtt.Tests.Scene.{alice, phone, nonce, phone_key, secret, server, scene, user}

abbrev signed : VerifyRequest
signed = record { user_id = alice; device_id = phone; signature = phone_key ++ nonce }

abbrev granted : Text
granted = put secret (write_claims (issued_claims server signed scene))

abbrev with_password : Text → ConnectInfo
with_password token = record { client_id = phone; password = some token }

issued : (verify server signed scene).0 ≡ ok granted
unfolding verify smqtt.Exec.◌>>=◌ smqtt.Api.Auth.open_session smqtt.Api.Auth.pop_challenge
    smqtt.Map.get text_beq smqtt.Exec.unix_now smqtt.Db.Users.get_user smqtt.Exec.fetch
    smqtt.Api.Auth.check_signature smqtt.Db.Devices.get_device_by_user smqtt.Table.select
    smqtt.Crypto.b64_decode smqtt.Api.Auth.issue_token smqtt.Db.Relationships.user_topics
    smqtt.Db.Relationships.list_relationships smqtt.Crypto.issue
issued = refl

given : password_text (with_password granted) ≡ some granted
unfolding password_text smqtt.Prelude.from_utf8 put write_claims smqtt.Crypto.new_claims put_list
    smqtt.Db.Relationships.extend_topics smqtt.Table.select text_beq take_list take_text
    smqtt.State.notify_topic
given = refl

alice_exists : smqtt.Db.Users.find_user alice scene.db ≡ some (user alice false)
unfolding text_beq
alice_exists = refl

verify_connects_example : authenticate server (with_password granted) scene ≡ (
  (false, some (allow false)),
  admitted (with_password granted) (issued_claims server signed scene) scene,
)
unfolding smqtt.Crypto.new_claims
verify_connects_example =
    verify_connects server signed scene scene granted (with_password granted) (user alice false)
      toy-laws issued given refl (omega arith) alice_exists refl refl refl
