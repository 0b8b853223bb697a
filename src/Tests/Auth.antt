-- ===== src/Tests/Auth.antt =====
-- Challenge and response in the scene of Tests/Scene.antt.
use smqtt.Prelude.{◌≡◌, refl, false, ◌++◌, Text, Bytes, inr, text_eq, text_beq, arith, false}
use smqtt.Map.{get}
use smqtt.Error.{ok, err, unauthorized}
use smqtt.State.{notify_topic, notification_topic}
use smqtt.Exec.{◌>>=◌, unix_now, fetch}
use smqtt.Crypto.{b64_decode, issue}
use smqtt.Db.Users.{get_user}
use smqtt.Db.Devices.{get_device_by_user}
use smqtt.Db.Relationships.{user_topics, list_relationships, extend_topics, topics_or_default}
use smqtt.Api.Auth.{
  VerifyRequest, verify, open_session, pop_challenge, check_signature, issue_token,
}
use smqtt.Api.Auth.Outcome.{Opens, Signs, token_claims}
use smqtt.Api.Auth.Issue.{verify_sound, verify_complete}
use smqtt.Api.Auth.Challenge.{verify_replayed}
use smqtt.Tests.Sample.{toy, put, write_claims}
use smqtt.Tests.Scene.{alice, phone, nonce, phone_key, server, scene, user, alice_phone, secret}

abbrev signed : VerifyRequest
signed = record { user_id = alice; device_id = phone; signature = phone_key ++ nonce }

abbrev granted : Text
granted = put secret (write_claims (token_claims server signed scene.db 24))

opens : Opens alice scene nonce
unfolding get text_beq
opens = record {
  expires_at = 80;
  challenged = refl;
  fresh = omega arith;
  user = user alice false;
  exists = refl;
  active = refl;
}

signs : Signs server signed nonce scene.db
unfolding text_beq smqtt.Table.select
signs = record {
  device = alice_phone;
  listed = refl;
  sized_key = refl;
  valid_key = refl;
  signature = phone_key ++ nonce;
  decoded = refl;
  sized_signature = refl;
  verified = refl;
}

issued : (verify server signed scene).0 ≡ ok granted
unfolding verify open_session pop_challenge ◌>>=◌ unix_now get_user fetch check_signature
    get_device_by_user b64_decode issue_token user_topics list_relationships extend_topics
    topics_or_default issue notify_topic notification_topic get text_beq smqtt.Table.select
issued = refl

verify_sound_example :
    (n : Bytes) × Opens alice scene n
    × Signs server signed n scene.db
    × (toy.jwt_encode secret (token_claims server signed scene.db 24) ≡ inr granted)
verify_sound_example = verify_sound server signed scene granted issued

verify_complete_example : (verify server signed scene).0 ≡ ok granted
verify_complete_example =
    verify_complete server signed scene granted nonce opens signs refl refl refl refl

verify_replayed_example : (verify server signed (verify server signed scene).1).0 ≡ err unauthorized
verify_replayed_example = verify_replayed server signed signed scene refl
