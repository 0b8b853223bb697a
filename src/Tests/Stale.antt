-- ===== src/Tests/Stale.antt =====
-- A token that is made while one of its topics is revoked, in the scene of Tests/Scene.antt.
use smqtt.Prelude.{
  ℕ, ◌+◌, ◌≤◌, ◌≡◌, refl, true, false, some, none, inr, Text, text, text_beq, as_i64, ltb_ℤ, pos,
  arith,
}
use smqtt.Claims.{Claims}
use smqtt.Rows.{User}
use smqtt.Error.{ok}
use smqtt.State.{World, next}
use smqtt.Task.{done}
use smqtt.Db.Users.{find_user}
use smqtt.Api.Auth.Outcome.{token_claims}
use smqtt.Api.Relationships.{revoke}
use smqtt.Broker.AuthHook.{ConnectInfo, password_text, authenticate, allow}
use smqtt.Broker.AuthHook.Outcome.{admitted}
use smqtt.Concurrent.Api.{issue_token}
use smqtt.Concurrent.Schedule.{ticks}
use smqtt.Concurrent.Stale.{revoked_topics_connect}
use smqtt.Tests.Sample.{toy-laws, put, put_list, put_all, write_claims, take_list, take_text}
use smqtt.Tests.Scene.{alice, phone, secret, server, scene, user}
use smqtt.Tests.Concurrent.{signed}

-- Alice's relationship is revoked after its topics were read.
abbrev revoked : World
revoked = (revoke server alice (text "r") (next scene)).1

abbrev claims : Claims
claims = token_claims server signed scene.db (revoked.oracle.clock revoked.oracle.asked)

abbrev token : Text
token = put secret (write_claims claims)

abbrev info : ConnectInfo
info = record { client_id = phone; password = some token }

abbrev kicked_alice : User
kicked_alice = record (user alice false) { tokens_valid_from = pos 23 }

given : password_text info ≡ some token
unfolding revoke text_beq smqtt.Exec.◌>>=◌ smqtt.Db.Relationships.get_relationship smqtt.Exec.fetch
    smqtt.Db.Relationships.delete_relationship smqtt.Db.Relationships.remove_relationship
    smqtt.Table.count smqtt.Broker.kick_user smqtt.Db.Devices.get_device_by_user
    smqtt.Db.Users.invalidate_tokens smqtt.Exec.unix_now smqtt.Db.Users.update_valid_from
    smqtt.Table.select smqtt.Table.update smqtt.Table.delete password_text smqtt.Prelude.from_utf8
    put write_claims put_list put_all smqtt.Crypto.new_claims take_list take_text
    smqtt.Tests.Sample.take_all smqtt.Tests.Sample.split smqtt.Db.Relationships.extend_topics
    smqtt.Db.Relationships.topics_or_default smqtt.State.notify_topic smqtt.State.notification_topic
given = refl

exists : find_user alice (next revoked).db ≡ some kicked_alice
unfolding revoke text_beq smqtt.Exec.◌>>=◌ smqtt.Db.Relationships.get_relationship smqtt.Exec.fetch
    smqtt.Db.Relationships.delete_relationship smqtt.Db.Relationships.remove_relationship
    smqtt.Table.count smqtt.Broker.kick_user smqtt.Db.Devices.get_device_by_user
    smqtt.Db.Users.invalidate_tokens smqtt.Exec.unix_now smqtt.Db.Users.update_valid_from
    smqtt.Table.select smqtt.Table.update smqtt.Table.delete
exists = refl

fresh : (next revoked).oracle.clock (next revoked).oracle.asked ≤ claims.exp + 60
unfolding revoke text_beq smqtt.Exec.◌>>=◌ smqtt.Db.Relationships.get_relationship smqtt.Exec.fetch
    smqtt.Db.Relationships.delete_relationship smqtt.Db.Relationships.remove_relationship
    smqtt.Table.count smqtt.Broker.kick_user smqtt.Db.Devices.get_device_by_user
    smqtt.Db.Users.invalidate_tokens smqtt.Exec.unix_now smqtt.Db.Users.update_valid_from
    smqtt.Table.select smqtt.Table.update smqtt.Table.delete smqtt.Crypto.new_claims
fresh = omega arith

current : ltb_ℤ (as_i64 (revoked.oracle.clock revoked.oracle.asked)) (pos 23) ≡ false
unfolding revoke text_beq smqtt.Exec.◌>>=◌ smqtt.Db.Relationships.get_relationship smqtt.Exec.fetch
    smqtt.Db.Relationships.delete_relationship smqtt.Db.Relationships.remove_relationship
    smqtt.Table.count smqtt.Broker.kick_user smqtt.Db.Devices.get_device_by_user
    smqtt.Db.Users.invalidate_tokens smqtt.Exec.unix_now smqtt.Db.Users.update_valid_from
    smqtt.Table.select smqtt.Table.update smqtt.Table.delete
current = refl

no_failure : (next revoked).oracle.fails ((next revoked).oracle.asked + 1) ≡ false
unfolding revoke smqtt.Exec.◌>>=◌ smqtt.Db.Relationships.get_relationship smqtt.Exec.fetch text_beq
    smqtt.Db.Relationships.delete_relationship smqtt.Db.Relationships.remove_relationship
    smqtt.Table.count smqtt.Broker.kick_user smqtt.Db.Devices.get_device_by_user
    smqtt.Db.Users.invalidate_tokens smqtt.Exec.unix_now smqtt.Db.Users.update_valid_from
    smqtt.Table.select
no_failure = refl

revoked_topics_connect_example :
    ((ticks 1 (ticks 1 (issue_token server signed) scene).0 revoked).0 ≡ done (ok token))
    × (authenticate server info (next revoked)
        ≡ ((false, some (allow false)), admitted info claims (next revoked)))
revoked_topics_connect_example =
    revoked_topics_connect server signed scene revoked (next revoked) token info kicked_alice
      toy-laws refl refl given refl fresh exists refl current no_failure
