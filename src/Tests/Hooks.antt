-- ===== src/Tests/Hooks.antt =====
-- Connections, subscriptions and kicks in the scene of Tests/Scene.antt.
use smqtt.Prelude.{
  ◌≡◌, refl, true, false, some, Text, text, ◌⊎◌, ◌↔◌, any, ◌==◌, text_eq, text_beq, arith,
  from_utf8, none, if◌then◌else◌,
}
use smqtt.Map.{get, insert}
use smqtt.Error.{ok}
use smqtt.State.{World, next}
use smqtt.Claims.{Claims}
use smqtt.Broker.{kick_user}
use smqtt.Broker.Kick.{kicked, kick_user_lem}
use smqtt.Broker.AuthHook.{
  ConnectInfo, Subscribe, deny, allow, client_authenticate, subscribe_success, password_text,
  authenticate, check_subscribe_acl,
}
use smqtt.Broker.AuthHook.Outcome.{
  Admits, admitted, authenticate_complete, authenticate_cases, subscribe_iff,
}
use smqtt.Broker.AuthHook.Stale.{kicked_denied, same_second_admitted}
use smqtt.Task.{done}
use smqtt.Api.Extractors.{Headers}
use smqtt.Api.Admin.{suspend_user}
use smqtt.Concurrent.Hook.{hook}
use smqtt.Concurrent.Schedule.{ticks}
use smqtt.Concurrent.Late.{suspended_connects_late}
use smqtt.Tests.Sample.{
  toy, put, put_all, put_list, take_text, take_list, write_claims, read_claims, if_fresh, unseal,
}
use smqtt.Tests.Scene.{alice, phone, secret, server, scene, user, alice_claims, alice_token}

abbrev with_token : Text → ConnectInfo
with_token token = record { client_id = phone; password = some token }

given : password_text (with_token alice_token) ≡ some alice_token
unfolding password_text from_utf8 put write_claims put_list put_all
given = refl

decoded : toy.jwt_decode secret 20 alice_token ≡ some alice_claims
unfolding unseal take_text put text_beq read_claims write_claims take_list put_list if_fresh
decoded = refl

decoded_later : toy.jwt_decode secret 23 alice_token ≡ some alice_claims
unfolding unseal take_text put text_beq read_claims write_claims take_list put_list if_fresh
decoded_later = refl

admits : Admits server (with_token alice_token) scene alice_claims
unfolding text_beq
admits = record {
  token = alice_token;
  given = given;
  decoded = decoded;
  bound = refl;
  user = user alice false;
  exists = refl;
  active = refl;
  current = refl;
}

authenticate_cases_example :
    ((claims : Claims) × Admits server (with_token alice_token) scene claims
      × (authenticate server (with_token alice_token) scene
          ≡ ((false, some (allow false)), admitted (with_token alice_token) claims scene)))
    ⊎ (((authenticate server (with_token alice_token) scene).0 ≡ deny)
        × ((authenticate server (with_token alice_token) scene).1.sessions ≡ scene.sessions)
        × ((authenticate server (with_token alice_token) scene).1.db ≡ scene.db))
authenticate_cases_example = authenticate_cases server (with_token alice_token) scene

abbrev news : Subscribe
news = record { topic_filter = text "news"; qos = 1 }

subscribe_iff_example :
    ((check_subscribe_acl phone news scene).0 ≡ (true, some (subscribe_success 1))) ↔ (
      (claims : Claims) × (get phone scene.sessions ≡ some claims)
      × (any (λ t. t == text "news") claims.sub_topics ≡ true))
subscribe_iff_example = subscribe_iff phone news scene

kick_user_lem_example : kick_user server alice scene ≡ (ok tt, kicked server alice scene)
kick_user_lem_example = kick_user_lem server alice scene refl refl

authenticate_complete_example :
    authenticate server (with_token alice_token) scene
    ≡ ((false, some (allow false)), admitted (with_token alice_token) alice_claims scene)
authenticate_complete_example =
    authenticate_complete server (with_token alice_token) scene alice_claims admits refl

kicked_denied_example :
    (authenticate server (with_token alice_token) (kick_user server alice scene).1).0 ≡ deny
kicked_denied_example =
    kicked_denied server alice scene (with_token alice_token) alice_token alice_claims given
      decoded_later refl refl refl (ground arith)

-- A token of the second in which the clock is read next.
abbrev stamped_claims : Claims
stamped_claims = record alice_claims { iat = 20 }

abbrev stamped_token : Text
stamped_token = put secret (write_claims stamped_claims)

stamped_given : password_text (with_token stamped_token) ≡ some stamped_token
unfolding password_text from_utf8 put write_claims put_list put_all
stamped_given = refl

stamped_decoded : toy.jwt_decode secret 23 stamped_token ≡ some stamped_claims
unfolding unseal take_text put text_beq read_claims write_claims take_list put_list if_fresh
stamped_decoded = refl

same_second_admitted_example :
    (authenticate server (with_token stamped_token) (kick_user server alice scene).1).0
    ≡ (false, some (allow false))
unfolding text_beq
same_second_admitted_example =
    same_second_admitted server alice scene (with_token stamped_token) stamped_token stamped_claims
      stamped_given stamped_decoded refl (user alice false) refl refl refl refl refl refl refl

abbrev admin : Headers
admin name = if name == text "x-admin-key" then some (text "k") else none

-- Alice is suspended after the hook has read her row.
abbrev suspended : World
suspended = (suspend_user server admin alice none (next (next scene))).1

suspended_connects_late_example :
    ticks 3
      (ticks 2 (hook server (client_authenticate (with_token alice_token)) none) scene).0
      suspended
    ≡ (
      done (ok (false, some (allow false))),
      record suspended { sessions = insert phone alice_claims suspended.sessions },
    )
suspended_connects_late_example =
    suspended_connects_late server (with_token alice_token) scene alice_claims admits none suspended
      refl
