-- ===== src/Tests/Races.antt =====
-- Connections and responses among interleaved handlers, from the scene of Tests/Scene.antt.
use smqtt.Prelude.{
  ℕ, ◌+◌, ◌≤◌, ◌≡◌, refl, Bool, true, false, Option, none, some, List, [], ◌∷◌, ◌++◌, Text, Bytes,
  text, inl, inr, ◌==◌, text_eq, text_beq, arith, if◌then◌else◌, subst, sym, any, ap, ◌∙◌, length,
}
use smqtt.Error.{ok}
use smqtt.Claims.{Claims}
use smqtt.Db.Exchanges.{find_exchange}
use smqtt.State.{World}
use smqtt.Task.{Task, done, forget, run}
use smqtt.Api.Exchange.Respond.{MayRespond}
use smqtt.Broker.AuthHook.{
  ConnectInfo, Subscribe, ReturnType, deny, client_authenticate, password_text, subscribe_success,
  check_subscribe_acl,
}
use smqtt.System.{Any}
use smqtt.Map.{get}
use smqtt.System.Sessions.{IsGenuine}
use smqtt.System.Suspension.{NotLifted}
use smqtt.Concurrent.Hook.{hook}
use smqtt.Concurrent.Pool.{broker_event, Runs, here, later, idle}
use smqtt.Concurrent.Schedule.{ticks, interleave}
use smqtt.Concurrent.Beside.{run-Served}
use smqtt.Concurrent.Refused.{IsTokenOf, suspended_served_no_connection}
use smqtt.Concurrent.Granted.{granted_by_token_interleaved}
use smqtt.Concurrent.Race.{responses_race, two_responses, overtaking, reply}
use smqtt.Tests.Sample.{
  toy, put, put_all, put_list, take_text, take_list, write_claims, read_claims, if_fresh, unseal,
}
use smqtt.Tests.Scene.{
  replicate, alice, bob, phone, server, scene, scene_with, secret, pending, alice_claims,
  alice_token,
}
use smqtt.Tests.Concurrent.{ticks-Runs, busy-Runs, locked, locked-IsSuspended}

abbrev connecting : ConnectInfo
connecting = record { client_id = phone; password = some alice_token }

given : password_text connecting ≡ some alice_token
unfolding password_text smqtt.Prelude.from_utf8 put write_claims put_list put_all
given = refl

decoded_alice : (time : ℕ) → unseal secret time alice_token ≡ if_fresh time alice_claims
unfolding unseal take_text put text_beq read_claims write_claims take_list put_list
decoded_alice time = refl

if_fresh_only : (time : ℕ) (c d : Claims) → if_fresh time c ≡ some d → c ≡ d
unfolding if_fresh
if_fresh_only time c d h = ground arith

some_only : (s t : Text) (o : Option Text) → o ≡ some s → o ≡ some t → s ≡ t
some_only s t o h k = cc

-- Whenever the token is read, it is alice's.
of_alice : IsTokenOf server alice connecting
of_alice token time claims pw decoded =
    let e = some_only alice_token token (password_text connecting) given pw in
    let d = subst (λ t. unseal secret time t ≡ some claims) (sym e) decoded in
    ap (λ c. c.sub) (sym (if_fresh_only time alice_claims claims (sym (decoded_alice time) ∙ d)))

suspended_served_no_connection_example :
    (run (hook server (client_authenticate connecting) none) locked.world).0 ≡ ok deny
suspended_served_no_connection_example =
    suspended_served_no_connection server alice connecting none _
      (busy-Runs (NotLifted alice) (scene_with true)) locked-IsSuspended of_alice
      (run-Served server (NotLifted alice) (hook server (client_authenticate connecting) none)
        locked)

abbrev started : World
started = record scene { sessions = [] }

abbrev attached : World
attached = (ticks 5 (forget (hook server (client_authenticate connecting) none)) started).1

attached-Runs : Runs server Any (idle started) (record {
  world = attached;
  running = (ticks 5 (forget (hook server (client_authenticate connecting) none)) started).0 ∷ [];
})
attached-Runs =
    ticks-Runs server Any (idle started) 5 _ started
      (later here (broker_event (client_authenticate connecting) none))

abbrev to_news : Subscribe
to_news = record { topic_filter = text "news"; qos = 1 }

granted : (check_subscribe_acl phone to_news attached).0 ≡ (true, some (subscribe_success 1))
unfolding check_subscribe_acl smqtt.Map.get ticks smqtt.Concurrent.Schedule.tick smqtt.Task.◌>>=◌
    hook smqtt.Task.catch smqtt.Concurrent.Hook.admit smqtt.Task.atom
    smqtt.Concurrent.Hook.read_claims smqtt.Prelude.from_utf8 put write_claims put_list
    smqtt.Crypto.verify smqtt.Exec.unix_now unseal take_text smqtt.Broker.AuthHook.may_subscribe
    password_text smqtt.Db.Users.get_user smqtt.Exec.fetch smqtt.Exec.◌>>=◌ smqtt.Map.insert
    smqtt.Map.remove text_beq smqtt.Task.ret if_fresh put_all read_claims smqtt.Tests.Sample.split
    smqtt.Tests.Sample.take_all take_list smqtt.Tests.Sample.take_number
granted = refl

granted_by_token_interleaved_example :
    (claims : Claims) × (get phone attached.sessions ≡ some claims)
    × (any (λ t. t == text "news") claims.sub_topics ≡ true)
    × IsGenuine server phone claims
granted_by_token_interleaved_example =
    granted_by_token_interleaved server phone to_news refl attached-Runs granted

found_x : find_exchange (text "x") scene.db ≡ some pending
unfolding text_beq
found_x = refl

abbrev may_bob : (key : Bytes) → length key ≡ 32 → MayRespond server bob (text "x") key scene.db
may_bob key sized = record {
  exchange = pending;
  exists = found_x;
  responder = refl;
  unanswered = refl;
  key = key;
  decoded = refl;
  sized = sized;
}

responses_race_example :
    let end = interleave overtaking (
      two_responses server bob
        (text "x")
        (replicate 32 8)
        (replicate 32 9)
        scene
        (may_bob (replicate 32 8) refl)
        (may_bob (replicate 32 9) refl)) in
    (end.first ≡ done (ok (reply server (text "x") pending (replicate 32 8))))
    × (end.second ≡ done (ok (reply server (text "x") pending (replicate 32 9))))
    × (find_exchange (text "x") end.world.db
        ≡ some (record pending { responder_pubkey = some (replicate 32 8) }))
responses_race_example =
    responses_race server bob (text "x") (replicate 32 8) (replicate 32 9) scene
      (may_bob (replicate 32 8) refl) (may_bob (replicate 32 9) refl) (λ n. refl)
