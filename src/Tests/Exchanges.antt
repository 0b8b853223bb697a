-- ===== src/Tests/Exchanges.antt =====
-- Key exchanges in the scene of Tests/Scene.antt: `x` awaits its answer, `y` is complete.
use smqtt.Prelude.{
  ℕ, ◌+◌, ◌≡◌, ◌≢◌, refl, true, not, some, [], ◌∷◌, ◌++◌, Bytes, text, inr, ◌⊎◌, text_eq, text_beq,
  length, ltb_ℤ, as_i64,
}
use smqtt.Error.{ok, err, not_found}
use smqtt.Table.{select, Unique}
use smqtt.Rows.{PendingExchange}
use smqtt.State.{World, next, forwards, notify_topic}
use smqtt.Db.Users.{find_user}
use smqtt.Db.Exchanges.{find_exchange, new_exchange, purge_expired_exchanges}
use smqtt.Db.Purge.{purge_lem}
use smqtt.Api.Exchange.{InitiateRequest, ExchangeResponse, initiate, get, respond, notice}
use smqtt.Api.Exchange.Respond.{MayRespond, answered, respond_sound, respond_once}
use smqtt.Api.Exchange.Delivery.{exchange_delivers}
use smqtt.Api.Exchange.Fetch.{shown, is_final, get_sound, get_delivers_once}
use smqtt.Api.Exchange.Phase.{Step}
use smqtt.Api.Exchange.Lifecycle.{phase, op_respond, perform, event, exchange_refines}
use smqtt.Tests.Sample.{toy}
use smqtt.Tests.Scene.{replicate, alice, bob, server, scene, pending, complete}

abbrev key : Bytes
key = replicate 32 9

abbrev to_bob : InitiateRequest
to_bob = record { peer_id = bob; ephemeral_pubkey = key }

initiated : (initiate server alice to_bob scene).0 ≡ ok (scene.oracle.uuid 1)
unfolding initiate smqtt.Exec.◌>>=◌ smqtt.Db.Users.get_user smqtt.Exec.fetch text_beq
    smqtt.Api.Exchange.decode_ephemeral smqtt.Crypto.b64_decode smqtt.Db.Exchanges.create_exchange
    smqtt.Exec.new_uuid smqtt.Exec.unix_now smqtt.Db.Exchanges.insert_exchange new_exchange
    smqtt.Broker.publish_system
initiated = refl

abbrev answer : ExchangeResponse
answer = record (shown server (text "x") pending) { responder_pubkey = some key }

responded : (respond server bob (text "x") key scene).0 ≡ ok answer
unfolding respond smqtt.Exec.◌>>=◌ smqtt.Db.Exchanges.get_exchange smqtt.Exec.fetch text_beq
    smqtt.Api.Exchange.decode_ephemeral smqtt.Crypto.b64_decode
    smqtt.Db.Exchanges.set_responder_pubkey smqtt.Db.Exchanges.update_responder smqtt.Table.count
    smqtt.Broker.publish_system
responded = refl

respond_sound_example :
    (m : MayRespond server bob (text "x") key scene.db) × ((respond server bob
        (text "x")
        key
        scene).1.db
      ≡ answered m.key (text "x") scene.db)
    × ((respond server bob (text "x") key scene).1.broker
        ≡ []
          ++ forwards 1
              (text "smqtt-system")
              (notify_topic server m.exchange.initiator_id)
              (notice toy (text "exchange_complete") (text "x"))
            ∷ [])
respond_sound_example = respond_sound server bob (text "x") key scene answer responded

respond_once_example :
    (respond server bob (text "x") key (respond server bob (text "x") key scene).1).0 ≢ ok answer
respond_once_example = respond_once server bob bob (text "x") key key scene answer answer responded

got : (get server alice (text "y") scene).0 ≡ ok (shown server (text "y") complete)
unfolding get smqtt.Exec.◌>>=◌ smqtt.Db.Exchanges.get_exchange smqtt.Exec.fetch text_beq
    smqtt.Api.Exchange.discard
got = refl

get_sound_example :
    (x : PendingExchange) × (find_exchange (text "y") scene.db ≡ some x)
    × ((x.initiator_id ≡ alice) ⊎ (x.responder_id ≡ alice))
    × (shown server (text "y") complete ≡ shown server (text "y") x)
get_sound_example = get_sound server alice (text "y") scene (shown server (text "y") complete) got

found_x : find_exchange (text "x") scene.db ≡ some pending
unfolding text_beq
found_x = refl

found_y : find_exchange (text "y") scene.db ≡ some complete
unfolding text_beq
found_y = refl

final : is_final alice complete ≡ true
unfolding text_beq
final = refl

get_delivers_once_example :
    ((get server alice (text "y") scene).0 ≡ ok (shown server (text "y") complete))
    × ((get server bob (text "y") (get server alice (text "y") scene).1).0 ≡ err not_found)
get_delivers_once_example =
    get_delivers_once server alice bob (text "y") scene complete found_y final refl refl refl

purge_lem_example :
    let kept =
      select (λ (x : PendingExchange). not (ltb_ℤ x.expires_at (as_i64 20))) scene.db.exchanges in
    (n : ℕ) × (purge_expired_exchanges scene
      ≡ (ok n, next (next (record scene { db = record scene.db { exchanges = kept } }))))
    × (length kept + n ≡ length scene.db.exchanges)
purge_lem_example = purge_lem scene refl

-- Bob answers what alice initiated, and she fetches the keys.
abbrev begun : World
begun = record scene {
  db = record scene.db {
    exchanges = scene.db.exchanges ++ new_exchange (scene.oracle.uuid 1) alice bob key 22 23 ∷ [];
  };
}

abbrev response : ExchangeResponse
response = record {
  exchange_id = scene.oracle.uuid 1;
  initiator_id = alice;
  responder_id = bob;
  initiator_pubkey = key;
  responder_pubkey = some (replicate 32 4);
}

abbrev ended : World
ended = record scene { db = answered (replicate 32 4) (scene.oracle.uuid 1) begun.db }

begun_kept : begun.db.exchanges ≡ (initiate server alice to_bob scene).1.db.exchanges
unfolding initiate smqtt.Exec.◌>>=◌ smqtt.Db.Users.get_user smqtt.Exec.fetch text_beq
    smqtt.Api.Exchange.decode_ephemeral smqtt.Crypto.b64_decode smqtt.Db.Exchanges.create_exchange
    smqtt.Exec.new_uuid smqtt.Exec.unix_now smqtt.Db.Exchanges.insert_exchange new_exchange
    smqtt.Broker.publish_system
begun_kept = refl

answered_begun : (respond server bob (scene.oracle.uuid 1) (replicate 32 4) begun).0 ≡ ok response
unfolding respond smqtt.Exec.◌>>=◌ smqtt.Db.Exchanges.get_exchange smqtt.Exec.fetch text_beq
    new_exchange smqtt.Api.Exchange.decode_ephemeral smqtt.Crypto.b64_decode
    smqtt.Db.Exchanges.set_responder_pubkey smqtt.Db.Exchanges.update_responder smqtt.Table.count
    smqtt.Broker.publish_system
answered_begun = refl

ended_kept :
    ended.db.exchanges
    ≡ (respond server bob (scene.oracle.uuid 1) (replicate 32 4) begun).1.db.exchanges
unfolding respond smqtt.Exec.◌>>=◌ smqtt.Table.update smqtt.Db.Exchanges.get_exchange
    smqtt.Exec.fetch text_beq new_exchange smqtt.Api.Exchange.decode_ephemeral
    smqtt.Crypto.b64_decode smqtt.Db.Exchanges.set_responder_pubkey
    smqtt.Db.Exchanges.update_responder smqtt.Table.count smqtt.Broker.publish_system
ended_kept = refl

exchange_delivers_example :
    (initiator_key : Bytes) × (responder_key : Bytes) × (toy.b64_decode key ≡ inr initiator_key)
    × (toy.b64_decode (replicate 32 4) ≡ inr responder_key)
    × ((get server alice (scene.oracle.uuid 1) ended).0
        ≡ ok (record {
          exchange_id = scene.oracle.uuid 1;
          initiator_id = alice;
          responder_id = bob;
          initiator_pubkey = toy.b64_encode initiator_key;
          responder_pubkey = some (toy.b64_encode responder_key);
        }))
    × ((get server bob (scene.oracle.uuid 1) (get server alice (scene.oracle.uuid 1) ended).1).0
        ≡ err not_found)
exchange_delivers_example =
    exchange_delivers server alice bob (scene.oracle.uuid 1) to_bob (replicate 32 4) scene begun
      ended response initiated begun_kept answered_begun ended_kept refl refl refl

exchanges-Unique : Unique (λ x. x.exchange_id) scene.db.exchanges
unfolding text_beq
exchanges-Unique = (refl, (refl, tt))

exchange_refines_example :
    Step
      (event (op_respond bob (text "x") key))
      (phase (text "x") scene.db)
      (phase (text "x") (perform server (op_respond bob (text "x") key) scene).db)
exchange_refines_example =
    exchange_refines server (op_respond bob (text "x") key) (text "x") scene exchanges-Unique
