-- ===== src/Tests/Grants.antt =====
-- Relationships in the scene of Tests/Scene.antt.
use smqtt.Prelude.{
  ℕ, ◌+◌, ◌≤◌, ltb, true, arith, pos, ◌≡◌, refl, some, [], ◌∷◌, ◌++◌, text, text_eq, text_beq,
}
use smqtt.Error.{ok}
use smqtt.Db.Relationships.{extend_topics, topics_or_default, relationships_of, find_relationship}
use smqtt.Broker.Kick.{kicked}
use smqtt.Api.Relationships.{CreateRequest, RelationshipResponse, create, revoke}
use smqtt.Api.Relationships.Grants.{create_grants}
use smqtt.Api.Relationships.Revoke.{without, removed, revoke_lem}
use smqtt.State.{World}
use smqtt.Api.Relationships.Unnoticed.{revoke_unnoticed}
use smqtt.Tests.Sample.{toy, toy-laws}
use smqtt.Tests.Scene.{alice, bob, server, scene, friends}

abbrev sports : CreateRequest
sports = record {
  peer_id = alice;
  publish_topics = text "s" ∷ [];
  subscribe_topics = text "t" ∷ text "u" ∷ [];
}

abbrev response : RelationshipResponse
response = record {
  relationship_id = scene.oracle.uuid 0;
  user_id = bob;
  peer_id = alice;
  publish_topics = text "s" ∷ [];
  subscribe_topics = text "t" ∷ text "u" ∷ [];
  created_at = pos 21;
}

created : (create server bob sports scene).0 ≡ ok response
unfolding create smqtt.Exec.◌>>=◌ smqtt.Db.Relationships.create_relationship smqtt.Exec.new_uuid
    smqtt.Exec.unix_now smqtt.Exec.run_query smqtt.Db.Relationships.insert_relationship text_beq
    smqtt.Db.Relationships.new_relationship
created = refl

create_grants_example :
    let before = extend_topics toy (relationships_of bob scene.db) [] [] in
    extend_topics toy (relationships_of bob (create server bob sports scene).1.db) [] []
    ≡ (before.0 ++ text "s" ∷ [], before.1 ++ text "t" ∷ text "u" ∷ [])
create_grants_example = create_grants server bob sports scene response toy-laws created

found : find_relationship alice (text "r") scene.db ≡ some friends
unfolding text_beq
found = refl

revoke_lem_example :
    revoke server alice (text "r") scene
    ≡ (ok tt, kicked server bob (kicked server alice (removed server alice (text "r") scene)))
revoke_lem_example = revoke_lem server alice (text "r") scene friends found (λ n. refl)

-- From the third question on the database fails.
abbrev failing : World
failing = record scene { oracle = record scene.oracle { fails = λ n. ltb 1 n } }

still_down : (n : ℕ) → 0 + 2 ≤ n → ltb 1 n ≡ true
still_down n h = ground arith

revoke_unnoticed_example :
    ((revoke server alice (text "r") failing).0 ≡ ok tt)
    × ((revoke server alice (text "r") failing).1.db ≡ without alice (text "r") failing.db)
    × ((revoke server alice (text "r") failing).1.broker ≡ failing.broker)
revoke_unnoticed_example =
    revoke_unnoticed server alice (text "r") failing friends found refl refl still_down
