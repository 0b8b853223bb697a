-- ===== src/Api/Relationships.antt =====
-- api/relationships.rs: the permission grants of a user.
pub mod Grants
pub mod Revoke
pub mod Unnoticed
use smqtt.Prelude.{List, map, Text, ℤ}
use smqtt.Foreign.{Foreign}
use smqtt.Rows.{Relationship}
use smqtt.State.{AppState}
use smqtt.Exec.{Action, pure, ◌>>=◌, ◌>>◌}
use smqtt.Db.Relationships.{
  create_relationship, list_relationships, get_relationship, delete_relationship, topics_or_default,
}
use smqtt.Broker.{kick_user}

pub record CreateRequest : Type 0 where
  pub peer_id : Text
  pub publish_topics : List Text
  pub subscribe_topics : List Text

pub record RelationshipResponse : Type 0 where
  pub relationship_id : Text
  pub user_id : Text
  pub peer_id : Text
  pub publish_topics : List Text
  pub subscribe_topics : List Text
  pub created_at : ℤ

unfoldable pub create : AppState → Text → CreateRequest → Action RelationshipResponse
create state user_id req = do
  rel ← create_relationship state.ext user_id req.peer_id req.publish_topics req.subscribe_topics
  pure (record {
    relationship_id = rel.relationship_id;
    user_id = rel.user_id;
    peer_id = rel.peer_id;
    publish_topics = req.publish_topics;
    subscribe_topics = req.subscribe_topics;
    created_at = rel.created_at;
  })

unfoldable pub to_response : Foreign → Relationship → RelationshipResponse
to_response ext r = record {
  relationship_id = r.relationship_id;
  user_id = r.user_id;
  peer_id = r.peer_id;
  publish_topics = topics_or_default ext r.publish_topics;
  subscribe_topics = topics_or_default ext r.subscribe_topics;
  created_at = r.created_at;
}

unfoldable pub list : AppState → Text → Action (List RelationshipResponse)
list state user_id = do rels ← list_relationships user_id; pure (map (to_response state.ext) rels)

unfoldable pub revoke : AppState → Text → Text → Action (Unit {0})
revoke state user_id relationship_id = do
  rel ← get_relationship user_id relationship_id
  delete_relationship user_id relationship_id
  kick_user state user_id
  kick_user state rel.peer_id
