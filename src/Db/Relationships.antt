-- ===== src/Db/Relationships.antt =====
-- db/mod.rs, the table `relationships`. The topic lists are stored as JSON text.
use smqtt.Prelude.{
  ℕ, Option, none, some, List, ◌∷◌, [], ◌++◌, Text, as_i64, ◌==◌, nat_eq, text_eq, if◌then◌else◌,
  not, ◌||◌, ◌&&◌, find,
}
use smqtt.Table.{select, delete, count, has_key}
use smqtt.Error.{not_found}
use smqtt.Foreign.{Foreign}
use smqtt.Rows.{Relationship, Database}
use smqtt.Exec.{Action, pure, ok_or, raise_if, ◌>>=◌, ◌>>◌, unix_now, new_uuid, run_query, fetch}
use smqtt.Db.Users.{has_user}

unfoldable pub insert_relationship : Relationship → Database → Option (Unit {0} × Database)
insert_relationship r db =
    if has_key (λ s. s.relationship_id) r.relationship_id db.relationships
      || not (has_user r.user_id db)
    then none
    else some (tt, record db { relationships = db.relationships ++ r ∷ [] })

unfoldable pub new_relationship :
    Foreign → Text → Text → Text → List Text → List Text → ℕ → Relationship
new_relationship ext relationship_id user_id peer_id publish_topics subscribe_topics now = record {
  relationship_id = relationship_id;
  user_id = user_id;
  peer_id = peer_id;
  publish_topics = ext.strings_to_json publish_topics;
  subscribe_topics = ext.strings_to_json subscribe_topics;
  created_at = as_i64 now;
}

unfoldable pub create_relationship :
    Foreign → Text → Text → List Text → List Text → Action Relationship
create_relationship ext user_id peer_id publish_topics subscribe_topics = do
  relationship_id ← new_uuid
  now ← unix_now
  let relationship =
      new_relationship ext relationship_id user_id peer_id publish_topics subscribe_topics now
  run_query (insert_relationship relationship)
  pure relationship

abbrev pub relationships_of : Text → Database → List Relationship
relationships_of user_id db = select (λ r. r.user_id == user_id) db.relationships

unfoldable pub list_relationships : Text → Action (List Relationship)
list_relationships user_id = fetch (relationships_of user_id)

abbrev pub find_relationship : Text → Text → Database → Option Relationship
find_relationship user_id relationship_id db =
    find (λ r. r.relationship_id == relationship_id && r.user_id == user_id) db.relationships

unfoldable pub get_relationship : Text → Text → Action Relationship
get_relationship user_id relationship_id = do
  found ← fetch (find_relationship user_id relationship_id)
  ok_or not_found found

unfoldable pub remove_relationship : Text → Text → Database → Option (ℕ × Database)
remove_relationship user_id relationship_id db = some (
  count (λ r. r.relationship_id == relationship_id && r.user_id == user_id) db.relationships,
  record db {
    relationships =
        delete (λ r. r.relationship_id == relationship_id && r.user_id == user_id) db.relationships;
  },
)

unfoldable pub delete_relationship : Text → Text → Action (Unit {0})
delete_relationship user_id relationship_id = do
  rows ← run_query (remove_relationship user_id relationship_id)
  raise_if (rows == 0) not_found

-- `serde_json::from_str(…).unwrap_or_default()`
unfoldable pub topics_or_default : Foreign → Text → List Text
topics_or_default ext json = elim (ext.strings_from_json json) [ none ↦ [] | some l ↦ l ]

-- The loop of `user_topics`, over the lists built so far.
unfoldable pub extend_topics :
    Foreign → List Relationship → List Text → List Text → List Text × List Text
unfolding topics_or_default
extend_topics ext [] pub_topics sub_topics = (pub_topics, sub_topics)
extend_topics ext (rel ∷ rels) pub_topics sub_topics =
    extend_topics ext rels (pub_topics ++ topics_or_default ext rel.publish_topics)
      (sub_topics ++ topics_or_default ext rel.subscribe_topics)

unfoldable pub user_topics : Foreign → Text → Action (List Text × List Text)
unfolding extend_topics
user_topics ext user_id = do rels ← list_relationships user_id; pure (extend_topics ext rels [] [])
