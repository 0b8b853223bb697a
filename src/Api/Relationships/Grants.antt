-- ===== src/Api/Relationships/Grants.antt =====
-- What a relationship grants, and to whom.
use smqtt.Prelude.{
  ◌+◌, ◌≡◌, refl, List, [], ◌∷◌, ◌++◌, Text, ◌==◌, text_eq, text_beq_refl, arith, if◌then◌else◌,
}
use mathlib.Core.List.{flat_map, append_assoc, append-nil}
use smqtt.Table.Laws.{select-append}
use smqtt.Foreign.{Foreign, ForeignLaws}
use smqtt.Rows.{Relationship, Database}
use smqtt.Error.{ok}
use smqtt.State.{AppState, World}
use smqtt.Exec.{◌>>=◌, unix_now, new_uuid, run_query}
use smqtt.Db.Relationships.{
  create_relationship, new_relationship, insert_relationship, relationships_of, topics_or_default,
  extend_topics,
}
use smqtt.Api.Relationships.{CreateRequest, RelationshipResponse, create}

-- The loop of `user_topics` joins the topics of all relationships, in their order.
pub extend_topics_lem :
    (ext : Foreign) (rels : List Relationship) (pub_topics sub_topics : List Text)
    → extend_topics ext rels pub_topics sub_topics ≡ (
      pub_topics ++ flat_map (λ r. topics_or_default ext r.publish_topics) rels,
      sub_topics ++ flat_map (λ r. topics_or_default ext r.subscribe_topics) rels,
    )
unfolding extend_topics flat_map
extend_topics_lem ext [] p s = simp append-nil
extend_topics_lem ext (r ∷ rels) p s = rw (extend_topics_lem ext rels) (simp append_assoc)

-- One more relationship at the end adds its topics at the end.
extend_topics_last :
    (ext : Foreign) (rels : List Relationship) (r : Relationship)
    (pub_topics sub_topics : List Text)
    → extend_topics ext (rels ++ r ∷ []) pub_topics sub_topics ≡ (
        let before = extend_topics ext rels pub_topics sub_topics in
        (
          before.0 ++ topics_or_default ext r.publish_topics,
          before.1 ++ topics_or_default ext r.subscribe_topics,
        ))
unfolding extend_topics
extend_topics_last ext [] r p s = refl
extend_topics_last ext (x ∷ rels) r p s = extend_topics_last ext rels r _ _

-- The row that `create` adds.
abbrev pub created : AppState → Text → CreateRequest → World → Relationship
created state user_id req w =
    new_relationship state.ext (w.oracle.uuid w.oracle.asked) user_id req.peer_id req.publish_topics
      req.subscribe_topics (w.oracle.clock (w.oracle.asked + 1))

module _ (state : AppState) (user_id : Text) (req : CreateRequest) (w : World) where
  create_row :
      (r : RelationshipResponse)
      → (create state user_id req w).0 ≡ ok r
      → (create state user_id req w).1.db
        ≡ record w.db { relationships = w.db.relationships ++ created state user_id req w ∷ [] }
  unfolding create create_relationship insert_relationship ◌>>=◌ new_uuid unix_now run_query
  create_row r h = ground arith

  pub_topics_created :
      ForeignLaws state.ext
      → topics_or_default state.ext (created state user_id req w).publish_topics
        ≡ req.publish_topics
  unfolding new_relationship topics_or_default
  pub_topics_created laws = ground (arith, laws.json_round req.publish_topics)

  sub_topics_created :
      ForeignLaws state.ext
      → topics_or_default state.ext (created state user_id req w).subscribe_topics
        ≡ req.subscribe_topics
  unfolding new_relationship topics_or_default
  sub_topics_created laws = ground (arith, laws.json_round req.subscribe_topics)

  relationships_of-created :
      (v : Text) (db : Database)
      → relationships_of v
          (record db { relationships = db.relationships ++ created state user_id req w ∷ [] })
        ≡ relationships_of v db ++ (if user_id == v then created state user_id req w ∷ [] else [])
  unfolding new_relationship
  relationships_of-created v db =
      select-append (λ r. r.user_id == v) db.relationships (created state user_id req w)

  -- After a successful `create`, if JSON is read as it was written, the topics that are joined for
  -- the caller's next token are those of before, followed by all topics of the request, whether or
  -- not the peer has agreed.
  pub create_grants :
      (r : RelationshipResponse)
      → ForeignLaws state.ext
      → (create state user_id req w).0 ≡ ok r
      → let before = extend_topics state.ext (relationships_of user_id w.db) [] [] in
        extend_topics state.ext (relationships_of user_id (create state user_id req w).1.db) [] []
        ≡ (before.0 ++ req.publish_topics, before.1 ++ req.subscribe_topics)
  create_grants r laws h =
      rw (create_row r h, relationships_of-created user_id w.db, text_beq_refl user_id)
        (rw (extend_topics_last state.ext, pub_topics_created laws, sub_topics_created laws))
