-- ===== src/Api/Relationships/Revoke.antt =====
-- What `revoke` takes away.
use smqtt.Prelude.{
  ℕ, ◌+◌, ◌≡◌, ◌≢◌, false, none, some, Text, ◌==◌, ◌&&◌, text_eq, text_beq_iff, ◌∙◌, arith,
}
use smqtt.Table.{delete}
use smqtt.Table.Laws.{find-delete, select-delete, count-find}
use smqtt.Rows.{Relationship, Database}
use smqtt.Error.{ok, err, not_found}
use smqtt.State.{AppState, World, next}
use smqtt.Exec.{◌>>=◌, ◌>>◌, fetch}
use smqtt.Db.Relationships.{
  get_relationship, find_relationship, relationships_of, delete_relationship, remove_relationship,
}
use smqtt.Broker.{kick_user}
use smqtt.Broker.Kick.{kicked, kick_user_lem}
use smqtt.Api.Relationships.{revoke}

-- The database without the relationship.
abbrev pub without : Text → Text → Database → Database
without user_id relationship_id db = record db {
  relationships =
      delete (λ r. r.relationship_id == relationship_id && r.user_id == user_id) db.relationships;
}

module _ (state : AppState) (user_id relationship_id : Text) (w : World) where
  abbrev pub removed : World
  removed = next (next (record w { db = without user_id relationship_id w.db }))

  pub delete_found :
      (rel : Relationship)
      → find_relationship user_id relationship_id w.db ≡ some rel
      → w.oracle.fails w.oracle.asked ≡ false
      → w.oracle.fails (w.oracle.asked + 1) ≡ false
      → revoke state user_id relationship_id w
        ≡ (kick_user state user_id >> kick_user state rel.peer_id) removed
  unfolding revoke get_relationship fetch ◌>>=◌ delete_relationship remove_relationship
  delete_found rel exists f g = rw (f, exists, g, count-find _ w.db.relationships rel exists)

  -- The owner of a relationship revokes it: if every query is answered, the relationship is deleted,
  -- then the owner and the peer are kicked, each as `kick_user` does.
  pub revoke_lem :
      (rel : Relationship)
      → find_relationship user_id relationship_id w.db ≡ some rel
      → ((n : ℕ) → w.oracle.fails n ≡ false)
      → revoke state user_id relationship_id w
        ≡ (ok tt, kicked state rel.peer_id (kicked state user_id removed))
  unfolding ◌>>=◌
  revoke_lem rel exists up =
      delete_found rel exists (up _) (up _)
      ∙ rw (kick_user_lem state user_id removed (up _) (up _))
          (kick_user_lem state rel.peer_id (kicked state user_id removed) (up _) (up _))

  -- Whoever does not own a relationship of this id cannot revoke it: if the query is answered, the
  -- result is not found, and nothing has changed but the number of questions asked.
  pub revoke_not_owned :
      find_relationship user_id relationship_id w.db ≡ none
      → w.oracle.fails w.oracle.asked ≡ false
      → revoke state user_id relationship_id w ≡ (err not_found, next w)
  unfolding revoke get_relationship fetch ◌>>=◌
  revoke_not_owned missing up = ground arith

  of_others :
      (v : Text)
      → v ≢ user_id
      → (db : Database)
      → relationships_of v (without user_id relationship_id db) ≡ relationships_of v db
  of_others v ne db =
      select-delete (λ r. r.relationship_id == relationship_id && r.user_id == user_id) _
        db.relationships
        λ r e. ground (arith, text_beq_iff r.user_id user_id, text_beq_iff r.user_id v)

  -- After the owner of a relationship has revoked it, if every query is answered, the owner has no
  -- relationship of this id, so it grants no topic to a new token, and the relationships of every
  -- other user, the peer's own included, are as before.
  pub revoke_removes :
      (rel : Relationship) (v : Text)
      → find_relationship user_id relationship_id w.db ≡ some rel
      → ((n : ℕ) → w.oracle.fails n ≡ false)
      → v ≢ user_id
      → let db' = (revoke state user_id relationship_id w).1.db in
        (find_relationship user_id relationship_id db' ≡ none)
        × (relationships_of v db' ≡ relationships_of v w.db)
  revoke_removes rel v exists up ne =
      rw (revoke_lem rel exists up) (find-delete _ w.db.relationships, of_others v ne w.db)
