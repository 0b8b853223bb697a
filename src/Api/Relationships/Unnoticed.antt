-- ===== src/Api/Relationships/Unnoticed.antt =====
-- A revocation whose kicks fail.
use smqtt.Prelude.{ℕ, ◌+◌, ◌≤◌, ◌≡◌, ◌∙◌, true, false, some, ap, Text, arith, text_eq}
use smqtt.Rows.{Relationship}
use smqtt.Error.{ok}
use smqtt.State.{AppState, World, next}
use smqtt.Exec.{◌>>=◌, unix_now, fetch}
use smqtt.Db.Users.{invalidate_tokens, update_valid_from}
use smqtt.Db.Devices.{get_device_by_user}
use smqtt.Db.Relationships.{find_relationship}
use smqtt.Broker.{kick_user, kick_found}
use smqtt.Api.Relationships.{revoke}
use smqtt.Api.Relationships.Revoke.{without, removed, delete_found}

-- The world after a kick of which neither statement was carried out.
abbrev pub not_kicked : World → World
not_kicked w = next (next (next w))

kick_user_fails :
    (state : AppState) (user_id : Text) (w : World)
    → w.oracle.fails (w.oracle.asked + 1) ≡ true
    → w.oracle.fails (w.oracle.asked + 1 + 1) ≡ true
    → kick_user state user_id w ≡ (ok tt, not_kicked w)
unfolding kick_user kick_found ◌>>=◌ invalidate_tokens update_valid_from get_device_by_user fetch
    unix_now
kick_user_fails state user_id w f g = rw (f, g)

both_fail :
    (state : AppState) (user_id relationship_id : Text) (w : World) (rel : Relationship)
    → find_relationship user_id relationship_id w.db ≡ some rel
    → w.oracle.fails w.oracle.asked ≡ false
    → w.oracle.fails (w.oracle.asked + 1) ≡ false
    → ((n : ℕ) → w.oracle.asked + 2 ≤ n → w.oracle.fails n ≡ true)
    → revoke state user_id relationship_id w
      ≡ (ok tt, not_kicked (not_kicked (removed state user_id relationship_id w)))
unfolding ◌>>=◌
both_fail state user_id relationship_id w rel exists f g down =
    delete_found state user_id relationship_id w rel exists f g
    ∙ rw
        (kick_user_fails state user_id (removed state user_id relationship_id w)
          (down _ (omega arith)) (down _ (omega arith)))
        (kick_user_fails state rel.peer_id (not_kicked (removed state user_id relationship_id w))
          (down _ (omega arith)) (down _ (omega arith)))

-- If the database fails right after a relationship was deleted, its revocation reports success all the
-- same: nobody is kicked, and the tokens that name the revoked topics stay as valid as they were.
pub revoke_unnoticed :
    (state : AppState) (user_id relationship_id : Text) (w : World) (rel : Relationship)
    → find_relationship user_id relationship_id w.db ≡ some rel
    → w.oracle.fails w.oracle.asked ≡ false
    → w.oracle.fails (w.oracle.asked + 1) ≡ false
    → ((n : ℕ) → w.oracle.asked + 2 ≤ n → w.oracle.fails n ≡ true)
    → ((revoke state user_id relationship_id w).0 ≡ ok tt)
      × ((revoke state user_id relationship_id w).1.db ≡ without user_id relationship_id w.db)
      × ((revoke state user_id relationship_id w).1.broker ≡ w.broker)
revoke_unnoticed state user_id relationship_id w rel exists f g down =
    let e = both_fail state user_id relationship_id w rel exists f g down in
    (ap (λ r. r.0) e, ap (λ r. r.1.db) e, ap (λ r. r.1.broker) e)
