-- ===== src/Db/Stable.antt =====
-- A property of the database that every SQL statement keeps. `Allowed b u` restricts the statements
-- that set the suspension of `u` to `b`; devices and exchanges are only made with checked keys,
-- and an exchange is made without a response.
use smqtt.Prelude.{
  ◌≡◌, Bool, none, not, ◌||◌, some, ◌∷◌, [], ◌++◌, text_eq, Option, Text, Bytes, ℤ, length,
}
use smqtt.Table.{has_key}
use smqtt.Foreign.{Foreign}
use smqtt.Rows.{User, Device, Relationship, PendingExchange, RegistrationToken, Database}
use smqtt.Exec.Keeps.{After, After-if}
use smqtt.Db.Invariant.{IsKey, HasKeys, IsWithinUses}
use smqtt.Db.Users.{has_user, insert_user, update_valid_from, update_suspended}
use smqtt.Db.Devices.{insert_device}
use smqtt.Db.Relationships.{insert_relationship, remove_relationship}
use smqtt.Db.Exchanges.{insert_exchange, update_responder, remove_exchange, remove_expired}
use smqtt.Db.Tokens.{insert_token, use_token}

pub record Stable (ext : Foreign) (Allowed : Bool → Text → Type 0) (P : Database → Type 0)
    : Type 0 where
  pub user_in : (u : User) (db : Database) → P db → After P (insert_user u db)
  pub valid_from_set :
      (now : ℤ) (user_id : Text) (db : Database) → P db → After P (update_valid_from now user_id db)
  pub suspended_set :
      (b : Bool) (reason : Option Text) (user_id : Text) (db : Database)
      → Allowed b user_id
      → P db
      → After P (update_suspended b reason user_id db)
  pub device_in :
      (d : Device) (db : Database) → IsKey ext d.pubkey → P db → After P (insert_device d db)
  pub relationship_in :
      (r : Relationship) (db : Database) → P db → After P (insert_relationship r db)
  pub relationship_out :
      (user_id relationship_id : Text) (db : Database)
      → P db
      → After P (remove_relationship user_id relationship_id db)
  pub exchange_in :
      (x : PendingExchange) (db : Database)
      → HasKeys x
      → x.responder_pubkey ≡ none
      → P db
      → After P (insert_exchange x db)
  pub responder_set :
      (pubkey : Bytes) (exchange_id : Text) (db : Database)
      → length pubkey ≡ 32
      → P db
      → After P (update_responder pubkey exchange_id db)
  pub exchange_out :
      (exchange_id : Text) (db : Database) → P db → After P (remove_exchange exchange_id db)
  pub expired_out : (now : ℤ) (db : Database) → P db → After P (remove_expired now db)
  pub token_in :
      (t : RegistrationToken) (db : Database) → IsWithinUses t → P db → After P (insert_token t db)
  pub token_used :
      (token_hash : Bytes) (now : ℤ) (db : Database) → P db → After P (use_token token_hash now db)

-- A row that goes in leaves `P`, if `P` holds of the longer table.
module _ (P : Database → Type 0) (db : Database) where
  pub insert_user-After :
      (u : User) → P (record db { users = db.users ++ u ∷ [] }) → After P (insert_user u db)
  unfolding insert_user
  insert_user-After u h = After-if P (has_user u.user_id db) (some (tt, _)) h

  pub insert_device-After :
      (d : Device) → P (record db { devices = db.devices ++ d ∷ [] }) → After P (insert_device d db)
  unfolding insert_device
  insert_device-After d h =
      After-if P (has_key (λ e. e.device_id) d.device_id db.devices || not (has_user d.user_id db))
        (some (tt, _)) h

  pub insert_relationship-After :
      (r : Relationship)
      → P (record db { relationships = db.relationships ++ r ∷ [] })
      → After P (insert_relationship r db)
  unfolding insert_relationship
  insert_relationship-After r h =
      After-if P
        (has_key (λ s. s.relationship_id) r.relationship_id db.relationships
          || not (has_user r.user_id db))
        (some (tt, _)) h

  pub insert_exchange-After :
      (x : PendingExchange)
      → P (record db { exchanges = db.exchanges ++ x ∷ [] })
      → After P (insert_exchange x db)
  unfolding insert_exchange
  insert_exchange-After x h =
      After-if P
        (has_key (λ y. y.exchange_id) x.exchange_id db.exchanges
          || not (has_user x.initiator_id db))
        (some (tt, _)) h

  pub insert_token-After :
      (t : RegistrationToken)
      → P (record db { tokens = db.tokens ++ t ∷ [] })
      → After P (insert_token t db)
  unfolding insert_token
  insert_token-After t h =
      After-if P (has_key (λ s. s.token_id) t.token_id db.tokens) (some (tt, _)) h
