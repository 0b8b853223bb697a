-- ===== src/Rows.antt =====
-- The rows of the tables (db/mod.rs and the migrations), and the database as its five tables in
-- insertion order. `recovery_codes` is created by a migration and used by no query.
use smqtt.Prelude.{Bool, Option, List, [], Text, Bytes, ℤ}

pub record User : Type 0 where
  pub user_id : Text
  pub created_at : ℤ
  pub suspended : Bool
  pub suspend_reason : Option Text
  pub tokens_valid_from : ℤ

pub record Device : Type 0 where
  pub device_id : Text
  pub user_id : Text
  pub pubkey : Bytes
  pub registered_at : ℤ

-- The topics are JSON arrays, as text.
pub record Relationship : Type 0 where
  pub relationship_id : Text
  pub user_id : Text
  pub peer_id : Text
  pub publish_topics : Text
  pub subscribe_topics : Text
  pub created_at : ℤ

pub record PendingExchange : Type 0 where
  pub exchange_id : Text
  pub initiator_id : Text
  pub responder_id : Text
  pub initiator_pubkey : Bytes
  pub responder_pubkey : Option Bytes
  pub created_at : ℤ
  pub expires_at : ℤ

pub record RegistrationToken : Type 0 where
  pub token_id : Text
  pub token_hash : Bytes
  pub created_at : ℤ
  pub expires_at : ℤ
  pub max_uses : ℤ
  pub uses : ℤ

pub record Database : Type 0 where
  pub users : List User
  pub devices : List Device
  pub relationships : List Relationship
  pub exchanges : List PendingExchange
  pub tokens : List RegistrationToken

abbrev pub empty_database : Database
empty_database = record {
  users = [];
  devices = [];
  relationships = [];
  exchanges = [];
  tokens = [];
}
