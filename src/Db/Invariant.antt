-- ===== src/Db/Invariant.antt =====
-- Well-formed databases (db/mod.rs).
use smqtt.Prelude.{
  ◌≡◌, ◌⊎◌, true, Option, none, some, List, Text, Bytes, pos, ◌≤ℤ◌, length, All, All-mono, text_eq,
}
use smqtt.Table.{has_key, Unique}
use smqtt.Foreign.{Foreign}
use smqtt.Rows.{User, Device, Relationship, PendingExchange, RegistrationToken, Database}

-- A reference to a row of `users`.
abbrev pub Known : List User → Text → Type 0
Known users k = has_key (λ u. u.user_id) k users ≡ true

-- A 32-byte key that ed25519-dalek accepts.
abbrev pub IsKey : Foreign → Bytes → Type 0
IsKey ext key = (length key ≡ 32) × (ext.is_ed25519_key key ≡ true)

abbrev pub IsShort : Option Bytes → Type 0
IsShort none = Unit
IsShort (some key) = length key ≡ 32

-- Both keys of an exchange have the length of an X25519 key.
abbrev pub HasKeys : PendingExchange → Type 0
HasKeys x = (length x.initiator_pubkey ≡ 32) × IsShort x.responder_pubkey

-- A token was never used, or at most as often as it may be.
abbrev pub IsWithinUses : RegistrationToken → Type 0
IsWithinUses t = (pos 0 ≤ℤ t.uses) × ((t.uses ≡ pos 0) ⊎ (t.uses ≤ℤ t.max_uses))

pub record IsValid (ext : Foreign) (db : Database) : Type 0 where
  pub users_unique : Unique (λ u. u.user_id) db.users
  pub devices_unique : Unique (λ d. d.device_id) db.devices
  pub relationships_unique : Unique (λ r. r.relationship_id) db.relationships
  pub exchanges_unique : Unique (λ x. x.exchange_id) db.exchanges
  pub tokens_unique : Unique (λ t. t.token_id) db.tokens
  pub devices_owned : All (λ d. Known db.users d.user_id) db.devices
  pub relationships_owned : All (λ r. Known db.users r.user_id) db.relationships
  pub exchanges_owned : All (λ x. Known db.users x.initiator_id) db.exchanges
  pub devices_keyed : All (λ d. IsKey ext d.pubkey) db.devices
  pub exchanges_keyed : All HasKeys db.exchanges
  pub tokens_within : All IsWithinUses db.tokens

module _ (ext : Foreign) where
  -- New rows, or old rows with the same keys, leave every reference to a user in place.
  pub with_users :
      (db : Database) (users : List User)
      → IsValid ext db
      → Unique (λ u. u.user_id) users
      → ((k : Text) → Known db.users k → Known users k)
      → IsValid ext (record db { users = users })
  with_users db users v unique kept = record {
    users_unique = unique;
    devices_unique = v.devices_unique;
    relationships_unique = v.relationships_unique;
    exchanges_unique = v.exchanges_unique;
    tokens_unique = v.tokens_unique;
    devices_owned = All-mono db.devices (λ d. kept d.user_id) v.devices_owned;
    relationships_owned = All-mono db.relationships (λ r. kept r.user_id) v.relationships_owned;
    exchanges_owned = All-mono db.exchanges (λ x. kept x.initiator_id) v.exchanges_owned;
    devices_keyed = v.devices_keyed;
    exchanges_keyed = v.exchanges_keyed;
    tokens_within = v.tokens_within;
  }

  pub with_devices :
      (db : Database) (devices : List Device)
      → IsValid ext db
      → Unique (λ d. d.device_id) devices
      → All (λ d. Known db.users d.user_id) devices
      → All (λ d. IsKey ext d.pubkey) devices
      → IsValid ext (record db { devices = devices })
  with_devices db devices v unique owned keyed = record {
    users_unique = v.users_unique;
    devices_unique = unique;
    relationships_unique = v.relationships_unique;
    exchanges_unique = v.exchanges_unique;
    tokens_unique = v.tokens_unique;
    devices_owned = owned;
    relationships_owned = v.relationships_owned;
    exchanges_owned = v.exchanges_owned;
    devices_keyed = keyed;
    exchanges_keyed = v.exchanges_keyed;
    tokens_within = v.tokens_within;
  }

  pub with_relationships :
      (db : Database) (rels : List Relationship)
      → IsValid ext db
      → Unique (λ r. r.relationship_id) rels
      → All (λ r. Known db.users r.user_id) rels
      → IsValid ext (record db { relationships = rels })
  with_relationships db rels v unique owned = record {
    users_unique = v.users_unique;
    devices_unique = v.devices_unique;
    relationships_unique = unique;
    exchanges_unique = v.exchanges_unique;
    tokens_unique = v.tokens_unique;
    devices_owned = v.devices_owned;
    relationships_owned = owned;
    exchanges_owned = v.exchanges_owned;
    devices_keyed = v.devices_keyed;
    exchanges_keyed = v.exchanges_keyed;
    tokens_within = v.tokens_within;
  }

  pub with_exchanges :
      (db : Database) (exchanges : List PendingExchange)
      → IsValid ext db
      → Unique (λ x. x.exchange_id) exchanges
      → All (λ x. Known db.users x.initiator_id) exchanges
      → All HasKeys exchanges
      → IsValid ext (record db { exchanges = exchanges })
  with_exchanges db exchanges v unique owned keyed = record {
    users_unique = v.users_unique;
    devices_unique = v.devices_unique;
    relationships_unique = v.relationships_unique;
    exchanges_unique = unique;
    tokens_unique = v.tokens_unique;
    devices_owned = v.devices_owned;
    relationships_owned = v.relationships_owned;
    exchanges_owned = owned;
    devices_keyed = v.devices_keyed;
    exchanges_keyed = keyed;
    tokens_within = v.tokens_within;
  }

  pub with_tokens :
      (db : Database) (tokens : List RegistrationToken)
      → IsValid ext db
      → Unique (λ t. t.token_id) tokens
      → All IsWithinUses tokens
      → IsValid ext (record db { tokens = tokens })
  with_tokens db tokens v unique within = record {
    users_unique = v.users_unique;
    devices_unique = v.devices_unique;
    relationships_unique = v.relationships_unique;
    exchanges_unique = v.exchanges_unique;
    tokens_unique = unique;
    devices_owned = v.devices_owned;
    relationships_owned = v.relationships_owned;
    exchanges_owned = v.exchanges_owned;
    devices_keyed = v.devices_keyed;
    exchanges_keyed = v.exchanges_keyed;
    tokens_within = within;
  }
