-- ===== src/Db/Statements.antt =====
-- The SQL statements of db/mod.rs on a well-formed database.
use smqtt.Prelude.{
  ◌≡◌, refl, inl, inr, Bool, true, false, not, ◌||◌, arith, Text, Bytes, ℤ, pos, ◌+ℤ◌, ◌∙◌, length,
  All-append, Option, Bool-cases, text_eq,
}
use smqtt.Table.{has_key}
use smqtt.Table.Laws.{
  All-delete, All-update, has_key-grows, has_key-update, Unique-append, Unique-delete,
  Unique-update,
}
use smqtt.Foreign.{Foreign}
use smqtt.Rows.{User, Device, Relationship, PendingExchange, RegistrationToken, Database}
use smqtt.Exec.Keeps.{After}
use smqtt.Db.Invariant.{
  IsKey, HasKeys, IsWithinUses, IsValid, with_users, with_devices, with_relationships,
  with_exchanges, with_tokens,
}
use smqtt.Db.Users.{insert_user, update_valid_from, update_suspended, has_user}
use smqtt.Db.Devices.{insert_device}
use smqtt.Db.Relationships.{insert_relationship, remove_relationship}
use smqtt.Db.Exchanges.{insert_exchange, update_responder, remove_exchange, remove_expired}
use smqtt.Db.Tokens.{insert_token, use_token, is_usable}

-- An insertion is refused, or its checks have passed.
not_or : (a b : Bool) → (a || not b) ≡ false → (a ≡ false) × (b ≡ true)
not_or a b h = ground arith

-- One more use of a usable token is within its uses.
use_within :
    (token_hash : Bytes) (now : ℤ) (t : RegistrationToken)
    → is_usable token_hash now t ≡ true
    → IsWithinUses t
    → IsWithinUses (record t { uses = t.uses +ℤ pos 1 })
use_within token_hash now t e h = ground arith

module _ (ext : Foreign) (db : Database) (v : IsValid ext db) where
  pub insert_user-IsValid : (u : User) → After (IsValid ext) (insert_user u db)
  unfolding insert_user
  insert_user-IsValid u = elim (Bool-cases (has_user u.user_id db)) [
    | inl used ↦ rw used tt
    | inr free ↦ rw free (
        with_users ext db _ v (Unique-append (λ u. u.user_id) db.users u v.users_unique free)
          (λ k h. has_key-grows (λ u. u.user_id) k db.users u h))
  ]

  pub update_valid_from-IsValid :
      (now : ℤ) (user_id : Text) → After (IsValid ext) (update_valid_from now user_id db)
  unfolding update_valid_from
  update_valid_from-IsValid now user_id =
      with_users ext db _ v (Unique-update (λ u. u.user_id) _ _ (λ u. refl) db.users v.users_unique)
        (λ k h. has_key-update (λ u. u.user_id) _ _ (λ u. refl) k db.users ∙ h)

  pub update_suspended-IsValid :
      (suspended : Bool) (reason : Option Text) (user_id : Text)
      → After (IsValid ext) (update_suspended suspended reason user_id db)
  unfolding update_suspended
  update_suspended-IsValid suspended reason user_id =
      with_users ext db _ v (Unique-update (λ u. u.user_id) _ _ (λ u. refl) db.users v.users_unique)
        (λ k h. has_key-update (λ u. u.user_id) _ _ (λ u. refl) k db.users ∙ h)

  pub insert_device-IsValid :
      (d : Device) → IsKey ext d.pubkey → After (IsValid ext) (insert_device d db)
  unfolding insert_device
  insert_device-IsValid d key =
      elim (Bool-cases
        (has_key (λ e. e.device_id) d.device_id db.devices || not (has_user d.user_id db))) [
          | inl bad ↦ rw bad tt
          | inr good ↦
              let (free, known) = not_or _ _ good in
              rw good (
                with_devices ext db _ v
                  (Unique-append (λ e. e.device_id) db.devices d v.devices_unique free)
                  (All-append _ db.devices _ v.devices_owned (known, tt))
                  (All-append _ db.devices _ v.devices_keyed (key, tt)))
        ]

  pub insert_relationship-IsValid :
      (r : Relationship) → After (IsValid ext) (insert_relationship r db)
  unfolding insert_relationship
  insert_relationship-IsValid r =
      elim (Bool-cases (
        has_key (λ s. s.relationship_id) r.relationship_id db.relationships
        || not (has_user r.user_id db))) [
          | inl bad ↦ rw bad tt
          | inr good ↦
              let (free, known) = not_or _ _ good in
              rw good (
                with_relationships ext db _ v
                  (Unique-append (λ s. s.relationship_id) db.relationships r v.relationships_unique
                    free)
                  (All-append _ db.relationships _ v.relationships_owned (known, tt)))
        ]

  pub remove_relationship-IsValid :
      (user_id relationship_id : Text)
      → After (IsValid ext) (remove_relationship user_id relationship_id db)
  unfolding remove_relationship
  remove_relationship-IsValid user_id relationship_id =
      with_relationships ext db _ v
        (Unique-delete (λ r. r.relationship_id) _ db.relationships v.relationships_unique)
        (All-delete _ _ db.relationships v.relationships_owned)

  pub insert_exchange-IsValid :
      (x : PendingExchange) → HasKeys x → After (IsValid ext) (insert_exchange x db)
  unfolding insert_exchange
  insert_exchange-IsValid x keys =
      elim (Bool-cases (
        has_key (λ y. y.exchange_id) x.exchange_id db.exchanges
        || not (has_user x.initiator_id db))) [
          | inl bad ↦ rw bad tt
          | inr good ↦
              let (free, known) = not_or _ _ good in
              rw good (
                with_exchanges ext db _ v
                  (Unique-append (λ y. y.exchange_id) db.exchanges x v.exchanges_unique free)
                  (All-append _ db.exchanges _ v.exchanges_owned (known, tt))
                  (All-append _ db.exchanges _ v.exchanges_keyed (keys, tt)))
        ]

  pub update_responder-IsValid :
      (pubkey : Bytes) (exchange_id : Text)
      → length pubkey ≡ 32
      → After (IsValid ext) (update_responder pubkey exchange_id db)
  unfolding update_responder
  update_responder-IsValid pubkey exchange_id short =
      with_exchanges ext db _ v
        (Unique-update (λ x. x.exchange_id) _ _ (λ x. refl) db.exchanges v.exchanges_unique)
        (All-update _ _ _ (λ x e h. h) db.exchanges v.exchanges_owned)
        (All-update _ _ _ (λ x e h. (h.0, short)) db.exchanges v.exchanges_keyed)

  pub remove_exchange-IsValid :
      (exchange_id : Text) → After (IsValid ext) (remove_exchange exchange_id db)
  unfolding remove_exchange
  remove_exchange-IsValid exchange_id =
      with_exchanges ext db _ v
        (Unique-delete (λ x. x.exchange_id) _ db.exchanges v.exchanges_unique)
        (All-delete _ _ db.exchanges v.exchanges_owned)
        (All-delete _ _ db.exchanges v.exchanges_keyed)

  pub remove_expired-IsValid : (now : ℤ) → After (IsValid ext) (remove_expired now db)
  unfolding remove_expired
  remove_expired-IsValid now =
      with_exchanges ext db _ v
        (Unique-delete (λ x. x.exchange_id) _ db.exchanges v.exchanges_unique)
        (All-delete _ _ db.exchanges v.exchanges_owned)
        (All-delete _ _ db.exchanges v.exchanges_keyed)

  pub insert_token-IsValid :
      (t : RegistrationToken) → IsWithinUses t → After (IsValid ext) (insert_token t db)
  unfolding insert_token
  insert_token-IsValid t within =
      elim (Bool-cases (has_key (λ s. s.token_id) t.token_id db.tokens)) [
        | inl used ↦ rw used tt
        | inr free ↦ rw free (
            with_tokens ext db _ v
              (Unique-append (λ s. s.token_id) db.tokens t v.tokens_unique free)
              (All-append _ db.tokens _ v.tokens_within (within, tt)))
      ]

  pub use_token-IsValid :
      (token_hash : Bytes) (now : ℤ) → After (IsValid ext) (use_token token_hash now db)
  unfolding use_token
  use_token-IsValid token_hash now =
      with_tokens ext db _ v
        (Unique-update (λ t. t.token_id) _ _ (λ t. refl) db.tokens v.tokens_unique)
        (All-update _ _ _ (λ t e h. use_within token_hash now t e h) db.tokens v.tokens_within)
