-- ===== src/Db/Keeps.antt =====
-- The queries of db/mod.rs, and the properties that their statements keep.
use smqtt.Prelude.{ℕ, ◌≡◌, refl, none, inl, Bool, List, Option, arith, Text, Bytes, ℤ, length}
use smqtt.Foreign.{Foreign}
use smqtt.Rows.{User, Device, Relationship, PendingExchange, RegistrationToken, Database}
use smqtt.Exec.{run_query}
use smqtt.Exec.Keeps.{Keeps, Keeps-run_query, keeps_rules}
use smqtt.Db.Invariant.{IsKey, HasKeys, IsWithinUses}
use smqtt.Db.Stable.{Stable}
use smqtt.Db.Users.{
  create_user, get_user, invalidate_tokens, set_suspended, insert_user, update_valid_from,
  update_suspended,
}
use smqtt.Db.Devices.{create_device, new_device, get_device_by_user, insert_device}
use smqtt.Db.Relationships.{
  create_relationship, list_relationships, get_relationship, delete_relationship, user_topics,
  insert_relationship, remove_relationship,
}
use smqtt.Db.Exchanges.{
  create_exchange, new_exchange, get_exchange, set_responder_pubkey, delete_exchange,
  purge_expired_exchanges, insert_exchange, update_responder, remove_exchange, remove_expired,
}
use smqtt.Db.Tokens.{
  create_registration_token, new_token, consume_registration_token, insert_token, use_token,
}

module _ {ext : Foreign} {Allowed : Bool → Text → Type 0} {P : Database → Type 0}
    (st : Stable ext Allowed P) where
  insert_user-Keeps : (u : User) → Keeps P (run_query (insert_user u))
  insert_user-Keeps u = Keeps-run_query _ (λ db v. st.user_in u db v)

  update_valid_from-Keeps :
      (now : ℤ) (user_id : Text) → Keeps P (run_query (update_valid_from now user_id))
  update_valid_from-Keeps now user_id =
      Keeps-run_query _ (λ db v. st.valid_from_set now user_id db v)

  update_suspended-Keeps :
      (suspended : Bool) (reason : Option Text) (user_id : Text)
      → Allowed suspended user_id
      → Keeps P (run_query (update_suspended suspended reason user_id))
  update_suspended-Keeps suspended reason user_id h =
      Keeps-run_query _ (λ db v. st.suspended_set suspended reason user_id db h v)

  insert_device-Keeps : (d : Device) → IsKey ext d.pubkey → Keeps P (run_query (insert_device d))
  insert_device-Keeps d h = Keeps-run_query _ (λ db v. st.device_in d db h v)

  insert_relationship-Keeps : (r : Relationship) → Keeps P (run_query (insert_relationship r))
  insert_relationship-Keeps r = Keeps-run_query _ (λ db v. st.relationship_in r db v)

  remove_relationship-Keeps :
      (user_id relationship_id : Text)
      → Keeps P (run_query (remove_relationship user_id relationship_id))
  remove_relationship-Keeps user_id relationship_id =
      Keeps-run_query _ (λ db v. st.relationship_out user_id relationship_id db v)

  insert_exchange-Keeps :
      (x : PendingExchange)
      → HasKeys x
      → x.responder_pubkey ≡ none
      → Keeps P (run_query (insert_exchange x))
  insert_exchange-Keeps x h k = Keeps-run_query _ (λ db v. st.exchange_in x db h k v)

  update_responder-Keeps :
      (pubkey : Bytes) (exchange_id : Text)
      → length pubkey ≡ 32
      → Keeps P (run_query (update_responder pubkey exchange_id))
  update_responder-Keeps pubkey exchange_id h =
      Keeps-run_query _ (λ db v. st.responder_set pubkey exchange_id db h v)

  remove_exchange-Keeps : (exchange_id : Text) → Keeps P (run_query (remove_exchange exchange_id))
  remove_exchange-Keeps exchange_id = Keeps-run_query _ (λ db v. st.exchange_out exchange_id db v)

  remove_expired-Keeps : (now : ℤ) → Keeps P (run_query (remove_expired now))
  remove_expired-Keeps now = Keeps-run_query _ (λ db v. st.expired_out now db v)

  insert_token-Keeps :
      (t : RegistrationToken) → IsWithinUses t → Keeps P (run_query (insert_token t))
  insert_token-Keeps t h = Keeps-run_query _ (λ db v. st.token_in t db h v)

  use_token-Keeps : (token_hash : Bytes) (now : ℤ) → Keeps P (run_query (use_token token_hash now))
  use_token-Keeps token_hash now = Keeps-run_query _ (λ db v. st.token_used token_hash now db v)

ruleset statements = (
  keeps_rules, insert_user-Keeps, update_valid_from-Keeps, update_suspended-Keeps,
  insert_device-Keeps, insert_relationship-Keeps, remove_relationship-Keeps, insert_exchange-Keeps,
  update_responder-Keeps, remove_exchange-Keeps, remove_expired-Keeps, insert_token-Keeps,
  use_token-Keeps,
)

-- A new token was never used.
new_IsWithinUses :
    (token_id : Text) (token_hash : Bytes) (expires_in_secs : ℕ) (max_uses : ℤ) (now later : ℕ)
    → IsWithinUses (new_token token_id token_hash expires_in_secs max_uses now later)
unfolding new_token
new_IsWithinUses token_id token_hash expires_in_secs max_uses now later = (omega arith, inl refl)

module _ {ext : Foreign} {Allowed : Bool → Text → Type 0} {P : Database → Type 0}
    (st : Stable ext Allowed P) where
  pub create_user-Keeps : Keeps (P) create_user
  unfolding create_user
  create_user-Keeps = search statements

  pub get_user-Keeps : (user_id : Text) → Keeps (P) (get_user user_id)
  unfolding get_user
  get_user-Keeps user_id = search statements

  pub invalidate_tokens-Keeps : (user_id : Text) → Keeps (P) (invalidate_tokens user_id)
  unfolding invalidate_tokens
  invalidate_tokens-Keeps user_id = search statements

  pub set_suspended-Keeps :
      (user_id : Text) (suspended : Bool) (reason : Option Text)
      → Allowed suspended user_id
      → Keeps (P) (set_suspended user_id suspended reason)
  unfolding set_suspended
  set_suspended-Keeps user_id suspended reason allowed = search statements

  pub create_device-Keeps :
      (user_id : Text) (pubkey : Bytes)
      → IsKey ext pubkey
      → Keeps (P) (create_device user_id pubkey)
  unfolding create_device new_device
  create_device-Keeps user_id pubkey key = search statements

  pub get_device_by_user-Keeps : (user_id : Text) → Keeps (P) (get_device_by_user user_id)
  unfolding get_device_by_user
  get_device_by_user-Keeps user_id = search statements

  pub create_relationship-Keeps :
      (lib : Foreign) (user_id peer_id : Text) (publish_topics subscribe_topics : List Text)
      → Keeps (P) (create_relationship lib user_id peer_id publish_topics subscribe_topics)
  unfolding create_relationship
  create_relationship-Keeps lib user_id peer_id publish_topics subscribe_topics = search statements

  pub list_relationships-Keeps : (user_id : Text) → Keeps (P) (list_relationships user_id)
  unfolding list_relationships
  list_relationships-Keeps user_id = search statements

  pub get_relationship-Keeps :
      (user_id relationship_id : Text) → Keeps (P) (get_relationship user_id relationship_id)
  unfolding get_relationship
  get_relationship-Keeps user_id relationship_id = search statements

  pub delete_relationship-Keeps :
      (user_id relationship_id : Text) → Keeps (P) (delete_relationship user_id relationship_id)
  unfolding delete_relationship
  delete_relationship-Keeps user_id relationship_id = search statements

  pub user_topics-Keeps : (lib : Foreign) (user_id : Text) → Keeps (P) (user_topics lib user_id)
  unfolding user_topics
  user_topics-Keeps lib user_id = search (statements, list_relationships-Keeps)

  pub create_exchange-Keeps :
      (initiator_id responder_id : Text) (pubkey : Bytes)
      → length pubkey ≡ 32
      → Keeps (P) (create_exchange initiator_id responder_id pubkey)
  unfolding create_exchange new_exchange
  create_exchange-Keeps initiator_id responder_id pubkey short = search statements depth 10

  pub get_exchange-Keeps : (exchange_id : Text) → Keeps (P) (get_exchange exchange_id)
  unfolding get_exchange
  get_exchange-Keeps exchange_id = search statements

  pub set_responder_pubkey-Keeps :
      (exchange_id : Text) (pubkey : Bytes)
      → length pubkey ≡ 32
      → Keeps (P) (set_responder_pubkey exchange_id pubkey)
  unfolding set_responder_pubkey
  set_responder_pubkey-Keeps exchange_id pubkey short = search statements

  pub delete_exchange-Keeps : (exchange_id : Text) → Keeps (P) (delete_exchange exchange_id)
  unfolding delete_exchange
  delete_exchange-Keeps exchange_id = search statements

  pub purge_expired_exchanges-Keeps : Keeps (P) purge_expired_exchanges
  unfolding purge_expired_exchanges
  purge_expired_exchanges-Keeps = search statements

  pub create_registration_token-Keeps :
      (token_hash : Bytes) (expires_in_secs : ℕ) (max_uses : ℤ)
      → Keeps (P) (create_registration_token token_hash expires_in_secs max_uses)
  unfolding create_registration_token new_token
  create_registration_token-Keeps token_hash expires_in_secs max_uses =
      search (statements, new_IsWithinUses) depth 10

  pub consume_registration_token-Keeps :
      (token_hash : Bytes) → Keeps (P) (consume_registration_token token_hash)
  unfolding consume_registration_token
  consume_registration_token-Keeps token_hash = search statements
