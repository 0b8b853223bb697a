-- ===== src/Db/Exchanges.antt =====
-- db/mod.rs, the table `pending_exchanges`.
use smqtt.Prelude.{
  ℕ, Option, none, some, ◌∷◌, [], ◌++◌, ◌*◌, Text, Bytes, ℤ, as_i64, add_u64, ltb_ℤ, ◌==◌, nat_eq,
  text_eq, if◌then◌else◌, not, ◌||◌, find,
}
use smqtt.Table.{update, delete, count, has_key}
use smqtt.Error.{not_found}
use smqtt.Rows.{PendingExchange, Database}
use smqtt.Exec.{Action, pure, ok_or, raise_if, ◌>>=◌, ◌>>◌, unix_now, new_uuid, run_query, fetch}
use smqtt.Db.Users.{has_user}

-- one week
abbrev pub exchange_ttl_secs : ℕ
exchange_ttl_secs = 7 * 24 * 3600

unfoldable pub insert_exchange : PendingExchange → Database → Option (Unit {0} × Database)
insert_exchange x db =
    if has_key (λ y. y.exchange_id) x.exchange_id db.exchanges || not (has_user x.initiator_id db)
    then none
    else some (tt, record db { exchanges = db.exchanges ++ x ∷ [] })

unfoldable pub new_exchange : Text → Text → Text → Bytes → ℕ → ℕ → PendingExchange
new_exchange exchange_id initiator_id responder_id initiator_pubkey now later = record {
  exchange_id = exchange_id;
  initiator_id = initiator_id;
  responder_id = responder_id;
  initiator_pubkey = initiator_pubkey;
  responder_pubkey = none;
  created_at = as_i64 now;
  expires_at = as_i64 (add_u64 later exchange_ttl_secs);
}

-- The clock is read twice, for `created_at` and for `expires_at`.
unfoldable pub create_exchange : Text → Text → Bytes → Action PendingExchange
create_exchange initiator_id responder_id initiator_pubkey = do
  exchange_id ← new_uuid
  now ← unix_now
  later ← unix_now
  let exchange = new_exchange exchange_id initiator_id responder_id initiator_pubkey now later
  run_query (insert_exchange exchange)
  pure exchange

abbrev pub find_exchange : Text → Database → Option PendingExchange
find_exchange exchange_id db = find (λ x. x.exchange_id == exchange_id) db.exchanges

unfoldable pub get_exchange : Text → Action PendingExchange
get_exchange exchange_id = do found ← fetch (find_exchange exchange_id); ok_or not_found found

unfoldable pub update_responder : Bytes → Text → Database → Option (ℕ × Database)
update_responder pubkey exchange_id db = some (
  count (λ x. x.exchange_id == exchange_id) db.exchanges,
  record db {
    exchanges =
        update (λ x. x.exchange_id == exchange_id)
          (λ x. record x { responder_pubkey = some pubkey }) db.exchanges;
  },
)

unfoldable pub set_responder_pubkey : Text → Bytes → Action (Unit {0})
set_responder_pubkey exchange_id pubkey = do
  rows ← run_query (update_responder pubkey exchange_id)
  raise_if (rows == 0) not_found

unfoldable pub remove_exchange : Text → Database → Option (ℕ × Database)
remove_exchange exchange_id db = some (
  count (λ x. x.exchange_id == exchange_id) db.exchanges,
  record db { exchanges = delete (λ x. x.exchange_id == exchange_id) db.exchanges },
)

unfoldable pub delete_exchange : Text → Action (Unit {0})
delete_exchange exchange_id = do run_query (remove_exchange exchange_id); pure tt

unfoldable pub remove_expired : ℤ → Database → Option (ℕ × Database)
remove_expired now db = some (
  count (λ x. ltb_ℤ x.expires_at now) db.exchanges,
  record db { exchanges = delete (λ x. ltb_ℤ x.expires_at now) db.exchanges },
)

unfoldable pub purge_expired_exchanges : Action ℕ
purge_expired_exchanges = do now ← unix_now; run_query (remove_expired (as_i64 now))
