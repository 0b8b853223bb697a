-- ===== src/Db/Purge.antt =====
-- The purge of expired exchanges (db/mod.rs).
use smqtt.Prelude.{ℕ, ◌+◌, ◌≡◌, refl, Bool, false, not, List, [], ◌∷◌, arith, as_i64, ltb_ℤ, length}
use smqtt.Table.{select, delete, count}
use smqtt.Rows.{PendingExchange}
use smqtt.Error.{ok}
use smqtt.State.{World, next}
use smqtt.Exec.{◌>>=◌, unix_now, run_query}
use smqtt.Db.Exchanges.{purge_expired_exchanges, remove_expired}

-- What is deleted is counted, and what stays does not meet the condition.
delete-select {ℓ} :
    {A : Type ℓ} (p : A → Bool) (xs : List A) → delete p xs ≡ select (λ x. not (p x)) xs
unfolding select delete
delete-select p [] = refl
delete-select p (x ∷ xs) = ground (arith, delete-select p xs)

length-delete {ℓ} :
    {A : Type ℓ} (p : A → Bool) (xs : List A) → length (delete p xs) + count p xs ≡ length xs
unfolding delete count
length-delete p [] = omega arith
length-delete p (x ∷ xs) = ground (arith, length-delete p xs)

-- A purge whose query is answered keeps exactly the exchanges whose expiry is not before the time
-- that it read, in their order, and reports how many it removed. Nothing else of the database
-- changes.
pub purge_lem :
    (w : World)
    → w.oracle.fails (w.oracle.asked + 1) ≡ false
    → let now = as_i64 (w.oracle.clock w.oracle.asked) in
      let kept = select (λ x. not (ltb_ℤ x.expires_at now)) w.db.exchanges in
      (n : ℕ) × (purge_expired_exchanges w
        ≡ (ok n, next (next (record w { db = record w.db { exchanges = kept } }))))
      × (length kept + n ≡ length w.db.exchanges)
unfolding purge_expired_exchanges remove_expired ◌>>=◌ unix_now run_query
purge_lem w up =
    let p = λ (x : PendingExchange). ltb_ℤ x.expires_at (as_i64 (w.oracle.clock w.oracle.asked)) in
    (
      count p w.db.exchanges,
      rw (up, delete-select p w.db.exchanges),
      rw (← delete-select p w.db.exchanges) (length-delete p w.db.exchanges),
    )
