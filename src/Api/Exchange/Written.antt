-- ===== src/Api/Exchange/Written.antt =====
-- What the handlers of api/exchange.rs and the purge (main.rs) write, on every branch.
use smqtt.Prelude.{
  ◌≡◌, refl, inl, inr, ◌⊎◌, Bool, true, not, ◌&&◌, some, [], ◌∷◌, ◌++◌, Text, Bytes, ◌==◌, nat_eq,
  text_eq, text_beq_iff, arith, Bool-cases, Option-cases, Sum-cases, length, ℕ, ltb_ℤ, as_i64, suc,
}
use smqtt.Table.{delete}
use smqtt.Error.{Error, Result, ok, err}
use smqtt.Rows.{PendingExchange}
use smqtt.State.{AppState, World}
use smqtt.Exec.{◌>>=◌, fetch, run_query, unix_now, new_uuid}
use smqtt.Crypto.{b64_decode}
use smqtt.Broker.{publish_system}
use smqtt.Db.Users.{get_user, find_user}
use smqtt.Db.Exchanges.{
  find_exchange, get_exchange, create_exchange, insert_exchange, new_exchange, set_responder_pubkey,
  update_responder, delete_exchange, remove_exchange, purge_expired_exchanges, remove_expired,
}
use smqtt.Api.Exchange.{
  InitiateRequest, decode_ephemeral, initiate, respond, get, is_some, discard as discard_record,
}
use smqtt.Api.Exchange.Respond.{MayRespond, answered}
use smqtt.Api.Exchange.Initiate.{initiate_sound}
use smqtt.Api.Exchange.Fetch.{discarded, is_final}
use smqtt.Main.{purge_tick}

-- What each handler makes of the database.
module _ (state : AppState) (user_id : Text) (w : World) where
  initiate_failed :
      (req : InitiateRequest) (e : Error)
      → (initiate state user_id req w).0 ≡ err e
      → (initiate state user_id req w).1.db ≡ w.db
  unfolding initiate get_user fetch ◌>>=◌ decode_ephemeral b64_decode create_exchange
      insert_exchange new_uuid unix_now run_query publish_system
  initiate_failed req e h = elim (Option-cases (find_user req.peer_id w.db)) [
    | inl missing ↦ ground arith
    | inr (peer, exists) ↦ elim (Sum-cases (state.ext.b64_decode req.ephemeral_pubkey)) [
      | inl (e, bad) ↦ ground arith
      | inr (key, decoded) ↦ ground arith
    ]
  ]

  pub initiate_db :
      (req : InitiateRequest)
      → ((initiate state user_id req w).1.db ≡ w.db)
        ⊎ ((id : Text) × (key : Bytes) × (s : ℕ) × (t : ℕ) × ((initiate state user_id req w).1.db
              ≡ record w.db {
                exchanges = w.db.exchanges ++ new_exchange id user_id req.peer_id key s t ∷ [];
              }))
  initiate_db req = by_result ((initiate state user_id req w).0) refl
    where
      by_result :
          (r : Result Text)
          → (initiate state user_id req w).0 ≡ r
          → ((initiate state user_id req w).1.db ≡ w.db)
            ⊎ ((id : Text) × (key : Bytes) × (s : ℕ) × (t : ℕ) × ((initiate state user_id req
                    w).1.db
                  ≡ record w.db {
                    exchanges = w.db.exchanges ++ new_exchange id user_id req.peer_id key s t ∷ [];
                  }))
      by_result (ok id) h =
          let (peer, key, exists, decoded, sized, stored, sent) =
            initiate_sound state user_id id req w h in
          inr (id, key, _, _, stored)
      by_result (err e) h = inl (initiate_failed req e h)

  pub respond_db :
      (exchange_id key_text : Text)
      → ((respond state user_id exchange_id key_text w).1.db ≡ w.db)
        ⊎ ((m : MayRespond state user_id exchange_id key_text w.db) × ((respond state user_id
                exchange_id key_text w).1.db
              ≡ answered m.key exchange_id w.db))
  unfolding respond get_exchange fetch ◌>>=◌ decode_ephemeral b64_decode set_responder_pubkey
      update_responder publish_system run_query
  respond_db exchange_id key_text = elim (Option-cases (find_exchange exchange_id w.db)) [
    | inl missing ↦ inl (ground arith)
    | inr (x, exists) ↦ elim (Sum-cases (state.ext.b64_decode key_text)) [
      | inl (e, bad) ↦ inl (ground arith)
      | inr (key, decoded) ↦
          elim (Bool-cases (
            x.responder_id == user_id
            && not (is_some x.responder_pubkey)
            && length key == 32
            && not (w.oracle.fails w.oracle.asked)
            && not (w.oracle.fails (suc w.oracle.asked)))) [
              | inl allowed ↦ inr (
                record {
                  exchange = x;
                  exists = exists;
                  responder = ground (arith, text_beq_iff x.responder_id user_id);
                  unanswered = ground arith;
                  key = key;
                  decoded = decoded;
                  sized = ground arith;
                },
                ground arith,
              )
              | inr bad ↦ inl (ground arith)
            ]
    ]
  ]

  pub get_db :
      (exchange_id : Text)
      → ((get state user_id exchange_id w).1.db ≡ w.db)
        ⊎ ((x : PendingExchange) × (find_exchange exchange_id w.db ≡ some x)
            × (is_final user_id x ≡ true)
            × ((get state user_id exchange_id w).1.db ≡ discarded exchange_id w.db))
  unfolding get get_exchange fetch ◌>>=◌ discard_record delete_exchange remove_exchange run_query
  get_db exchange_id = elim (Option-cases (find_exchange exchange_id w.db)) [
    | inl missing ↦ inl (ground arith)
    | inr (x, exists) ↦
        elim (Bool-cases (
          is_final user_id x
          && not (w.oracle.fails w.oracle.asked)
          && not (w.oracle.fails (suc w.oracle.asked)))) [
            | inl final ↦ inr (x, exists, ground arith, ground arith)
            | inr other ↦ inl (ground arith)
          ]
  ]

pub purge_db :
    (w : World)
    → ((purge_tick w).1.db ≡ w.db)
      ⊎ ((q : PendingExchange → Bool) × ((purge_tick w).1.db
            ≡ record w.db { exchanges = delete q w.db.exchanges }))
unfolding purge_tick purge_expired_exchanges remove_expired ◌>>=◌ unix_now run_query
purge_db w = elim (Bool-cases (w.oracle.fails (suc w.oracle.asked))) [
  | inl down ↦ inl (ground arith)
  | inr up ↦ inr ((λ x. ltb_ℤ x.expires_at (as_i64 (w.oracle.clock w.oracle.asked))), ground arith)
]
