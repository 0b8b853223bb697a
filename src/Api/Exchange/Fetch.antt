-- ===== src/Api/Exchange/Fetch.antt =====
-- Who sees an exchange, and when it is discarded.
use smqtt.Prelude.{
  ◌+◌, ◌≡◌, ap, Bool, true, false, none, some, Text, ◌==◌, text_eq, nat_eq, text_beq_iff, arith,
  inl, inr, ◌⊎◌, ◌&&◌, Option-cases, Bool-cases, sym, subst,
}
use smqtt.Table.{delete}
use smqtt.Table.Laws.{find-delete}
use smqtt.Rows.{PendingExchange, Database}
use smqtt.Error.{ok, err, not_found}
use smqtt.State.{AppState, World, next}
use smqtt.Exec.{◌>>=◌, fetch}
use smqtt.Db.Exchanges.{get_exchange, find_exchange, delete_exchange, remove_exchange}
use smqtt.Api.Exchange.{ExchangeResponse, is_some, discard, get, encode_key}

-- The database without the exchange.
abbrev pub discarded : Text → Database → Database
discarded exchange_id db = record db {
  exchanges = delete (λ x. x.exchange_id == exchange_id) db.exchanges;
}

-- What a party is shown of an exchange.
abbrev pub shown : AppState → Text → PendingExchange → ExchangeResponse
shown state exchange_id x = record {
  exchange_id = exchange_id;
  initiator_id = x.initiator_id;
  responder_id = x.responder_id;
  initiator_pubkey = state.ext.b64_encode x.initiator_pubkey;
  responder_pubkey = encode_key state.ext x.responder_pubkey;
}

-- The exchange is complete and the caller is its initiator.
abbrev pub is_final : Text → PendingExchange → Bool
is_final user_id x = is_some x.responder_pubkey && x.initiator_id == user_id

module _ (state : AppState) (user_id exchange_id : Text) (w : World) where
  -- An exchange is shown only to its initiator and its responder, and in full.
  pub get_sound :
      (r : ExchangeResponse)
      → (get state user_id exchange_id w).0 ≡ ok r
      → (x : PendingExchange) × (find_exchange exchange_id w.db ≡ some x)
        × ((x.initiator_id ≡ user_id) ⊎ (x.responder_id ≡ user_id))
        × (r ≡ shown state exchange_id x)
  unfolding get get_exchange fetch ◌>>=◌ discard
  get_sound r h = elim (Option-cases (find_exchange exchange_id w.db)) [
    | inl missing ↦ absurd (ground arith)
    | inr (x, exists) ↦ elim (Bool-cases (is_final user_id x)) [
      | inl final ↦ (
        x,
        exists,
        ground (arith, text_beq_iff x.initiator_id user_id, text_beq_iff x.responder_id user_id),
        ground arith,
      )
      | inr pending ↦ (
        x,
        exists,
        ground (arith, text_beq_iff x.initiator_id user_id, text_beq_iff x.responder_id user_id),
        ground arith,
      )
    ]
  ]

  -- A party that is not the initiator of a complete exchange sees it and leaves it in place, if the
  -- query is answered.
  pub get_pending :
      (x : PendingExchange)
      → find_exchange exchange_id w.db ≡ some x
      → (x.initiator_id ≡ user_id) ⊎ (x.responder_id ≡ user_id)
      → is_final user_id x ≡ false
      → w.oracle.fails w.oracle.asked ≡ false
      → get state user_id exchange_id w ≡ (ok (shown state exchange_id x), next w)
  unfolding get get_exchange fetch ◌>>=◌ discard
  get_pending x exists party pending up = ground (
    arith,
    exists,
    party,
    pending,
    up,
    text_beq_iff x.initiator_id user_id,
    text_beq_iff x.responder_id user_id,
  )

  get_final :
      (x : PendingExchange)
      → find_exchange exchange_id w.db ≡ some x
      → is_final user_id x ≡ true
      → w.oracle.fails w.oracle.asked ≡ false
      → w.oracle.fails (w.oracle.asked + 1) ≡ false
      → get state user_id exchange_id w ≡ (
        ok (shown state exchange_id x),
        next (next (record w { db = discarded exchange_id w.db })),
      )
  unfolding get get_exchange fetch ◌>>=◌ discard delete_exchange remove_exchange
  get_final x exists final up up' = ground (
    arith,
    exists,
    final,
    up,
    up',
    text_beq_iff x.initiator_id user_id,
    text_beq_iff x.responder_id user_id,
  )

-- A failed lookup is all that is left of a missing exchange.
get_missing :
    (state : AppState) (user_id exchange_id : Text) (w : World)
    → find_exchange exchange_id w.db ≡ none
    → w.oracle.fails w.oracle.asked ≡ false
    → (get state user_id exchange_id w).0 ≡ err not_found
unfolding get get_exchange fetch ◌>>=◌
get_missing state user_id exchange_id w missing up = ground arith

-- The initiator of a complete exchange is shown both keys, and afterwards nobody is: the exchange is
-- gone. (If the three queries are answered.)
pub get_delivers_once :
    (state : AppState) (user_id other_id exchange_id : Text) (w : World) (x : PendingExchange)
    → find_exchange exchange_id w.db ≡ some x
    → is_final user_id x ≡ true
    → w.oracle.fails w.oracle.asked ≡ false
    → w.oracle.fails (w.oracle.asked + 1) ≡ false
    → w.oracle.fails (w.oracle.asked + 1 + 1) ≡ false
    → ((get state user_id exchange_id w).0 ≡ ok (shown state exchange_id x))
      × ((get state other_id exchange_id (get state user_id exchange_id w).1).0 ≡ err not_found)
get_delivers_once state user_id other_id exchange_id w x exists final a b c =
    let e = get_final state user_id exchange_id w x exists final a b in
    (
      ap (λ r. r.0) e,
      subst (λ r. (get state other_id exchange_id r.1).0 ≡ err not_found) (sym e)
          (get_missing state other_id exchange_id _
            (find-delete (λ y. y.exchange_id == exchange_id) w.db.exchanges) c),
    )
