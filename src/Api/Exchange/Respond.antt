-- ===== src/Api/Exchange/Respond.antt =====
-- The response to an exchange (api/exchange.rs).
use smqtt.Prelude.{
  ◌≡◌, ◌≢◌, refl, none, some, Text, Bytes, ◌==◌, text_eq, nat_eq, text_beq_iff, arith, inl, inr,
  length, ◌++◌, ◌∷◌, [], text, Option-cases, Sum-cases, subst,
}
use mathlib.Core.Option
use smqtt.Table.{update}
use smqtt.Table.Laws.{find-update}
use smqtt.Rows.{PendingExchange, Database}
use smqtt.Error.{ok}
use smqtt.State.{AppState, World, forwards, notify_topic}
use smqtt.Exec.{◌>>=◌, fetch}
use smqtt.Crypto.{b64_decode}
use smqtt.Broker.{publish_system}
use smqtt.Db.Exchanges.{get_exchange, find_exchange, set_responder_pubkey, update_responder}
use smqtt.Api.Exchange.{ExchangeResponse, decode_ephemeral, notice, respond}

-- The database in which `key` is the response to the exchange.
abbrev pub answered : Bytes → Text → Database → Database
answered key exchange_id db = record db {
  exchanges =
      update (λ x. x.exchange_id == exchange_id) (λ x. record x { responder_pubkey = some key })
        db.exchanges;
}

-- An open exchange whose responder is the caller, and a 32-byte key.
pub record MayRespond (state : AppState) (user_id exchange_id key_text : Text) (db : Database)
    : Type 0 where
  pub exchange : PendingExchange
  pub exists : find_exchange exchange_id db ≡ some exchange
  pub responder : exchange.responder_id ≡ user_id
  pub unanswered : exchange.responder_pubkey ≡ none
  pub key : Bytes
  pub decoded : state.ext.b64_decode key_text ≡ inr key
  pub sized : length key ≡ 32

module _ (state : AppState) (user_id exchange_id key_text : Text) (w : World) where
  -- A successful `respond` was made by the responder of an unanswered exchange, with a key of 32 bytes:
  -- the key is stored with that exchange, the initiator's notification topic gets one message, and
  -- the database is otherwise unchanged.
  pub respond_sound :
      (r : ExchangeResponse)
      → (respond state user_id exchange_id key_text w).0 ≡ ok r
      → (m : MayRespond state user_id exchange_id key_text w.db) × ((respond state user_id
            exchange_id key_text w).1.db
          ≡ answered m.key exchange_id w.db)
        × ((respond state user_id exchange_id key_text w).1.broker
            ≡ w.broker
              ++ forwards state.node_id
                  (text "smqtt-system")
                  (notify_topic state m.exchange.initiator_id)
                  (notice state.ext (text "exchange_complete") exchange_id)
                ∷ [])
  unfolding respond get_exchange fetch ◌>>=◌ decode_ephemeral b64_decode set_responder_pubkey
      update_responder publish_system
  respond_sound r h = elim (Option-cases (find_exchange exchange_id w.db)) [
    | inl missing ↦ absurd (ground arith)
    | inr (x, exists) ↦ elim (Sum-cases (state.ext.b64_decode key_text)) [
      | inl (e, bad) ↦ absurd (ground arith)
      | inr (key, decoded) ↦ (
        record {
          exchange = x;
          exists = exists;
          responder = ground (arith, text_beq_iff x.responder_id user_id);
          unanswered = ground arith;
          key = key;
          decoded = decoded;
          sized = ground arith;
        },
        ground arith,
        ground arith,
      )
    ]
  ]

pub find-answered :
    (key : Bytes) (exchange_id : Text) (db : Database)
    → find_exchange exchange_id (answered key exchange_id db)
      ≡ Option.map {A = PendingExchange}
          (λ x. record x { responder_pubkey = some key })
          (find_exchange exchange_id db)
find-answered key exchange_id db =
    find-update (λ x. x.exchange_id == exchange_id) _ (λ x. refl) db.exchanges

-- Right after a successful `respond` no other `respond` to the same exchange succeeds, by whomever
-- and with whatever key.
pub respond_once :
    (state : AppState) (user_id other_id exchange_id key_text other_text : Text) (w : World)
    (r r' : ExchangeResponse)
    → (respond state user_id exchange_id key_text w).0 ≡ ok r
    → (respond state other_id exchange_id other_text
        (respond state user_id exchange_id key_text w).1).0
      ≢ ok r'
respond_once state user_id other_id exchange_id key_text other_text w r r' h h' =
    let (m, stored, sent) = respond_sound state user_id exchange_id key_text w r h in
    let w' = (respond state user_id exchange_id key_text w).1 in
    let (m', stored', sent') = respond_sound state other_id exchange_id other_text w' r' h' in
    let e = subst (λ db. find_exchange exchange_id db ≡ some m'.exchange) stored m'.exists in
    ground (arith, e, find-answered m.key exchange_id w.db, m'.unanswered)
