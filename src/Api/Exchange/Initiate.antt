-- ===== src/Api/Exchange/Initiate.antt =====
-- How an exchange begins.
use smqtt.Prelude.{
  ◌+◌, ◌≡◌, some, Text, Bytes, arith, inl, inr, length, ◌++◌, ◌∷◌, [], text, Option-cases,
  Sum-cases,
}
use smqtt.Rows.{User}
use smqtt.Error.{ok}
use smqtt.State.{AppState, World, forwards, notify_topic}
use smqtt.Exec.{◌>>=◌, fetch, run_query, unix_now, new_uuid}
use smqtt.Crypto.{b64_decode}
use smqtt.Broker.{publish_system}
use smqtt.Db.Users.{get_user, find_user}
use smqtt.Db.Exchanges.{create_exchange, insert_exchange, new_exchange}
use smqtt.Api.Exchange.{InitiateRequest, decode_ephemeral, notice, initiate}

-- A successful `initiate` names an existing peer and a key of 32 bytes; it adds exactly one exchange
-- between the caller and the peer, without a response and with a life of one week from the second
-- reading of the clock, and sends one message to the peer's notification topic.
pub initiate_sound :
    (state : AppState) (user_id exchange_id : Text) (req : InitiateRequest) (w : World)
    → (initiate state user_id req w).0 ≡ ok exchange_id
    → (peer : User) × (key : Bytes) × (find_user req.peer_id w.db ≡ some peer)
      × (state.ext.b64_decode req.ephemeral_pubkey ≡ inr key)
      × (length key ≡ 32)
      × ((initiate state user_id req w).1.db ≡ record w.db {
        exchanges =
            w.db.exchanges
            ++ new_exchange exchange_id user_id req.peer_id key
                (w.oracle.clock (w.oracle.asked + 1 + 1))
                (w.oracle.clock (w.oracle.asked + 1 + 1 + 1))
              ∷ [];
      })
      × ((initiate state user_id req w).1.broker
          ≡ w.broker
            ++ forwards state.node_id
                (text "smqtt-system")
                (notify_topic state req.peer_id)
                (notice state.ext (text "pending_exchange") exchange_id)
              ∷ [])
unfolding initiate get_user fetch ◌>>=◌ decode_ephemeral b64_decode create_exchange insert_exchange
    new_exchange new_uuid unix_now run_query publish_system
initiate_sound state user_id exchange_id req w h =
    elim (Option-cases (find_user req.peer_id w.db)) [
      | inl missing ↦ absurd (ground arith)
      | inr (peer, exists) ↦ elim (Sum-cases (state.ext.b64_decode req.ephemeral_pubkey)) [
        | inl (e, bad) ↦ absurd (ground arith)
        | inr (key, decoded) ↦
            (peer, key, exists, decoded, ground arith, ground arith, ground arith)
      ]
    ]
