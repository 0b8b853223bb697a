-- ===== src/Api/Exchange/Delivery.antt =====
-- An exchange from its beginning to its end.
use smqtt.Prelude.{
  ◌+◌, ◌≡◌, refl, ap, false, some, List, [], ◌∷◌, ◌++◌, Text, Bytes, ◌==◌, text_eq, text_beq_iff,
  text_beq_refl, ◌∙◌, arith, inl, inr, find, Option-cases, Sum-cases,
}
use smqtt.Table.{has_key}
use smqtt.Rows.{PendingExchange}
use smqtt.Error.{ok, err, not_found}
use smqtt.State.{AppState, World}
use smqtt.Exec.{◌>>=◌, fetch, run_query, unix_now, new_uuid}
use smqtt.Crypto.{b64_decode}
use smqtt.Broker.{publish_system}
use smqtt.Db.Users.{get_user, find_user}
use smqtt.Db.Exchanges.{create_exchange, insert_exchange, new_exchange, find_exchange}
use smqtt.Api.Exchange.{InitiateRequest, ExchangeResponse, decode_ephemeral, initiate, respond, get}
use smqtt.Api.Exchange.Initiate.{initiate_sound}
use smqtt.Api.Exchange.Respond.{respond_sound, find-answered}
use smqtt.Api.Exchange.Fetch.{shown, get_delivers_once}

-- The id of a new exchange was not taken.
initiate_fresh :
    (state : AppState) (user_id exchange_id : Text) (req : InitiateRequest) (w : World)
    → (initiate state user_id req w).0 ≡ ok exchange_id
    → has_key (λ x. x.exchange_id) exchange_id w.db.exchanges ≡ false
unfolding initiate get_user fetch ◌>>=◌ decode_ephemeral b64_decode create_exchange insert_exchange
    new_exchange new_uuid unix_now run_query publish_system
initiate_fresh state user_id exchange_id req w h =
    elim (Option-cases (find_user req.peer_id w.db)) [
      | inl missing ↦ absurd (ground arith)
      | inr (peer, exists) ↦ elim (Sum-cases (state.ext.b64_decode req.ephemeral_pubkey)) [
        | inl (e, bad) ↦ absurd (ground arith)
        | inr (key, decoded) ↦ ground arith
      ]
    ]

-- A row that is added under a new id is found.
find-append :
    (exchange_id : Text) (xs : List PendingExchange) (x : PendingExchange)
    → has_key (λ y. y.exchange_id) exchange_id xs ≡ false
    → x.exchange_id ≡ exchange_id
    → find (λ y. y.exchange_id == exchange_id) (xs ++ x ∷ []) ≡ some x
find-append exchange_id [] x h e = ground (arith, text_beq_iff x.exchange_id exchange_id)
find-append exchange_id (y ∷ xs) x h e = ground (arith, find-append exchange_id xs x)

module _ (state : AppState) (alice bob exchange_id : Text) (req : InitiateRequest) (key_text : Text)
    (w v u : World) (r : ExchangeResponse)
    (initiated : (initiate state alice req w).0 ≡ ok exchange_id)
    (kept : v.db.exchanges ≡ (initiate state alice req w).1.db.exchanges)
    (responded : (respond state bob exchange_id key_text v).0 ≡ ok r)
    (kept' : u.db.exchanges ≡ (respond state bob exchange_id key_text v).1.db.exchanges)
    (a : u.oracle.fails u.oracle.asked ≡ false) (b : u.oracle.fails (u.oracle.asked + 1) ≡ false)
    (c : u.oracle.fails (u.oracle.asked + 1 + 1) ≡ false) where
  -- A key exchange runs to its end: after one user has initiated it and another has responded, and if
  -- nothing else touched the table of exchanges, the initiator fetches both keys, each as it was sent,
  -- and then the exchange is gone for both. (If the three queries of the fetches are answered.)
  pub exchange_delivers :
      (initiator_key : Bytes) × (responder_key : Bytes) × (state.ext.b64_decode req.ephemeral_pubkey
        ≡ inr initiator_key)
      × (state.ext.b64_decode key_text ≡ inr responder_key)
      × ((get state alice exchange_id u).0
          ≡ ok (record {
            exchange_id = exchange_id;
            initiator_id = alice;
            responder_id = req.peer_id;
            initiator_pubkey = state.ext.b64_encode initiator_key;
            responder_pubkey = some (state.ext.b64_encode responder_key);
          }))
      × ((get state bob exchange_id (get state alice exchange_id u).1).0 ≡ err not_found)
  unfolding new_exchange
  exchange_delivers =
      let (p, key, exists, decoded, sized, stored, sent) =
        initiate_sound state alice exchange_id req w initiated in
      let (m, stored', sent') = respond_sound state bob exchange_id key_text v r responded in
      let row =
        new_exchange exchange_id alice req.peer_id key (w.oracle.clock (w.oracle.asked + 1 + 1))
          (w.oracle.clock (w.oracle.asked + 1 + 1 + 1)) in
      let found : find_exchange exchange_id v.db ≡ some row =
        ap (find λ y. y.exchange_id == exchange_id) (kept ∙ ap (λ db. db.exchanges) stored)
        ∙ find-append exchange_id w.db.exchanges row
            (initiate_fresh state alice exchange_id req w initiated) refl in
      let found' : find_exchange exchange_id u.db
          ≡ some (record row { responder_pubkey = some m.key }) =
        ap (find λ y. y.exchange_id == exchange_id) (kept' ∙ ap (λ db. db.exchanges) stored')
        ∙ find-answered m.key exchange_id v.db
        ∙ rw found in
      let (shown, gone) =
        get_delivers_once state alice bob exchange_id u
          (record row { responder_pubkey = some m.key }) found' (text_beq_refl alice) a b c in
      (key, m.key, decoded, m.decoded, shown, gone)
