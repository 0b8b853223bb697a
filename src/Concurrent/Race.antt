-- ===== src/Concurrent/Race.antt =====
-- A race that the code leaves open: two responses to one exchange (api/exchange.rs).
use smqtt.Prelude.{
  ◌≡◌, refl, none, some, false, List, [], ◌∷◌, ◌++◌, ℕ, any-find, ◌∙◌, ap, subst, sym, Text, Bytes,
  ◌==◌, text_eq, nat_eq, text_beq_iff, arith, inr, length, text,
}
use smqtt.Table.Laws.{count-any}
use smqtt.Error.{ok}
use smqtt.Rows.{PendingExchange}
use smqtt.State.{AppState, World, forwards, next, notify_topic}
use smqtt.Exec.{◌>>=◌, fetch}
use smqtt.Task as Tasks
use smqtt.Task.{Task, done, atom, ret, ◌>>=◌ as then_do}
use smqtt.Crypto.{b64_decode}
use smqtt.Broker.{publish_system}
use smqtt.Db.Exchanges.{find_exchange, get_exchange, set_responder_pubkey, update_responder}
use smqtt.Api.Exchange.{ExchangeResponse, decode_ephemeral, may_respond, notice}
use smqtt.Api.Exchange.Respond.{MayRespond, answered, find-answered}
use smqtt.Concurrent.Api.{respond}
use smqtt.Concurrent.Schedule.{
  Side, left, right, Pair, interleave, interleave-left, interleave-right, interleave_none, ticks,
  ticks-atom, ticks_none, times,
}

abbrev pub reply : AppState → Text → PendingExchange → Bytes → ExchangeResponse
reply state exchange_id x key = record {
  exchange_id = exchange_id;
  initiator_id = x.initiator_id;
  responder_id = x.responder_id;
  initiator_pubkey = state.ext.b64_encode x.initiator_pubkey;
  responder_pubkey = some (state.ext.b64_encode key);
}

-- What is left of `respond` after its checks.
abbrev pub store_response : AppState → Text → PendingExchange → Bytes → Task ExchangeResponse
store_response state exchange_id x key = then_do (atom (set_responder_pubkey exchange_id key)) λ u.
    then_do
      (atom (
        publish_system state (notify_topic state x.initiator_id)
          (notice state.ext (text "exchange_complete") exchange_id)))
      λ v. ret (reply state exchange_id x key)

module _ (state : AppState) (user_id exchange_id key_text : Text) where
  get_exchange_found :
      (w : World) (x : PendingExchange)
      → find_exchange exchange_id w.db ≡ some x
      → w.oracle.fails w.oracle.asked ≡ false
      → get_exchange exchange_id w ≡ (ok x, next w)
  unfolding get_exchange fetch ◌>>=◌
  get_exchange_found w x exists up = ground (arith, exists, up)

  may_respond_passes :
      (w : World) (x : PendingExchange)
      → x.responder_id ≡ user_id
      → x.responder_pubkey ≡ none
      → may_respond user_id x w ≡ (ok tt, w)
  unfolding may_respond ◌>>=◌
  may_respond_passes w x mine unanswered =
      ground (arith, mine, unanswered, text_beq_iff x.responder_id user_id)

  decode_ephemeral_reads :
      (w : World) (key : Bytes)
      → state.ext.b64_decode key_text ≡ inr key
      → length key ≡ 32
      → decode_ephemeral state.ext key_text w ≡ (ok key, w)
  unfolding decode_ephemeral b64_decode ◌>>=◌
  decode_ephemeral_reads w key decoded sized = ground (arith, decoded, sized)

  respond_checks :
      (w : World) (m : MayRespond state user_id exchange_id key_text w.db)
      → w.oracle.fails w.oracle.asked ≡ false
      → ticks 3 (respond state user_id exchange_id key_text) w
        ≡ (store_response state exchange_id m.exchange m.key, next w)
  unfolding respond
  respond_checks w m up =
      ticks-atom 2 _ _ w _ _ (get_exchange_found w m.exchange m.exists up)
      ∙ ticks-atom 1 _ _ (next w) _ _
          (may_respond_passes (next w) m.exchange m.responder m.unanswered)
      ∙ ticks-atom 0 _ _ (next w) _ _ (decode_ephemeral_reads (next w) m.key m.decoded m.sized)
      ∙ ticks_none _ _

module _ (state : AppState) (exchange_id : Text) (x : PendingExchange) (key : Bytes) where
  -- The world after a response is stored and the initiator told.
  abbrev stored_and_told : World → World
  stored_and_told w = record w {
    db = answered key exchange_id w.db;
    broker =
        w.broker
        ++ forwards state.node_id (text "smqtt-system") (notify_topic state x.initiator_id)
            (notice state.ext (text "exchange_complete") exchange_id)
          ∷ [];
    oracle = (next w).oracle;
  }

  set_responder_stores :
      (w : World) (y : PendingExchange)
      → find_exchange exchange_id w.db ≡ some y
      → w.oracle.fails w.oracle.asked ≡ false
      → set_responder_pubkey exchange_id key w
        ≡ (ok tt, record (next w) { db = answered key exchange_id w.db })
  unfolding set_responder_pubkey update_responder ◌>>=◌ smqtt.Exec.run_query
  set_responder_stores w y exists up = ground (
    arith,
    up,
    count-any (λ x. x.exchange_id == exchange_id) w.db.exchanges,
    any-find (λ x. x.exchange_id == exchange_id) w.db.exchanges y exists,
  )

  response_stored :
      (y : PendingExchange) (w : World)
      → find_exchange exchange_id w.db ≡ some y
      → w.oracle.fails w.oracle.asked ≡ false
      → ticks 2 (store_response state exchange_id x key) w
        ≡ (done (ok (reply state exchange_id x key)), stored_and_told w)
  unfolding publish_system Tasks.ret smqtt.Exec.modify
  response_stored y w exists up =
      ticks-atom 1 _ _ w _ _ (set_responder_stores w y exists up)
      ∙ ticks-atom 0 _ _ _ tt (stored_and_told w) refl
      ∙ ticks_none _ _

-- The first handler passes its checks, the second runs to its end, and then the first does.
abbrev pub overtaking : List Side
overtaking = times 3 left ++ (times 3 right ++ (times 2 right ++ (times 2 left ++ [])))

module _ (state : AppState) (user_id exchange_id key_text key_text' : Text) (w : World)
    (m : MayRespond state user_id exchange_id key_text w.db)
    (m' : MayRespond state user_id exchange_id key_text' w.db) where
  -- Two responses to one exchange as they start.
  abbrev pub two_responses : Pair ExchangeResponse ExchangeResponse
  two_responses = record {
    first = respond state user_id exchange_id key_text;
    second = respond state user_id exchange_id key_text';
    world = w;
  }

  abbrev between : World
  between = stored_and_told state exchange_id m'.exchange m'.key (next (next w))

  now_answered :
      find_exchange exchange_id (answered m'.key exchange_id w.db)
      ≡ some (record m'.exchange { responder_pubkey = some m'.key })
  now_answered = ground (arith, find-answered m'.key exchange_id w.db, m'.exists)

  replaced :
      find_exchange exchange_id (answered m.key exchange_id (answered m'.key exchange_id w.db))
      ≡ some (record m'.exchange { responder_pubkey = some m.key })
  replaced =
      ground
        (arith, find-answered m.key exchange_id (answered m'.key exchange_id w.db), now_answered)

  responses_end :
      ((n : ℕ) → w.oracle.fails n ≡ false)
      → interleave overtaking two_responses ≡ record {
        first = done (ok (reply state exchange_id m.exchange m.key));
        second = done (ok (reply state exchange_id m'.exchange m'.key));
        world = stored_and_told state exchange_id m.exchange m.key between;
      }
  responses_end up =
      interleave-left 3 _ _ _ w _ (respond_checks state user_id exchange_id key_text w m (up _))
      ∙ interleave-right 3 _ _ _ (next w) _
          (respond_checks state user_id exchange_id key_text' (next w) m' (up _))
      ∙ interleave-right 2 _ _ _ (next (next w)) _ (
          response_stored state exchange_id m'.exchange m'.key m'.exchange (next (next w)) m'.exists
            (up _))
      ∙ interleave-left 2 _ _ _ between _ (
          response_stored state exchange_id m.exchange m.key
            (record m'.exchange { responder_pubkey = some m'.key }) between now_answered (up _))
      ∙ interleave_none _

  -- Two `respond` requests of the responder to an unanswered exchange, each with a key of 32 bytes, can
  -- overtake each other: if the second runs between the checks and the update of the first, and all
  -- statements are carried out, both report success with their own key, and the key stored in the end
  -- is that of the first.
  pub responses_race :
      ((n : ℕ) → w.oracle.fails n ≡ false)
      → let end = interleave overtaking two_responses in
        (end.first ≡ done (ok (reply state exchange_id m.exchange m.key)))
        × (end.second ≡ done (ok (reply state exchange_id m'.exchange m'.key)))
        × (find_exchange exchange_id end.world.db
            ≡ some (record m'.exchange { responder_pubkey = some m.key }))
  responses_race up =
      let e = responses_end up in
      (
        ap (λ p. p.first) e,
        ap (λ p. p.second) e,
        subst
            (λ p.
              find_exchange exchange_id p.world.db
              ≡ some (record m'.exchange { responder_pubkey = some m.key }))
            (sym e) replaced,
      )
