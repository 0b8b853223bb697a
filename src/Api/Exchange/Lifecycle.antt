-- ===== src/Api/Exchange/Lifecycle.antt =====
-- The handlers of api/exchange.rs and the purge (main.rs) beside the state machine of
-- Api.Exchange.Phase.
use smqtt.Prelude.{
  ◌≡◌, refl, inl, inr, Bool, true, false, Option, none, some, List, [], ◌∷◌, ◌++◌, Text, Bytes,
  ◌==◌, nat_eq, text_eq, text_beq_iff, find, arith, sym, ap, subst, Bool-cases, Option-cases,
  if◌then◌else◌, ◌∙◌,
}
use mathlib.Core.Option
use smqtt.Table.{Unique, delete}
use smqtt.Table.Laws.{find-delete}
use smqtt.Table.Find.{find-append, find-update_apart, find-delete_apart, find-delete_by_key}
use smqtt.Rows.{PendingExchange, Database}
use smqtt.State.{AppState, World}
use smqtt.Db.Exchanges.{find_exchange, new_exchange}
use smqtt.Api.Exchange.{InitiateRequest, initiate, respond, get}
use smqtt.Api.Exchange.Respond.{MayRespond, answered, find-answered}
use smqtt.Api.Exchange.Fetch.{discarded, is_final}
use smqtt.Api.Exchange.Phase.{
  Phase, pending, complete, phase_of, Event, Move, initiated, responded, fetched, purged, begin,
  answer, discard, expire, Step,
}
use smqtt.Main.{purge_tick}
use smqtt.Api.Exchange.Written.{initiate_db, respond_db, get_db, purge_db}

abbrev pub phase : Text → Database → Phase
phase exchange_id db = phase_of (find_exchange exchange_id db)

-- A statement on another exchange changes nothing of this one.
apart :
    (id other_id : Text)
    → (other_id == id) ≡ false
    → (x : PendingExchange) → (x.exchange_id == other_id) ≡ true
    → ((x.exchange_id == id) ≡ false) × ((x.exchange_id == id) ≡ false)
apart id other_id different x h = ground (arith, text_beq_iff x.exchange_id other_id)

moved : {e : Event} {p p' q q' : Phase} → p ≡ p' → q ≡ q' → Move e p' q' → Step e p q
moved {e} {p} {p'} {q} {q'} before after m =
    inr (subst (λ p. Move e p q) (sym before) (subst (Move e p') (sym after) m))

-- The phase of a row by its response.
with_reply : (x : PendingExchange) (r : Option Bytes) → Phase
with_reply x r = phase_of (some (record x { responder_pubkey = r }))

began :
    (o : Option PendingExchange) (b : Bool) (x : PendingExchange)
    → x.responder_pubkey ≡ none
    → Step
        (initiated x.initiator_id)
        (phase_of o)
        (phase_of (elim o [ none ↦ (if b then some x else none) | some y ↦ some y ]))
unfolding with_reply
began (some y) b x fresh = inl refl
began none false x fresh = inl refl
began none true x fresh = moved refl (ap (with_reply x) fresh) (begin _ _ _)

begin-Step :
    (id : Text) (x : PendingExchange) (xs : List PendingExchange)
    → x.responder_pubkey ≡ none
    → Step
        (initiated x.initiator_id)
        (phase_of (find (λ y. y.exchange_id == id) xs))
        (phase_of (find (λ y. y.exchange_id == id) (xs ++ x ∷ [])))
begin-Step id x xs fresh =
    subst
      (λ o.
        Step (initiated x.initiator_id) (phase_of (find (λ y. y.exchange_id == id) xs))
          (phase_of o))
      (sym (find-append (λ y. y.exchange_id == id) xs x))
      (began (find (λ y. y.exchange_id == id) xs) (x.exchange_id == id) x fresh)

answer-Step :
    (state : AppState) (id user_id exchange_id key_text : Text) (db : Database)
    (m : MayRespond state user_id exchange_id key_text db)
    → Step (responded user_id) (phase id db) (phase id (answered m.key exchange_id db))
unfolding with_reply
answer-Step state id user_id exchange_id key_text db m =
    let x = m.exchange in
    elim (Bool-cases (exchange_id == id)) [
      | inl same ↦
          subst
            (λ i. Step (responded user_id) (phase i db) (phase i (answered m.key exchange_id db)))
            ((text_beq_iff exchange_id id).0 same)
            (moved
              (ap phase_of m.exists
                ∙ ap (with_reply x) m.unanswered
                ∙ ap (λ r. pending x.initiator_id r x.initiator_pubkey) m.responder)
              (ap phase_of (find-answered m.key exchange_id db)
                ∙ ap
                    (λ o. phase_of (
                      Option.map {A = PendingExchange}
                        (λ x. record x { responder_pubkey = some m.key }) o))
                    m.exists
                ∙ ap (λ r. complete x.initiator_id r x.initiator_pubkey m.key) m.responder)
              (answer _ _ _ _))
      | inr different ↦ inl (
          ap phase_of (
            sym (
              find-update_apart (λ x. x.exchange_id == id) (λ x. x.exchange_id == exchange_id)
                (λ x. record x { responder_pubkey = some m.key }) (apart id exchange_id different)
                db.exchanges)))
    ]

discard-Step :
    (id user_id exchange_id : Text) (db : Database) (x : PendingExchange)
    → find_exchange exchange_id db ≡ some x
    → is_final user_id x ≡ true
    → Step (fetched user_id) (phase id db) (phase id (discarded exchange_id db))
unfolding with_reply
discard-Step id user_id exchange_id db x exists final = elim (Bool-cases (exchange_id == id)) [
  | inl same ↦ elim (Option-cases x.responder_pubkey) [
    | inl unanswered ↦ absurd (ground arith)
    | inr (key, replied) ↦
        let mine : x.initiator_id ≡ user_id = ground (arith, text_beq_iff x.initiator_id user_id) in
        subst (λ i. Step (fetched user_id) (phase i db) (phase i (discarded exchange_id db)))
          ((text_beq_iff exchange_id id).0 same)
          (moved
            (ap phase_of exists
              ∙ ap (with_reply x) replied
              ∙ ap (λ a. complete a x.responder_id x.initiator_pubkey key) mine)
            (ap phase_of (find-delete (λ y. y.exchange_id == exchange_id) db.exchanges))
            (discard _ _ _ _))
  ]
  | inr different ↦ inl (
      ap phase_of (
        sym (
          find-delete_apart (λ x. x.exchange_id == id) (λ x. x.exchange_id == exchange_id)
            (λ x e. (apart id exchange_id different x e).0) db.exchanges)))
]

expire-Step :
    (id : Text) (q : PendingExchange → Bool) (xs : List PendingExchange)
    → Unique (λ x. x.exchange_id) xs
    → Step purged
        (phase_of (find (λ x. x.exchange_id == id) xs))
        (phase_of (find (λ x. x.exchange_id == id) (delete q xs)))
expire-Step id q xs u = elim (find-delete_by_key (λ x. x.exchange_id) id q xs u) [
  | inl gone ↦ moved refl (ap phase_of gone) (expire _)
  | inr left ↦ inl (ap phase_of (sym left))
]

-- The requests on exchanges and a round of the purge.
pub data Operation : Type 0 where
  op_initiate : Text → InitiateRequest → Operation
  op_respond : Text → Text → Text → Operation
  op_get : Text → Text → Operation
  op_purge : Operation

unfoldable pub perform : AppState → Operation → World → World
perform state (op_initiate user_id req) w = (initiate state user_id req w).1
perform state (op_respond user_id exchange_id key) w = (respond state user_id exchange_id key w).1
perform state (op_get user_id exchange_id) w = (get state user_id exchange_id w).1
perform state op_purge w = (purge_tick w).1

unfoldable pub event : Operation → Event
event (op_initiate user_id req) = initiated user_id
event (op_respond user_id exchange_id key) = responded user_id
event (op_get user_id exchange_id) = fetched user_id
event op_purge = purged

-- In a database in which the ids of exchanges are unique, a request on exchanges or a round of the
-- purge that runs without interruption, whether it succeeds or fails, leaves each exchange as its
-- parties know it or moves it once: `initiate` begins one of the caller's that did not exist, without
-- a response; `respond` answers a pending one whose responder is the caller; `get` discards a complete
-- one whose initiator is the caller; the purge drops one. So the parties and the initiator's key never
-- change, and no response is replaced.
pub exchange_refines :
    (state : AppState) (op : Operation) (exchange_id : Text) (w : World)
    → Unique (λ x. x.exchange_id) w.db.exchanges
    → Step (event op) (phase exchange_id w.db) (phase exchange_id (perform state op w).db)
unfolding perform event new_exchange
exchange_refines state (op_initiate user_id req) id w u = elim (initiate_db state user_id w req) [
  | inl same ↦ inl (ap (phase id) (sym same))
  | inr (new, key, s, t, stored) ↦
      subst (λ db. Step (initiated user_id) (phase id w.db) (phase id db)) (sym stored)
        (begin-Step id (new_exchange new user_id req.peer_id key s t) w.db.exchanges refl)
]
exchange_refines state (op_respond user_id exchange_id key) id w u =
    elim (respond_db state user_id w exchange_id key) [
      | inl same ↦ inl (ap (phase id) (sym same))
      | inr (m, stored) ↦
          subst (λ db. Step (responded user_id) (phase id w.db) (phase id db)) (sym stored)
            (answer-Step state id user_id exchange_id key w.db m)
    ]
exchange_refines state (op_get user_id exchange_id) id w u =
    elim (get_db state user_id w exchange_id) [
      | inl same ↦ inl (ap (phase id) (sym same))
      | inr (x, exists, final, stored) ↦
          subst (λ db. Step (fetched user_id) (phase id w.db) (phase id db)) (sym stored)
            (discard-Step id user_id exchange_id w.db x exists final)
    ]
exchange_refines state op_purge id w u = elim (purge_db w) [
  | inl same ↦ inl (ap (phase id) (sym same))
  | inr (q, stored) ↦
      subst (λ db. Step purged (phase id w.db) (phase id db)) (sym stored)
        (expire-Step id q w.db.exchanges u)
]
