-- ===== src/Api/Exchange/Phase.antt =====
-- What a key exchange is to its parties, apart from how it is stored: a small state machine.
use smqtt.Prelude.{◌≡◌, ◌⊎◌, Option, none, some, Text, Bytes}
use smqtt.Rows.{PendingExchange}

-- initiator, responder, the initiator's key and the responder's key
pub data Phase : Type 0 where
  absent : Phase
  pending : Text → Text → Bytes → Phase
  complete : Text → Text → Bytes → Bytes → Phase

abbrev pub phase_of : Option PendingExchange → Phase
phase_of none = absent
phase_of (some x) = elim x.responder_pubkey [
  | none ↦ pending x.initiator_id x.responder_id x.initiator_pubkey
  | some key ↦ complete x.initiator_id x.responder_id x.initiator_pubkey key
]

-- Who asks for what.
pub data Event : Type 0 where
  initiated responded fetched : Text → Event
  purged : Event

-- What may happen to an exchange: the caller begins one of his own, the responder answers one that is
-- pending, the initiator of a complete one has fetched it, or it is purged.
pub data Move : Event → Phase → Phase → Type 0 where
  begin : (a b : Text) (key : Bytes) → Move (initiated a) absent (pending a b key)
  answer :
      (a b : Text) (key reply : Bytes)
      → Move (responded b) (pending a b key) (complete a b key reply)
  discard : (a b : Text) (key reply : Bytes) → Move (fetched a) (complete a b key reply) absent
  expire : (p : Phase) → Move purged p absent

abbrev pub Step : Event → Phase → Phase → Type 0
Step e p q = (p ≡ q) ⊎ Move e p q
