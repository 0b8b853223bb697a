-- ===== src/Tests/Scene.antt =====
-- A small server: two users with a device each, one relationship, an exchange that awaits its
-- answer and one that is complete, and a registration token.
use smqtt.Prelude.{
  ℕ, ◌+◌, Bool, true, false, Option, none, some, List, [], ◌∷◌, ◌++◌, Text, Bytes, text, pos,
}
use smqtt.Config.{Config, RegistrationPolicy, RegistrationMode, open_mode, policy_mode, push}
use smqtt.Claims.{Claims}
use smqtt.Rows.{User, Device, Relationship, PendingExchange, RegistrationToken, Database}
use smqtt.State.{AppState, World, Oracle, answered}
use smqtt.Tests.Sample.{toy, put, put_list, write_claims}

abbrev pub replicate : ℕ → ℕ → List ℕ
replicate ℕ.zero x = []
replicate (ℕ.suc n) x = x ∷ replicate n x

abbrev pub alice : Text
alice = text "alice"

abbrev pub bob : Text
bob = text "bob"

abbrev pub phone : Text
phone = text "phone"

abbrev pub laptop : Text
laptop = text "laptop"

abbrev pub secret : Bytes
secret = text "s"

abbrev pub config_with : RegistrationMode → Option RegistrationPolicy → Config
config_with mode policy = record {
  database = record { path = text "db" };
  http = record { bind = text "h" };
  mqtt = record { bind = text "m" };
  registration = record { mode = mode; policy = policy };
  suspension = record { kind = push; hook_url = none };
  admin = record { api_key = text "k" };
  notifications = record { notify_secret = text "n" };
  jwt = record { signing_key = text "s"; ttl_seconds = 50 };
}

abbrev pub server : AppState
server = record { ext = toy; config = config_with open_mode none; jwt_keys = secret; node_id = 1 }

abbrev pub by_token : RegistrationPolicy
by_token = record { kind = push; hook_url = none }

abbrev pub token_server : AppState
token_server = record server { config = config_with policy_mode (some by_token) }

abbrev pub phone_key : Bytes
phone_key = replicate 32 7

abbrev pub user : Text → Bool → User
user user_id suspended = record {
  user_id = user_id;
  created_at = pos 10;
  suspended = suspended;
  suspend_reason = none;
  tokens_valid_from = pos 0;
}

abbrev pub alice_phone : Device
alice_phone = record {
  device_id = phone;
  user_id = alice;
  pubkey = phone_key;
  registered_at = pos 10;
}

abbrev pub bob_laptop : Device
bob_laptop = record {
  device_id = laptop;
  user_id = bob;
  pubkey = replicate 32 8;
  registered_at = pos 10;
}

-- JSON of one topic `news`, and of none.
abbrev pub some_topic : Text
some_topic = put_list (text "news" ∷ []) []

abbrev pub friends : Relationship
friends = record {
  relationship_id = text "r";
  user_id = alice;
  peer_id = bob;
  publish_topics = put_list [] [];
  subscribe_topics = some_topic;
  created_at = pos 10;
}

abbrev pub pending : PendingExchange
pending = record {
  exchange_id = text "x";
  initiator_id = alice;
  responder_id = bob;
  initiator_pubkey = replicate 32 1;
  responder_pubkey = none;
  created_at = pos 10;
  expires_at = pos 15;
}

abbrev pub complete : PendingExchange
complete = record pending {
  exchange_id = text "y";
  responder_pubkey = some (replicate 32 2);
  expires_at = pos 5000;
}

abbrev pub invitation : RegistrationToken
invitation = record {
  token_id = text "t";
  token_hash = text "smqtt-token-hashabc";
  created_at = pos 10;
  expires_at = pos 5000;
  max_uses = pos 1;
  uses = pos 0;
}

abbrev pub data_with : Bool → Database
data_with suspended = record {
  users = user alice suspended ∷ user bob false ∷ [];
  devices = alice_phone ∷ bob_laptop ∷ [];
  relationships = friends ∷ [];
  exchanges = pending ∷ complete ∷ [];
  tokens = invitation ∷ [];
}

-- The clock shows 20 and one second more at each question; nothing fails.
abbrev pub oracle : Oracle
oracle = record {
  asked = 0;
  clock = λ n. 20 + n;
  uuid = λ n. text "id" ++ n ∷ [];
  random = λ n k. replicate k n;
  reply = λ n url pubkey. answered (some true);
  fails = λ n. false;
}

abbrev pub nonce : Bytes
nonce = replicate 32 5

abbrev pub alice_claims : Claims
alice_claims = record {
  sub = alice;
  dev = phone;
  exp = 100;
  iat = 10;
  pub_topics = [];
  sub_topics = text "news" ∷ [];
  notify_topic = text "nn";
}

-- A token that alice's phone was given.
abbrev pub alice_token : Text
alice_token = put secret (write_claims alice_claims)

-- Alice has a challenge, and her phone a session.
abbrev pub scene_with : Bool → World
scene_with suspended = record {
  db = data_with suspended;
  challenges = (alice, (nonce, 80)) ∷ [];
  sessions = (phone, alice_claims) ∷ [];
  broker = [];
  oracle = oracle;
}

abbrev pub scene : World
scene = scene_with false
