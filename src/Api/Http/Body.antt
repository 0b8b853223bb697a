-- ===== src/Api/Http/Body.antt =====
-- The request bodies of src/api: what `#[derive(Deserialize)]` accepts of an object, with the
-- defaults that the attributes name. A field that occurs twice is an error; others are ignored.
use smqtt.Prelude.{
  ℕ, ◌^◌, Option, none, some, List, [], ◌∷◌, Text, text, ℤ, pos, negsuc, ltb, ◌==◌, text_eq,
  if◌then◌else◌,
}
use smqtt.Api.Register.{RegisterRequest}
use smqtt.Api.Auth.{VerifyRequest}
use smqtt.Api.Exchange.{InitiateRequest}
use smqtt.Api.Relationships.{CreateRequest}
use smqtt.Api.Admin.{CreateTokenRequest}
use smqtt.Api.Http.{Value, null, string, strings, integer, Fields}

pub data Field : Type 0 where
  missing twice : Field
  given : Value → Field

abbrev again : Value → Field → Field
again v missing = given v
again v f = twice

unfoldable pub field : Text → Fields → Field
field name [] = missing
field name (f ∷ fs) = let rest = field name fs in if f.0 == name then again f.1 rest else rest

infixl 10 ◌>>=◌
unfoldable pub ◌>>=◌ : {A B : Type 0} → Option A → (A → Option B) → Option B
none >>= f = none
some a >>= f = f a

-- `String`
unfoldable pub as_string : Field → Option Text
as_string (given (string s)) = some s
as_string f = none

-- `Option<String>`
unfoldable pub as_option : Field → Option (Option Text)
as_option missing = some none
as_option (given null) = some none
as_option (given (string s)) = some (some s)
as_option f = none

-- `Vec<String>`
unfoldable pub as_strings : Field → Option (List Text)
as_strings (given (strings l)) = some l
as_strings f = none

-- `u64` and `i64`, with a default
unfoldable pub u64_or : ℕ → Field → Option ℕ
u64_or default missing = some default
u64_or default (given (integer (pos n))) = if ltb n (2 ^ 64) then some n else none
u64_or default f = none

unfoldable pub i64_or : ℤ → Field → Option ℤ
i64_or default missing = some default
i64_or default (given (integer (pos n))) = if ltb n (2 ^ 63) then some (pos n) else none
i64_or default (given (integer (negsuc n))) = if ltb n (2 ^ 63) then some (negsuc n) else none
i64_or default f = none

unfoldable pub register_request : Fields → Option RegisterRequest
register_request fs = do
  pubkey ← as_string (field (text "pubkey") fs)
  registration_token ← as_option (field (text "registration_token") fs)
  some (record { pubkey = pubkey; registration_token = registration_token })

unfoldable pub verify_request : Fields → Option VerifyRequest
verify_request fs = do
  user_id ← as_string (field (text "user_id") fs)
  device_id ← as_string (field (text "device_id") fs)
  signature ← as_string (field (text "signature") fs)
  some (record { user_id = user_id; device_id = device_id; signature = signature })

unfoldable pub initiate_request : Fields → Option InitiateRequest
initiate_request fs = do
  peer_id ← as_string (field (text "peer_id") fs)
  ephemeral_pubkey ← as_string (field (text "ephemeral_pubkey") fs)
  some (record { peer_id = peer_id; ephemeral_pubkey = ephemeral_pubkey })

-- `RespondRequest`, which has one field
unfoldable pub respond_request : Fields → Option Text
respond_request fs = as_string (field (text "ephemeral_pubkey") fs)

unfoldable pub create_request : Fields → Option CreateRequest
create_request fs = do
  peer_id ← as_string (field (text "peer_id") fs)
  publish_topics ← as_strings (field (text "publish_topics") fs)
  subscribe_topics ← as_strings (field (text "subscribe_topics") fs)
  some (record {
    peer_id = peer_id;
    publish_topics = publish_topics;
    subscribe_topics = subscribe_topics;
  })

abbrev pub default_expires_in : ℕ
default_expires_in = 3600

abbrev pub default_max_uses : ℤ
default_max_uses = pos 1

unfoldable pub create_token_request : Fields → Option CreateTokenRequest
create_token_request fs = do
  expires_in ← u64_or default_expires_in (field (text "expires_in") fs)
  max_uses ← i64_or default_max_uses (field (text "max_uses") fs)
  some (record { expires_in = expires_in; max_uses = max_uses })

-- `SuspendRequest`, which has one field
unfoldable pub suspend_request : Fields → Option (Option Text)
suspend_request fs = as_option (field (text "reason") fs)

abbrev query_again : Text → Option (Option Text) → Option (Option Text)
query_again v none = none
query_again v (some none) = some (some v)
query_again v (some (some u)) = none

-- The value of a parameter of the query, if it does not occur twice.
unfoldable pub query_field : Text → List (Text × Text) → Option (Option Text)
query_field name [] = some none
query_field name (q ∷ qs) =
    let rest = query_field name qs in if q.0 == name then query_again q.1 rest else rest

-- `ChallengeQuery`, which has one field
unfoldable pub challenge_query : List (Text × Text) → Option Text
challenge_query qs = do found ← query_field (text "user_id") qs; found
