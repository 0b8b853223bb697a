-- ===== src/Crypto.antt =====
-- crypto.rs: tokens and base64. `jsonwebtoken::decode` reads the clock by itself.
use smqtt.Prelude.{ℕ, inl, inr, ◌⊎◌, List, ◌++◌, Text, Bytes, text, add_u64}
use smqtt.Claims.{Claims}
use smqtt.Error.{Error, Result, ok, err, unauthorized, bad_request, internal}
use smqtt.Foreign.{Foreign}
use smqtt.State.{AppState}
use smqtt.Exec.{Action, lift, ok_or, ◌>>=◌, unix_now}

abbrev pub from_sum : {A B : Type 0} → (A → Error) → A ⊎ B → Result B
from_sum f (inl a) = err (f a)
from_sum f (inr b) = ok b

unfoldable pub b64_decode : Foreign → Text → Result Bytes
b64_decode ext s = from_sum (λ e. bad_request (text "invalid base64: " ++ e)) (ext.b64_decode s)

-- `JwtKeys::from_base64`
unfoldable pub keys_from_base64 : Foreign → Text → Result Bytes
keys_from_base64 ext s = from_sum internal (ext.b64_decode s)

unfoldable pub new_claims : Text → Text → ℕ → ℕ → List Text → List Text → Text → Claims
new_claims user_id device_id now ttl_seconds pub_topics sub_topics notify_topic = record {
  sub = user_id;
  dev = device_id;
  exp = add_u64 now ttl_seconds;
  iat = now;
  pub_topics = pub_topics;
  sub_topics = sub_topics;
  notify_topic = notify_topic;
}

-- `JwtKeys::issue`
unfoldable pub issue : AppState → Text → Text → ℕ → List Text → List Text → Text → Action Text
issue state user_id device_id ttl_seconds pub_topics sub_topics notify_topic = do
  now ← unix_now
  let claims = new_claims user_id device_id now ttl_seconds pub_topics sub_topics notify_topic
  lift (from_sum internal (state.ext.jwt_encode state.jwt_keys claims))

-- `JwtKeys::verify`
unfoldable pub verify : AppState → Text → Action Claims
verify state token = do
  now ← unix_now
  ok_or unauthorized (state.ext.jwt_decode state.jwt_keys now token)
