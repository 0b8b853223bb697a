-- ===== src/Foreign.antt =====
-- The third-party code that smqtt calls, as a parameter: base64 (URL-safe, no padding), hmac with
-- sha2, ed25519-dalek, jsonwebtoken, serde_json and the header values of http. `ForeignLaws` holds
-- what their documentation promises and the theorems use.
use smqtt.Prelude.{ℕ, ◌+◌, ◌≤◌, ◌≡◌, ◌⊎◌, inr, Bool, Option, some, List, Text, Bytes}
use smqtt.Claims.{Claims}

pub record Foreign : Type 0 where
  pub b64_encode : Bytes → Text
  -- an error message, or the bytes
  pub b64_decode : Text → Text ⊎ Bytes
  -- key, message
  pub hmac_sha256 : Bytes → Bytes → Bytes
  -- does `VerifyingKey::from_bytes` accept these 32 bytes?
  pub is_ed25519_key : Bytes → Bool
  -- key, message, signature
  pub ed25519_verify : Bytes → Bytes → Bytes → Bool
  -- secret, claims; an error message, or the token
  pub jwt_encode : Bytes → Claims → Text ⊎ Text
  -- secret, the time at which the token is read, token
  pub jwt_decode : Bytes → ℕ → Text → Option Claims
  -- `serde_json::to_string` and `from_str` at `Vec<String>`
  pub strings_to_json : List Text → Text
  pub strings_from_json : Text → Option (List Text)
  -- `json!({ … }).to_string()` of string fields
  pub json_object : List (Text × Text) → Text
  -- `HeaderValue::to_str`
  pub header_to_str : Bytes → Option Text

-- jsonwebtoken accepts a token for this long after its `exp`.
abbrev pub leeway : ℕ
leeway = 60

pub record ForeignLaws (ext : Foreign) : Type 0 where
  pub b64_round : (b : Bytes) → ext.b64_decode (ext.b64_encode b) ≡ inr b
  pub json_round : (l : List Text) → ext.strings_from_json (ext.strings_to_json l) ≡ some l
  pub jwt_round :
      (key : Bytes) (now : ℕ) (c : Claims) (t : Text)
      → ext.jwt_encode key c ≡ inr t
      → now ≤ c.exp + leeway
      → ext.jwt_decode key now t ≡ some c
  pub jwt_fresh :
      (key : Bytes) (now : ℕ) (c : Claims) (t : Text)
      → ext.jwt_decode key now t ≡ some c
      → now ≤ c.exp + leeway
