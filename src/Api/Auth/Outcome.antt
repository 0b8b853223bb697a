-- ===== src/Api/Auth/Outcome.antt =====
-- The outcome of `verify` (api/auth.rs).
use smqtt.Prelude.{
  ℕ, ◌+◌, ◌≤◌, ◌≡◌, true, false, some, Text, Bytes, text_eq, arith, ◌++◌, [], ◌∷◌, inl, inr, length,
  if◌then◌else◌, Option-cases, Sum-cases,
}
use smqtt.Map.{get, remove}
use smqtt.Rows.{User, Device, Database}
use smqtt.Error.{ok, err, database, unavailable, internal}
use smqtt.State.{AppState, World, next, notify_topic}
use smqtt.Exec.{◌>>=◌, unix_now, fetch}
use smqtt.Db.Users.{get_user, find_user}
use smqtt.Db.Devices.{get_device_by_user, devices_of}
use smqtt.Claims.{Claims}
use smqtt.Crypto.{b64_decode, issue, new_claims, from_sum}
use smqtt.Db.Relationships.{relationships_of, extend_topics, user_topics, list_relationships}
use smqtt.Api.Auth.{
  find_device, VerifyRequest, pop_challenge, open_session, check_signature, issue_token,
}

-- A fresh challenge for a user who is not suspended.
pub record Opens (user_id : Text) (w : World) (nonce : Bytes) : Type 0 where
  pub expires_at : ℕ
  pub challenged : get user_id w.challenges ≡ some (nonce, expires_at)
  pub fresh : w.oracle.clock w.oracle.asked ≤ expires_at
  pub user : User
  pub exists : find_user user_id w.db ≡ some user
  pub active : user.suspended ≡ false

module _ (user_id : Text) (w : World) (nonce : Bytes) where
  pub open_session_sound : (open_session user_id w).0 ≡ ok nonce → Opens user_id w nonce
  unfolding open_session pop_challenge ◌>>=◌ unix_now get_user fetch
  open_session_sound h = elim (Option-cases (get user_id w.challenges)) [
    | inl missing ↦ absurd (ground arith)
    | inr (c, challenged) ↦ elim (Option-cases (find_user user_id w.db)) [
      | inl unknown ↦ absurd (ground arith)
      | inr (u, exists) ↦ record {
        expires_at = c.1;
        challenged = ground arith;
        fresh = ground arith;
        user = u;
        exists = exists;
        active = ground arith;
      }
    ]
  ]

  -- And then it returns the nonce, in a world without the challenge.
  pub open_session_complete :
      (o : Opens user_id w nonce)
      → w.oracle.fails (w.oracle.asked + 1) ≡ false
      → open_session user_id w
        ≡ (ok nonce, next (next (record w { challenges = remove user_id w.challenges })))
  unfolding open_session pop_challenge ◌>>=◌ unix_now get_user fetch
  open_session_complete o up = rw o.challenged (ground arith)

-- The nonce was signed by the key of the user's device that the request names.
pub record Signs (state : AppState) (req : VerifyRequest) (nonce : Bytes) (db : Database)
    : Type 0 where
  pub device : Device
  pub listed : find_device req.device_id (devices_of req.user_id db) ≡ some device
  pub sized_key : length device.pubkey ≡ 32
  pub valid_key : state.ext.is_ed25519_key device.pubkey ≡ true
  pub signature : Bytes
  pub decoded : state.ext.b64_decode req.signature ≡ inr signature
  pub sized_signature : length signature ≡ 64
  pub verified : state.ext.ed25519_verify device.pubkey nonce signature ≡ true

module _ (state : AppState) (req : VerifyRequest) (nonce : Bytes) (w : World) where
  pub check_signature_sound :
      (check_signature state req nonce w).0 ≡ ok tt → Signs state req nonce w.db
  unfolding check_signature ◌>>=◌ get_device_by_user fetch b64_decode
  check_signature_sound h =
      elim (Option-cases (find_device req.device_id (devices_of req.user_id w.db))) [
        | inl missing ↦ absurd (ground arith)
        | inr (d, listed) ↦ elim (Sum-cases (state.ext.b64_decode req.signature)) [
          | inl (e, bad) ↦ absurd (ground arith)
          | inr (sig, decoded) ↦ record {
            device = d;
            listed = listed;
            sized_key = ground arith;
            valid_key = ground arith;
            signature = sig;
            decoded = decoded;
            sized_signature = ground arith;
            verified = ground arith;
          }
        ]
      ]

  pub check_signature_complete :
      (s : Signs state req nonce w.db)
      → w.oracle.fails w.oracle.asked ≡ false
      → check_signature state req nonce w ≡ (ok tt, next w)
  unfolding check_signature ◌>>=◌ get_device_by_user fetch b64_decode
  check_signature_complete s up = ground arith

-- The claims of a token for `req` that is issued at time `now` over the database `db`.
abbrev pub token_claims : AppState → VerifyRequest → Database → ℕ → Claims
token_claims state req db now =
    let (pub_topics, sub_topics) =
      extend_topics state.ext (relationships_of req.user_id db) [] [] in
    let notify = notify_topic state req.user_id in
    new_claims req.user_id req.device_id now state.config.jwt.ttl_seconds pub_topics
      (sub_topics ++ notify ∷ []) notify

module _ (state : AppState) (req : VerifyRequest) (w : World) where
  pub issue_token_lem : issue_token state req w ≡ (
      if w.oracle.fails w.oracle.asked then (err (database unavailable), next w) else (
        from_sum internal (
            state.ext.jwt_encode state.jwt_keys
              (token_claims state req w.db (w.oracle.clock (w.oracle.asked + 1)))),
        next (next w),
      ))
  unfolding issue_token issue user_topics list_relationships ◌>>=◌ fetch unix_now
  issue_token_lem = ground arith
