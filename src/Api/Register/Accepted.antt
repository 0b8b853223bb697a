-- ===== src/Api/Register/Accepted.antt =====
-- A registration that goes through: by a registration token, with a valid key.
use smqtt.Prelude.{
  pos, ◌+ℤ◌, ℕ, ◌+◌, ◌≡◌, refl, true, false, some, Text, Bytes, arith, inr, as_i64, any, text_eq,
  text_beq_refl,
}
use smqtt.Config.{policy_mode, RegistrationPolicy, push}
use smqtt.Table.{has_key, update}
use smqtt.Table.Laws.{has_key-append}
use smqtt.Error.{ok}
use smqtt.State.{AppState, World, next}
use smqtt.Exec.{◌>>=◌, unix_now, new_uuid, run_query}
use smqtt.Crypto.{b64_decode}
use smqtt.Db.Invariant.{IsKey}
use smqtt.Db.Users.{has_user, create_user, insert_user, new_user}
use smqtt.Db.Devices.{create_device, insert_device, new_device}
use smqtt.Db.Tokens.{is_usable}
use smqtt.Api.Register.Consume.{consume_lem}
use smqtt.Api.Register.{
  RegisterRequest, token_hash, apply_policy, check_mode, decode_key, enroll, register,
}

-- The server registers by token, and the request names one and a valid key.
pub record Presents (state : AppState) (req : RegisterRequest) (token : Text) : Type 0 where
  pub policy : RegistrationPolicy
  pub mode : state.config.registration.mode ≡ policy_mode
  pub configured : state.config.registration.policy ≡ some policy
  pub kind : policy.kind ≡ push
  pub given : req.registration_token ≡ some token
  pub key : Bytes
  pub decoded : state.ext.b64_decode req.pubkey ≡ inr key
  pub valid : IsKey state.ext key

-- The database answers, and the UUIDs that the new user and the new device get are not in use.
pub record IsReady (w : World) : Type 0 where
  pub up : (n : ℕ) → w.oracle.fails n ≡ false
  pub new_user_id : has_user (w.oracle.uuid (w.oracle.asked + 1 + 1)) w.db ≡ false
  pub new_device_id :
      has_key (λ d. d.device_id) (w.oracle.uuid (w.oracle.asked + 1 + 1 + 1 + 1 + 1)) w.db.devices
      ≡ false

enroll_complete :
    (key : Bytes) (w : World)
    → ((n : ℕ) → w.oracle.fails n ≡ false)
    → has_user (w.oracle.uuid w.oracle.asked) w.db ≡ false
    → has_key (λ d. d.device_id) (w.oracle.uuid (w.oracle.asked + 1 + 1 + 1)) w.db.devices ≡ false
    → (enroll key w).0
      ≡ ok (record {
        user_id = w.oracle.uuid w.oracle.asked;
        device_id = w.oracle.uuid (w.oracle.asked + 1 + 1 + 1);
      })
unfolding enroll create_user create_device insert_user insert_device new_user new_device ◌>>=◌
    new_uuid unix_now run_query
enroll_complete key w up user device = ground (
  arith,
  up (w.oracle.asked + 1 + 1),
  up (w.oracle.asked + 1 + 1 + 1 + 1 + 1),
  user,
  device,
  has_key-append (λ u. u.user_id) (w.oracle.uuid w.oracle.asked) w.db.users
      (new_user (w.oracle.uuid w.oracle.asked) (w.oracle.clock (w.oracle.asked + 1))),
  text_beq_refl (w.oracle.uuid w.oracle.asked),
)

module _ (state : AppState) (req : RegisterRequest) (token : Text) (w : World)
    (p : Presents state req token) (r : IsReady w)
    (usable : any
        (is_usable (token_hash state.ext token) (as_i64 (w.oracle.clock w.oracle.asked)))
        w.db.tokens
      ≡ true) where
  -- The token is consumed.
  abbrev checked : World
  checked = next (
      next (record w {
        db = record w.db {
          tokens =
              update
                (is_usable (token_hash state.ext token) (as_i64 (w.oracle.clock w.oracle.asked)))
                (λ t. record t { uses = t.uses +ℤ pos 1 }) w.db.tokens;
        };
      }))

  check_mode_passes : check_mode state req state.config.registration.mode w ≡ (ok tt, checked)
  unfolding check_mode apply_policy ◌>>=◌
  check_mode_passes =
      rw (p.mode, p.configured, p.kind, p.given)
        (rw (consume_lem (token_hash state.ext token) w (r.up _)) (rw usable refl))

  key_passes : (v : World) → decode_key state req v ≡ (ok p.key, v)
  unfolding decode_key ◌>>=◌ b64_decode
  key_passes v = ground (arith, p.decoded, p.valid)

  pub register_accepts :
      (register state req w).0
      ≡ ok (record {
        user_id = w.oracle.uuid (w.oracle.asked + 1 + 1);
        device_id = w.oracle.uuid (w.oracle.asked + 1 + 1 + 1 + 1 + 1);
      })
  unfolding register ◌>>=◌
  register_accepts =
      rw check_mode_passes
        (rw (key_passes checked) (enroll_complete p.key checked r.up r.new_user_id r.new_device_id))
