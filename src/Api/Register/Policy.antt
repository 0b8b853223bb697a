-- ===== src/Api/Register/Policy.antt =====
-- Who can register: the policies, and what a registration stores.
use smqtt.Prelude.{
  ℕ, ◌+◌, ◌≡◌, refl, ap, true, false, none, some, [], ◌∷◌, ◌++◌, Text, Bytes, ◌∙◌, arith, inl, inr,
  as_i64, any, Option-cases,
}
use smqtt.Config.{
  RegistrationMode, open_mode, closed_mode, policy_mode, PolicyKind, push, hook, RegistrationPolicy,
}
use smqtt.Rows.{Database}
use smqtt.Error.{ok}
use smqtt.State.{AppState, World, HookReply, not_sent, not_json, answered, next}
use smqtt.Exec.{◌>>=◌, unix_now, new_uuid, run_query, ask_hook}
use smqtt.Exec.Bind.{bind_ok, bind-ok}
use smqtt.Crypto.{b64_decode}
use smqtt.Db.Invariant.{IsKey}
use smqtt.Db.Users.{create_user, insert_user, new_user}
use smqtt.Db.Devices.{create_device, insert_device, new_device}
use smqtt.Db.Tokens.{consume_registration_token, use_token, is_usable}
use smqtt.Api.Register.Consume.{consume_usable}
use smqtt.Api.Register.{
  RegisterRequest, RegisterResponse, token_hash, read_reply, validate_via_hook, apply_policy,
  check_mode, decode_key, enroll, register,
}

-- The ways to be let in: an open server; a registration token that is known, unexpired and not used
-- up; a hook that answers `allowed: true`.
pub data Passes (state : AppState) (req : RegisterRequest) (w : World) : Type 0 where
  anyone : state.config.registration.mode ≡ open_mode → Passes state req w
  by_token :
      (policy : RegistrationPolicy) (token : Text)
      → state.config.registration.mode ≡ policy_mode
      → state.config.registration.policy ≡ some policy
      → policy.kind ≡ push
      → req.registration_token ≡ some token
      → any
          (is_usable (token_hash state.ext token) (as_i64 (w.oracle.clock w.oracle.asked)))
          w.db.tokens
        ≡ true
      → Passes state req w
  by_hook :
      (policy : RegistrationPolicy) (url : Text)
      → state.config.registration.mode ≡ policy_mode
      → state.config.registration.policy ≡ some policy
      → policy.kind ≡ hook
      → policy.hook_url ≡ some url
      → w.oracle.reply w.oracle.asked url req.pubkey ≡ answered (some true)
      → Passes state req w

read_reply_allowed :
    (r : HookReply) (w : World) → (read_reply r w).0 ≡ ok tt → r ≡ answered (some true)
unfolding read_reply ◌>>=◌
read_reply_allowed (not_sent e) w h = absurd (cc)
read_reply_allowed (not_json e) w h = absurd (cc)
read_reply_allowed (answered none) w h = absurd (cc)
read_reply_allowed (answered (some true)) w h = refl
read_reply_allowed (answered (some false)) w h = absurd (cc)

module _ (state : AppState) (req : RegisterRequest) (w : World) where
  apply_policy_sound :
      (policy : RegistrationPolicy) (kind : PolicyKind)
      → state.config.registration.mode ≡ policy_mode
      → state.config.registration.policy ≡ some policy
      → policy.kind ≡ kind
      → (apply_policy state req kind policy.hook_url w).0 ≡ ok tt
      → Passes state req w
  unfolding apply_policy ◌>>=◌ validate_via_hook ask_hook
  apply_policy_sound policy push m p k h = elim (Option-cases req.registration_token) [
    | inl missing ↦ absurd (ground arith)
    | inr (token, given) ↦
        by_token policy token m p k given
          (consume_usable (token_hash state.ext token) w (ground arith))
  ]
  apply_policy_sound policy hook m p k h = elim (Option-cases policy.hook_url) [
    | inl missing ↦ absurd (ground arith)
    | inr (url, given) ↦
        by_hook policy url m p k given (
          read_reply_allowed (w.oracle.reply w.oracle.asked url req.pubkey) (next w) (ground arith))
  ]

  check_mode_sound :
      (mode : RegistrationMode)
      → state.config.registration.mode ≡ mode
      → (check_mode state req mode w).0 ≡ ok tt
      → Passes state req w
  unfolding check_mode ◌>>=◌
  check_mode_sound open_mode m h = anyone m
  check_mode_sound closed_mode m h = absurd (cc)
  check_mode_sound policy_mode m h = elim (Option-cases state.config.registration.policy) [
    | inl missing ↦ absurd (ground arith)
    | inr (policy, given) ↦ apply_policy_sound policy policy.kind m given refl (ground arith)
  ]

  decode_key_sound :
      (key : Bytes)
      → (decode_key state req w).0 ≡ ok key
      → (state.ext.b64_decode req.pubkey ≡ inr key)
        × IsKey state.ext key
        × ((decode_key state req w).1 ≡ w)
  unfolding decode_key ◌>>=◌ b64_decode
  decode_key_sound key h = (ground arith, (ground arith, ground arith), ground arith)

-- The rows that a registration adds.
abbrev pub enrolled : RegisterResponse → Bytes → ℕ → ℕ → Database → Database
enrolled r key user_time device_time db = record db {
  users = db.users ++ new_user r.user_id user_time ∷ [];
  devices = db.devices ++ new_device r.device_id r.user_id key device_time ∷ [];
}

enroll_sound :
    (key : Bytes) (w : World) (r : RegisterResponse)
    → (enroll key w).0 ≡ ok r
    → (s : ℕ) × (t : ℕ) × ((enroll key w).1.db ≡ enrolled r key s t w.db)
unfolding enroll create_user create_device new_user new_device insert_user insert_device ◌>>=◌
    new_uuid unix_now run_query
enroll_sound key w r h = (
  w.oracle.clock (w.oracle.asked + 1),
  w.oracle.clock (w.oracle.asked + 1 + 1 + 1 + 1),
  ground arith,
)

check_mode-users :
    (state : AppState) (req : RegisterRequest) (mode : RegistrationMode) (w : World)
    → ((check_mode state req mode w).1.db.users ≡ w.db.users)
      × ((check_mode state req mode w).1.db.devices ≡ w.db.devices)
unfolding check_mode apply_policy validate_via_hook read_reply ask_hook consume_registration_token
    use_token ◌>>=◌ unix_now run_query
check_mode-users state req open_mode w = (refl, refl)
check_mode-users state req closed_mode w = (refl, refl)
check_mode-users state req policy_mode w = ground arith

module _ (state : AppState) (req : RegisterRequest) (w : World) (r : RegisterResponse) where
  -- A successful registration has passed the configured policy and named a valid Ed25519 key of 32
  -- bytes; it adds exactly one user, who is not suspended, and one device of that user with that
  -- key, under the ids of the response.
  pub register_sound :
      (register state req w).0 ≡ ok r
      → Passes state req w
        × ((key : Bytes) × (state.ext.b64_decode req.pubkey ≡ inr key)
            × IsKey state.ext key
            × ((s : ℕ) × (t : ℕ) × ((register state req w).1.db.users
                  ≡ w.db.users ++ new_user r.user_id s ∷ [])
                × ((register state req w).1.db.devices
                    ≡ w.db.devices ++ new_device r.device_id r.user_id key t ∷ [])))
  unfolding register
  register_sound h =
      let mode = state.config.registration.mode in
      let (u, p, h₁) = bind_ok (check_mode state req mode) _ w r h in
      let w' = (check_mode state req mode w).1 in
      let (key, q, h₂) = bind_ok (decode_key state req) enroll w' r h₁ in
      let (decoded, valid, same) = decode_key_sound state req w' key q in
      let (s, t, stored) = enroll_sound key (decode_key state req w').1 r h₂ in
      let (users, devices) = check_mode-users state req mode w in
      let run =
        bind-ok (check_mode state req mode) _ w u p
        ∙ bind-ok (decode_key state req) enroll w' key q in
      let new_u = new_user r.user_id s ∷ [] in
      let new_d = new_device r.device_id r.user_id key t ∷ [] in
      (
        check_mode_sound state req w mode refl p,
        (
          key,
          decoded,
          valid,
          (
            s,
            t,
            ap (λ x. x.1.db.users) run
                ∙ ap (λ db. db.users) stored
                ∙ ap (λ v. v.db.users ++ new_u) same
                ∙ ap (λ us. us ++ new_u) users,
            ap (λ x. x.1.db.devices) run
                ∙ ap (λ db. db.devices) stored
                ∙ ap (λ v. v.db.devices ++ new_d) same
                ∙ ap (λ ds. ds ++ new_d) devices,
          ),
        ),
      )
