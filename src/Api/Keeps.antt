-- ===== src/Api/Keeps.antt =====
-- The requests of src/api, and the properties that the SQL statements keep.
use smqtt.Prelude.{
  ℕ, ◌≡◌, true, false, nat_eq, Bool, Option, some, none, Text, Bytes, length, arith,
}
use smqtt.Error.{ok}
use smqtt.State.{World, AppState, HookReply, not_sent, not_json, answered}
use smqtt.Map.{insert, remove}
use smqtt.Rows.{Database}
use smqtt.Config.{RegistrationMode, open_mode, closed_mode, policy_mode, PolicyKind, push, hook}
use smqtt.Exec.{modify, ◌>>=◌}
use smqtt.Exec.Keeps.{Keeps, Keeps-modify, Keeps-bind, Keeps-bind_post, keeps_rules}
use smqtt.Db.Invariant.{IsKey}
use smqtt.Db.Stable.{Stable}
use smqtt.Db.Keeps.{get_user-Keeps, get_exchange-Keeps}
use smqtt.Crypto
use smqtt.Broker.Keeps.{queries, publish_system-Keeps, kick_user-Keeps, crypto_verify-Keeps}
use smqtt.Api.Extractors.{Headers, auth_user}
use smqtt.Api.Register
use smqtt.Api.Auth
use smqtt.Api.Exchange
use smqtt.Api.Relationships
use smqtt.Api.Admin
use smqtt.Api.Router.{Call, dispatch}

module _ (state : AppState) {Allowed : Bool → Text → Type 0} {P : Database → Type 0}
    (st : Stable state.ext Allowed P) where
  pub auth_user-Keeps : (headers : Headers) → Keeps P (auth_user state headers)
  unfolding auth_user
  auth_user-Keeps headers = search (keeps_rules, crypto_verify-Keeps) depth 9

module _ (state : AppState) {Allowed : Bool → Text → Type 0} {P : Database → Type 0}
    (st : Stable state.ext Allowed P) where
  pub check_mode-Keeps :
      (req : Register.RegisterRequest) (mode : RegistrationMode)
      → Keeps P (Register.check_mode state req mode)
  unfolding Register.check_mode Register.validate_via_hook
  check_mode-Keeps req open_mode = search keeps_rules
  check_mode-Keeps req closed_mode = search keeps_rules
  check_mode-Keeps req policy_mode =
      Keeps-bind _ _ (search keeps_rules) λ policy. by_kind policy.kind policy.hook_url
    where
      on_reply : (r : HookReply) → Keeps P (Register.read_reply r)
      on_reply (not_sent e) = search keeps_rules
      on_reply (not_json e) = search keeps_rules
      on_reply (answered none) = search keeps_rules
      on_reply (answered (some b)) = search keeps_rules

      by_kind :
          (kind : PolicyKind) (url : Option Text)
          → Keeps P (Register.apply_policy state req kind url)
      by_kind push url = search queries
      by_kind hook url = search (queries, on_reply)

  pub decode_key-IsKey :
      (req : Register.RegisterRequest) (w : World) (key : Bytes)
      → (Register.decode_key state req w).0 ≡ ok key
      → IsKey state.ext key
  unfolding Register.decode_key ◌>>=◌
  decode_key-IsKey req w key h = (ground arith, ground arith)

  pub decode_key-Keeps : (req : Register.RegisterRequest) → Keeps P (Register.decode_key state req)
  unfolding Register.decode_key
  decode_key-Keeps req = search keeps_rules depth 9

  enroll-Keeps : (key : Bytes) → IsKey state.ext key → Keeps P (Register.enroll key)
  unfolding Register.enroll
  enroll-Keeps key valid = search queries depth 9

  register-Keeps : (req : Register.RegisterRequest) → Keeps P (Register.register state req)
  unfolding Register.register
  register-Keeps req = Keeps-bind _ _ (check_mode-Keeps req state.config.registration.mode) λ u.
      Keeps-bind_post (IsKey state.ext) _ _ (decode_key-Keeps req) (decode_key-IsKey req)
        enroll-Keeps

  pub set_challenge-Keeps :
      (user_id : Text) (nonce : Bytes) (expires_at : ℕ)
      → Keeps P
          (modify λ w. record w { challenges = insert user_id (nonce, expires_at) w.challenges })
  set_challenge-Keeps user_id nonce expires_at = Keeps-modify _ (λ w h. h)

  challenge-Keeps : (user_id : Text) → Keeps P (Auth.challenge state user_id)
  unfolding Auth.challenge
  challenge-Keeps user_id =
      Keeps-bind _ _ (get_user-Keeps st user_id)
        λ u. search (keeps_rules, set_challenge-Keeps) depth 9

  drop_challenge-Keeps :
      (user_id : Text) → Keeps P (modify λ w. record w { challenges = remove user_id w.challenges })
  drop_challenge-Keeps user_id = Keeps-modify _ (λ w h. h)

  pub pop_challenge-Keeps : (user_id : Text) → Keeps P (Auth.pop_challenge user_id)
  unfolding Auth.pop_challenge
  pop_challenge-Keeps user_id = search (queries, drop_challenge-Keeps)

  open_session-Keeps : (user_id : Text) → Keeps P (Auth.open_session user_id)
  unfolding Auth.open_session
  open_session-Keeps user_id = search (queries, pop_challenge-Keeps) depth 12

  pub check_signature-Keeps :
      (req : Auth.VerifyRequest) (nonce : Bytes) → Keeps P (Auth.check_signature state req nonce)
  unfolding Auth.check_signature
  check_signature-Keeps req nonce = search queries depth 15

  issue_token-Keeps : (req : Auth.VerifyRequest) → Keeps P (Auth.issue_token state req)
  unfolding Auth.issue_token Crypto.issue
  issue_token-Keeps req = search queries depth 9

  verify-Keeps : (req : Auth.VerifyRequest) → Keeps P (Auth.verify state req)
  unfolding Auth.verify
  verify-Keeps req =
      Keeps-bind _ _ (open_session-Keeps req.user_id)
        λ nonce. Keeps-bind _ _ (check_signature-Keeps req nonce) λ u. issue_token-Keeps req

  pub decode_ephemeral-Keeps : (s : Text) → Keeps P (Exchange.decode_ephemeral state.ext s)
  unfolding Exchange.decode_ephemeral
  decode_ephemeral-Keeps s = search keeps_rules depth 9

  pub decode_ephemeral_short :
      (s : Text) (w : World) (key : Bytes)
      → (Exchange.decode_ephemeral state.ext s w).0 ≡ ok key
      → length key ≡ 32
  unfolding Exchange.decode_ephemeral ◌>>=◌
  decode_ephemeral_short s w key h = ground arith

  initiate-Keeps :
      (user_id : Text) (req : Exchange.InitiateRequest)
      → Keeps P (Exchange.initiate state user_id req)
  unfolding Exchange.initiate
  initiate-Keeps user_id req = Keeps-bind _ _ (get_user-Keeps st req.peer_id) λ u.
      Keeps-bind_post (λ key. length key ≡ 32) _ _ (decode_ephemeral-Keeps req.ephemeral_pubkey)
        (decode_ephemeral_short req.ephemeral_pubkey)
        λ key short. search (queries, publish_system-Keeps state)

  pub discard-Keeps : (b : Bool) (exchange_id : Text) → Keeps P (Exchange.discard b exchange_id)
  unfolding Exchange.discard
  discard-Keeps true exchange_id = search queries
  discard-Keeps false exchange_id = search queries

  get-Keeps : (user_id exchange_id : Text) → Keeps P (Exchange.get state user_id exchange_id)
  unfolding Exchange.get
  get-Keeps user_id exchange_id = search (queries, discard-Keeps) depth 9

  respond-Keeps :
      (user_id exchange_id key : Text) → Keeps P (Exchange.respond state user_id exchange_id key)
  unfolding Exchange.respond
  respond-Keeps user_id exchange_id s = Keeps-bind _ _ (get_exchange-Keeps st exchange_id) λ ex.
      Keeps-bind _ _ (search queries) λ u.
        Keeps-bind_post (λ key. length key ≡ 32) _ _ (decode_ephemeral-Keeps s)
          (decode_ephemeral_short s) λ key short. search (queries, publish_system-Keeps state)

  pub create-Keeps :
      (user_id : Text) (req : Relationships.CreateRequest)
      → Keeps P (Relationships.create state user_id req)
  unfolding Relationships.create
  create-Keeps user_id req = search queries

  pub list-Keeps : (user_id : Text) → Keeps P (Relationships.list state user_id)
  unfolding Relationships.list
  list-Keeps user_id = search queries

  revoke-Keeps :
      (user_id relationship_id : Text)
      → Keeps P (Relationships.revoke state user_id relationship_id)
  unfolding Relationships.revoke
  revoke-Keeps user_id relationship_id = search (queries, kick_user-Keeps state) depth 12

  create_token-Keeps :
      (headers : Headers) (req : Admin.CreateTokenRequest)
      → Keeps P (Admin.create_registration_token state headers req)
  unfolding Admin.create_registration_token Admin.require_admin_key
  create_token-Keeps headers req = search queries depth 9

  suspend_user-Keeps :
      (headers : Headers) (user_id : Text) (reason : Option Text)
      → Allowed true user_id
      → Keeps P (Admin.suspend_user state headers user_id reason)
  unfolding Admin.suspend_user Admin.require_admin_key
  suspend_user-Keeps headers user_id reason allowed =
      search (queries, kick_user-Keeps state) depth 12

  unsuspend_user-Keeps :
      (headers : Headers) (user_id : Text)
      → Allowed false user_id
      → Keeps P (Admin.unsuspend_user state headers user_id)
  unfolding Admin.unsuspend_user Admin.require_admin_key
  unsuspend_user-Keeps headers user_id allowed = search queries depth 9

ruleset handlers = (
  keeps_rules, register-Keeps, challenge-Keeps, verify-Keeps, auth_user-Keeps, initiate-Keeps,
  get-Keeps, respond-Keeps, create-Keeps, list-Keeps, revoke-Keeps, create_token-Keeps,
  suspend_user-Keeps, unsuspend_user-Keeps,
)

-- The suspensions that a call may set.
abbrev pub Permits : (Bool → Text → Type 0) → Call → Type 0
Permits Allowed (Call.suspend_user user_id reason) = Allowed true user_id
Permits Allowed (Call.unsuspend_user user_id) = Allowed false user_id
Permits Allowed call = Unit

module _ (state : AppState) {Allowed : Bool → Text → Type 0} {P : Database → Type 0}
    (st : Stable state.ext Allowed P) where
  pub dispatch-Keeps :
      (headers : Headers) (call : Call)
      → Permits Allowed call
      → Keeps P (dispatch state headers call)
  unfolding dispatch
  dispatch-Keeps headers (Call.register req) h = search handlers
  dispatch-Keeps headers _ h = search handlers
