-- ===== src/Api/Admin/Tokens.antt =====
-- The registration tokens that the administrator issues, and how they are consumed.
use smqtt.Prelude.{
  ℕ, ◌+◌, ◌^◌, ◌≤◌, ◌<◌, ◌≡◌, ap, true, false, [], ◌∷◌, ◌++◌, Text, ◌∙◌, arith, as_i64, any,
  any-append, pos, ◌<ℤ◌, text_eq, text_beq_refl,
}
use smqtt.Rows.{RegistrationToken}
use smqtt.Error.{ok, err, forbidden}
use smqtt.State.{AppState, World}
use smqtt.Exec.{◌>>=◌, unix_now, new_uuid, fill_bytes, run_query}
use smqtt.Db.Tokens as DbTokens
use smqtt.Db.Tokens.{consume_registration_token, is_usable, insert_token, new_token}
use smqtt.Api.Extractors.{Headers}
use smqtt.Api.Register as Register
use smqtt.Api.Register.{RegisterRequest, register}
use smqtt.Api.Register.Accepted.{Presents, IsReady, register_accepts}
use smqtt.Api.Register.Consume.{consume_lem}
use smqtt.Api.Admin.{CreateTokenRequest, create_registration_token, require_admin_key, token_hash}

module _ (state : AppState) (headers : Headers) (req : CreateTokenRequest) (w : World)
    (token : Text) where
  -- The row that is stored for the token.
  abbrev pub issued : RegistrationToken
  issued =
      new_token (w.oracle.uuid (w.oracle.asked + 1)) (token_hash state.ext token) req.expires_in
        req.max_uses (w.oracle.clock (w.oracle.asked + 1 + 1))
        (w.oracle.clock (w.oracle.asked + 1 + 1 + 1))

  issued_row :
      (create_registration_token state headers req w).0 ≡ ok token
      → (create_registration_token state headers req w).1.db.tokens ≡ w.db.tokens ++ issued ∷ []
  unfolding create_registration_token require_admin_key DbTokens.create_registration_token
      insert_token ◌>>=◌ unix_now new_uuid fill_bytes run_query new_token
  issued_row h = ground arith

  -- The time at which the token's life begins.
  abbrev pub issued_at : ℕ
  issued_at = w.oracle.clock (w.oracle.asked + 1 + 1 + 1)

  issued_usable :
      (t : ℕ)
      → issued_at + req.expires_in < 2 ^ 63
      → t < issued_at + req.expires_in
      → pos 0 <ℤ req.max_uses
      → is_usable (token_hash state.ext token) (as_i64 t) issued ≡ true
  unfolding new_token
  issued_usable t small early uses = ground (arith, text_beq_refl (token_hash state.ext token))

  issued_dead :
      (t : ℕ)
      → 2 ^ 63 ≤ issued_at + req.expires_in
      → issued_at + req.expires_in < 2 ^ 64
      → t < 2 ^ 63
      → is_usable (token_hash state.ext token) (as_i64 t) issued ≡ false
  unfolding new_token
  issued_dead t big small now = ground arith

-- A token that the administrator was given lets a registration through before its expiry, if it may be
-- used at all, the table is as the request left it and the expiry fits in an `i64`: `register` succeeds
-- where the server registers by token, the request names this token and a valid key, the database
-- answers, and the UUIDs of the new user and the new device are not in use.
pub issued_token_registers :
    (state : AppState) (headers : Headers) (req : CreateTokenRequest) (w v : World) (token : Text)
    (newcomer : RegisterRequest)
    → (create_registration_token state headers req w).0 ≡ ok token
    → v.db.tokens ≡ (create_registration_token state headers req w).1.db.tokens
    → let expires_at = issued_at state headers req w token + req.expires_in in
      expires_at < 2 ^ 63
      → v.oracle.clock v.oracle.asked < expires_at
      → pos 0 <ℤ req.max_uses
      → Presents state newcomer token
      → IsReady v
      → (register state newcomer v).0
        ≡ ok (record {
          user_id = v.oracle.uuid (v.oracle.asked + 1 + 1);
          device_id = v.oracle.uuid (v.oracle.asked + 1 + 1 + 1 + 1 + 1);
        })
unfolding token_hash Register.token_hash
issued_token_registers state headers req w v token newcomer created kept small early uses p r =
    let hash = token_hash state.ext token in
    let now = as_i64 (v.oracle.clock v.oracle.asked) in
    register_accepts state newcomer token v p r (
      ground (
        arith,
        ap (any (is_usable hash now)) (kept ∙ issued_row state headers req w token created),
        any-append (is_usable hash now) w.db.tokens (issued state headers req w token ∷ []),
        issued_usable state headers req w token (v.oracle.clock v.oracle.asked) small early uses,
      ))

module _ (state : AppState) (headers : Headers) (req : CreateTokenRequest) (w v : World)
    (token : Text) (created : (create_registration_token state headers req w).0 ≡ ok token)
    (kept : v.db.tokens ≡ (create_registration_token state headers req w).1.db.tokens)
    (up : v.oracle.fails (v.oracle.asked + 1) ≡ false) where
  -- A token that was requested with a lifetime that ends at 2^63 or later, but before 2^64, is
  -- refused at every time before 2^63, since its expiry wraps to a negative number; if the table is
  -- as the request left it, none of the older tokens of the table has this hash and is usable, and
  -- the statement is carried out.
  pub huge_lifetime_refused :
      let expires_at = issued_at state headers req w token + req.expires_in in
      let hash = token_hash state.ext token in
      2 ^ 63 ≤ expires_at
      → expires_at < 2 ^ 64
      → v.oracle.clock v.oracle.asked < 2 ^ 63
      → any (is_usable hash (as_i64 (v.oracle.clock v.oracle.asked))) w.db.tokens ≡ false
      → (consume_registration_token hash v).0 ≡ err forbidden
  huge_lifetime_refused big small now others =
      let hash = token_hash state.ext token in
      let time = as_i64 (v.oracle.clock v.oracle.asked) in
      ground (
        arith,
        consume_lem hash v up,
        ap (any (is_usable hash time)) (kept ∙ issued_row state headers req w token created),
        any-append (is_usable hash time) w.db.tokens (issued state headers req w token ∷ []),
        issued_dead state headers req w token (v.oracle.clock v.oracle.asked) big small now,
        others,
      )
