-- ===== src/Api/Router/Guards.antt =====
-- What stands before the handlers: the admin key, and the caller's token.
use smqtt.Prelude.{◌≡◌, ap, Bool, true, false, Text, text, ◌==◌, text_eq, arith}
use smqtt.Error.{Error, err, unauthorized}
use smqtt.Rows.{Database}
use smqtt.State.{AppState, World}
use smqtt.Exec.{Action, ◌>>=◌, unix_now}
use smqtt.Exec.Bind.{bind-err}
use smqtt.Crypto.{verify}
use smqtt.Api.Extractors.{Headers, header_or_empty, auth_user}
use smqtt.Api.Admin.{require_admin_key, create_registration_token, suspend_user, unsuspend_user}
use smqtt.Api.Router.{Call, dispatch}

abbrev pub is_admin : Call → Bool
is_admin (Call.create_registration_token req) = true
is_admin (Call.suspend_user user_id reason) = true
is_admin (Call.unsuspend_user user_id) = true
is_admin call = false

-- The calls whose caller is taken from a token.
abbrev pub is_personal : Call → Bool
is_personal (Call.initiate req) = true
is_personal (Call.get_exchange exchange_id) = true
is_personal (Call.respond exchange_id key) = true
is_personal (Call.create req) = true
is_personal Call.list = true
is_personal (Call.revoke relationship_id) = true
is_personal call = false

module _ (state : AppState) (headers : Headers) (w : World) where
  -- Without the admin key every administrative call is refused, and nothing has changed.
  pub admin_refused :
      (call : Call)
      → is_admin call ≡ true
      → (header_or_empty state.ext headers (text "x-admin-key") == state.config.admin.api_key)
        ≡ false
      → dispatch state headers call w ≡ (err unauthorized, w)
  unfolding dispatch create_registration_token suspend_user unsuspend_user require_admin_key ◌>>=◌
  admin_refused (Call.create_registration_token req) a wrong = rw wrong
  admin_refused (Call.suspend_user user_id reason) a wrong = rw wrong
  admin_refused (Call.unsuspend_user user_id) a wrong = rw wrong
  admin_refused (Call.register req) a wrong = absurd (cc)
  admin_refused _ a wrong = absurd (cc)

  pub auth_user_refuses :
      (e : Error)
      → (auth_user state headers w).0 ≡ err e
      → (e ≡ unauthorized)
        × ((auth_user state headers w).1.db ≡ w.db)
        × ((auth_user state headers w).1.broker ≡ w.broker)
  unfolding auth_user ◌>>=◌ verify unix_now
  auth_user_refuses e h = ground arith

  refused :
      {B : Type 0} (f : Text → Action B) (e : Error)
      → (auth_user state headers w).0 ≡ err e
      → (((auth_user state headers >>= f) w).0 ≡ err unauthorized)
        × (((auth_user state headers >>= f) w).1.db ≡ w.db)
        × (((auth_user state headers >>= f) w).1.broker ≡ w.broker)
  refused f e h =
      let (same, db, broker) = auth_user_refuses e h in
      rw (bind-err (auth_user state headers) f w e h) (ap err same, db, broker)

  -- Without a bearer token that is valid now every personal call is refused as unauthorized, nothing in
  -- the database has changed, and the broker was not called.
  pub caller_refused :
      (call : Call) (e : Error)
      → is_personal call ≡ true
      → (auth_user state headers w).0 ≡ err e
      → ((dispatch state headers call w).0 ≡ err unauthorized)
        × ((dispatch state headers call w).1.db ≡ w.db)
        × ((dispatch state headers call w).1.broker ≡ w.broker)
  unfolding dispatch
  caller_refused (Call.initiate req) e p h = refused _ e h
  caller_refused (Call.get_exchange exchange_id) e p h = refused _ e h
  caller_refused (Call.respond exchange_id key) e p h = refused _ e h
  caller_refused (Call.create req) e p h = refused _ e h
  caller_refused Call.list e p h = refused _ e h
  caller_refused (Call.revoke relationship_id) e p h = refused _ e h
  caller_refused _ e p h = absurd (cc)

  -- Who the caller of a personal call is does not depend on the database: over every database the
  -- same token gives the same caller or the same refusal, whatever is stored there of the user's
  -- suspension and of kicks.
  pub caller_ignores_database :
      (db : Database)
      → (auth_user state headers (record w { db = db })).0 ≡ (auth_user state headers w).0
  unfolding auth_user ◌>>=◌ verify unix_now
  caller_ignores_database db = ground arith
