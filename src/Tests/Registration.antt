-- ===== src/Tests/Registration.antt =====
-- Registrations and their tokens in the scene of Tests/Scene.antt.
use smqtt.Prelude.{
  ◌↔◌, map, ℕ, ◌^◌, ◌≡◌, refl, true, false, none, some, [], ◌∷◌, ◌++◌, Text, Bytes, text, inl, inr,
  ◌==◌, text_eq, text_beq, arith, any, pos, ◌+ℤ◌, as_i64, if◌then◌else◌,
}
use smqtt.Table.{update}
use smqtt.Error.{ok, err, forbidden, bad_request}
use smqtt.State.{AppState, World}
use smqtt.Db.Invariant.{IsKey}
use smqtt.Db.Users.{new_user}
use smqtt.Db.Devices.{new_device}
use smqtt.Db.Tokens.{is_usable, consume_registration_token}
use smqtt.Api.Extractors.{Headers}
use smqtt.Api.Register.{RegisterRequest, RegisterResponse, register}
use smqtt.Api.Register as Register
use smqtt.Api.Register.Policy.{Passes, register_sound}
use smqtt.Api.Register.Consume.{bad_key_uses_token, consume_iff, Accepts, counted}
use smqtt.Api.Register.Accepted.{Presents, IsReady}
use smqtt.Api.Admin.{CreateTokenRequest, create_registration_token}
use smqtt.Api.Admin as Admin
use smqtt.Api.Admin.Tokens.{issued, issued_token_registers, huge_lifetime_refused}
use smqtt.Tests.Sample.{toy}
use smqtt.Tests.Scene.{replicate, server, token_server, by_token, scene}

abbrev new_key : Bytes
new_key = replicate 32 3

abbrev invited : RegisterRequest
invited = record { pubkey = new_key; registration_token = some (text "abc") }

abbrev newcomer : RegisterResponse
newcomer = record { user_id = scene.oracle.uuid 2; device_id = scene.oracle.uuid 5 }

registered : (register token_server invited scene).0 ≡ ok newcomer
unfolding register smqtt.Exec.◌>>=◌ Register.check_mode consume_registration_token
    smqtt.Exec.unix_now smqtt.Exec.run_query smqtt.Db.Tokens.use_token smqtt.Table.count text_beq
    Register.decode_key smqtt.Crypto.b64_decode Register.enroll smqtt.Db.Users.create_user
    smqtt.Exec.new_uuid smqtt.Db.Users.insert_user new_user smqtt.Db.Devices.create_device
    smqtt.Db.Devices.insert_device Register.apply_policy new_device
registered = refl

register_sound_example :
    Passes token_server invited scene
    × ((key : Bytes) × (toy.b64_decode new_key ≡ inr key)
        × IsKey toy key
        × ((s : ℕ) × (t : ℕ) × ((register token_server invited scene).1.db.users
              ≡ scene.db.users ++ new_user newcomer.user_id s ∷ [])
            × ((register token_server invited scene).1.db.devices
                ≡ scene.db.devices ++ new_device newcomer.device_id newcomer.user_id key t ∷ [])))
register_sound_example = register_sound token_server invited scene newcomer registered

-- A base64 that accepts nothing.
abbrev no_base64 : AppState
no_base64 = record token_server { ext = record toy { b64_decode = λ s. inl (text "bad") } }

abbrev abc_hash : Bytes
abc_hash = Register.token_hash toy (text "abc")

usable : any (is_usable abc_hash (as_i64 20)) scene.db.tokens ≡ true
unfolding Register.token_hash text_beq
usable = refl

bad_key_uses_token_example :
    ((register no_base64 invited scene).0
      ≡ err (bad_request (text "invalid base64: " ++ text "bad")))
    × ((register no_base64 invited scene).1.db.tokens
        ≡ update
            (is_usable abc_hash (as_i64 20))
            (λ t. record t { uses = t.uses +ℤ pos 1 })
            scene.db.tokens)
unfolding Register.token_hash
bad_key_uses_token_example =
    bad_key_uses_token no_base64 invited scene by_token (text "abc") (text "bad") refl refl refl
      refl refl usable refl

consume_iff_example :
    (((consume_registration_token abc_hash scene).0 ≡ ok tt)
      ↔ Accepts abc_hash (as_i64 20) scene.db.tokens)
    × ((¬ (Accepts abc_hash (as_i64 20) scene.db.tokens))
        → (consume_registration_token abc_hash scene).0 ≡ err forbidden)
    × ((consume_registration_token abc_hash scene).1.db.tokens
        ≡ map (counted abc_hash (as_i64 20)) scene.db.tokens)
consume_iff_example = consume_iff abc_hash scene refl

abbrev admin : Headers
admin name = if name == text "x-admin-key" then some (text "k") else none

abbrev short_lived : CreateTokenRequest
short_lived = record { expires_in = 100; max_uses = pos 1 }

abbrev fresh_token : Text
fresh_token = scene.oracle.random 0 32

short_lived_created : (create_registration_token server admin short_lived scene).0 ≡ ok fresh_token
unfolding create_registration_token smqtt.Exec.◌>>=◌ Admin.require_admin_key text_beq
    smqtt.Api.Extractors.header_or_empty smqtt.Exec.fill_bytes
    smqtt.Db.Tokens.create_registration_token smqtt.Exec.new_uuid smqtt.Exec.unix_now
    smqtt.Exec.run_query smqtt.Db.Tokens.insert_token smqtt.Db.Tokens.new_token
short_lived_created = refl

-- The scene with the token in the table.
abbrev after : CreateTokenRequest → World
after req = record scene {
  db = record scene.db {
    tokens = scene.db.tokens ++ issued server admin req scene fresh_token ∷ [];
  };
}

short_lived_kept :
    (after short_lived).db.tokens
    ≡ (create_registration_token server admin short_lived scene).1.db.tokens
unfolding create_registration_token smqtt.Exec.◌>>=◌ Admin.require_admin_key text_beq
    smqtt.Api.Extractors.header_or_empty smqtt.Exec.fill_bytes
    smqtt.Db.Tokens.create_registration_token smqtt.Exec.new_uuid smqtt.Exec.unix_now
    smqtt.Exec.run_query smqtt.Db.Tokens.insert_token smqtt.Db.Tokens.new_token
short_lived_kept = refl

-- A newcomer with the token.
abbrev guest : RegisterRequest
guest = record { pubkey = new_key; registration_token = some fresh_token }

abbrev guest_presents : Presents token_server guest fresh_token
guest_presents = record {
  policy = by_token;
  mode = refl;
  configured = refl;
  kind = refl;
  given = refl;
  key = new_key;
  decoded = refl;
  valid = (refl, refl);
}

after-IsReady : IsReady (after short_lived)
unfolding text_beq
after-IsReady = record { up = λ n. refl; new_user_id = refl; new_device_id = refl }

issued_token_registers_example : (register token_server guest (after short_lived)).0 ≡ ok newcomer
unfolding create_registration_token Admin.require_admin_key
issued_token_registers_example =
    issued_token_registers token_server admin short_lived scene (after short_lived) fresh_token
      guest short_lived_created short_lived_kept (omega arith) (omega arith) (ground arith)
      guest_presents after-IsReady

abbrev long_lived : CreateTokenRequest
long_lived = record { expires_in = 2 ^ 63; max_uses = pos 1 }

long_lived_created : (create_registration_token server admin long_lived scene).0 ≡ ok fresh_token
unfolding create_registration_token smqtt.Exec.◌>>=◌ Admin.require_admin_key text_beq
    smqtt.Api.Extractors.header_or_empty smqtt.Exec.fill_bytes
    smqtt.Db.Tokens.create_registration_token smqtt.Exec.new_uuid smqtt.Exec.unix_now
    smqtt.Exec.run_query smqtt.Db.Tokens.insert_token smqtt.Db.Tokens.new_token
long_lived_created = refl

long_lived_kept :
    (after long_lived).db.tokens
    ≡ (create_registration_token server admin long_lived scene).1.db.tokens
unfolding create_registration_token smqtt.Exec.◌>>=◌ Admin.require_admin_key text_beq
    smqtt.Api.Extractors.header_or_empty smqtt.Exec.fill_bytes
    smqtt.Db.Tokens.create_registration_token smqtt.Exec.new_uuid smqtt.Exec.unix_now
    smqtt.Exec.run_query smqtt.Db.Tokens.insert_token smqtt.Db.Tokens.new_token
long_lived_kept = refl

not_another : any (is_usable (Admin.token_hash toy fresh_token) (as_i64 20)) scene.db.tokens ≡ false
unfolding Admin.token_hash text_beq
not_another = refl

huge_lifetime_refused_example :
    (consume_registration_token (Admin.token_hash toy fresh_token) (after long_lived)).0
    ≡ err forbidden
huge_lifetime_refused_example =
    huge_lifetime_refused server admin long_lived scene (after long_lived) fresh_token
      long_lived_created long_lived_kept refl (omega arith) (omega arith) (omega arith) not_another
