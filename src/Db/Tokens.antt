-- ===== src/Db/Tokens.antt =====
-- db/mod.rs, the table `registration_tokens`.
use smqtt.Prelude.{
  ℕ, Bool, Option, none, some, ◌∷◌, [], ◌++◌, Text, Bytes, ℤ, pos, as_i64, add_u64, ltb_ℤ, ◌+ℤ◌,
  ◌==◌, nat_eq, text_eq, if◌then◌else◌, ◌&&◌,
}
use smqtt.Table.{update, count, has_key}
use smqtt.Error.{forbidden}
use smqtt.Rows.{RegistrationToken, Database}
use smqtt.Exec.{Action, pure, raise_if, ◌>>=◌, ◌>>◌, unix_now, new_uuid, run_query}

unfoldable pub insert_token : RegistrationToken → Database → Option (Unit {0} × Database)
insert_token t db =
    if has_key (λ s. s.token_id) t.token_id db.tokens
    then none
    else some (tt, record db { tokens = db.tokens ++ t ∷ [] })

unfoldable pub new_token : Text → Bytes → ℕ → ℤ → ℕ → ℕ → RegistrationToken
new_token token_id token_hash expires_in_secs max_uses now later = record {
  token_id = token_id;
  token_hash = token_hash;
  created_at = as_i64 now;
  expires_at = as_i64 (add_u64 later expires_in_secs);
  max_uses = max_uses;
  uses = pos 0;
}

-- The clock is read twice, for `created_at` and for `expires_at`.
unfoldable pub create_registration_token : Bytes → ℕ → ℤ → Action Text
create_registration_token token_hash expires_in_secs max_uses = do
  token_id ← new_uuid
  now ← unix_now
  later ← unix_now
  let token = new_token token_id token_hash expires_in_secs max_uses now later
  run_query (insert_token token)
  pure token_id

-- The condition of the `UPDATE`: the hash fits, and the token is neither expired nor used up.
abbrev pub is_usable : Bytes → ℤ → RegistrationToken → Bool
is_usable token_hash now t =
    t.token_hash == token_hash && ltb_ℤ now t.expires_at && ltb_ℤ t.uses t.max_uses

unfoldable pub use_token : Bytes → ℤ → Database → Option (ℕ × Database)
use_token token_hash now db = some (
  count (is_usable token_hash now) db.tokens,
  record db {
    tokens = update (is_usable token_hash now) (λ t. record t { uses = t.uses +ℤ pos 1 }) db.tokens;
  },
)

unfoldable pub consume_registration_token : Bytes → Action (Unit {0})
consume_registration_token token_hash = do
  now ← unix_now
  rows ← run_query (use_token token_hash (as_i64 now))
  raise_if (rows == 0) forbidden
