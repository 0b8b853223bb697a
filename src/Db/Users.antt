-- ===== src/Db/Users.antt =====
-- db/mod.rs, the table `users`.
use smqtt.Prelude.{
  ℕ, false, Bool, Option, none, some, ◌∷◌, [], ◌++◌, Text, ℤ, pos, as_i64, ◌==◌, nat_eq, text_eq,
  find, if◌then◌else◌,
}
use smqtt.Table.{update, count, has_key}
use smqtt.Error.{not_found}
use smqtt.Rows.{User, Database}
use smqtt.Exec.{Action, pure, ok_or, raise_if, ◌>>=◌, ◌>>◌, unix_now, new_uuid, run_query, fetch}

abbrev pub has_user : Text → Database → Bool
has_user user_id db = has_key (λ u. u.user_id) user_id db.users

unfoldable pub insert_user : User → Database → Option (Unit {0} × Database)
insert_user u db =
    if has_user u.user_id db then none else some (tt, record db { users = db.users ++ u ∷ [] })

unfoldable pub new_user : Text → ℕ → User
new_user user_id now = record {
  user_id = user_id;
  created_at = as_i64 now;
  suspended = false;
  suspend_reason = none;
  tokens_valid_from = pos 0;
}

unfoldable pub create_user : Action User
create_user = do
  user_id ← new_uuid
  now ← unix_now
  let user = new_user user_id now
  run_query (insert_user user)
  pure user

abbrev pub find_user : Text → Database → Option User
find_user user_id db = find (λ u. u.user_id == user_id) db.users

unfoldable pub get_user : Text → Action User
get_user user_id = do found ← fetch (find_user user_id); ok_or not_found found

unfoldable pub update_valid_from : ℤ → Text → Database → Option (ℕ × Database)
update_valid_from now user_id db = some (
  count (λ u. u.user_id == user_id) db.users,
  record db {
    users = update (λ u. u.user_id == user_id) (λ u. record u { tokens_valid_from = now }) db.users;
  },
)

unfoldable pub invalidate_tokens : Text → Action (Unit {0})
invalidate_tokens user_id = do
  now ← unix_now
  run_query (update_valid_from (as_i64 now) user_id)
  pure tt

unfoldable pub update_suspended : Bool → Option Text → Text → Database → Option (ℕ × Database)
update_suspended suspended reason user_id db = some (
  count (λ u. u.user_id == user_id) db.users,
  record db {
    users =
        update (λ u. u.user_id == user_id)
          (λ u. record u { suspended = suspended; suspend_reason = reason }) db.users;
  },
)

unfoldable pub set_suspended : Text → Bool → Option Text → Action (Unit {0})
set_suspended user_id suspended reason = do
  rows ← run_query (update_suspended suspended reason user_id)
  raise_if (rows == 0) not_found
