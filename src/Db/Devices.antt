-- ===== src/Db/Devices.antt =====
-- db/mod.rs, the table `devices`.
use smqtt.Prelude.{
  ℕ, Option, none, some, List, ◌∷◌, [], ◌++◌, Text, Bytes, as_i64, ◌==◌, text_eq, if◌then◌else◌,
  not, ◌||◌,
}
use smqtt.Table.{select, has_key}
use smqtt.Rows.{Device, Database}
use smqtt.Exec.{Action, pure, ◌>>=◌, ◌>>◌, unix_now, new_uuid, run_query, fetch}
use smqtt.Db.Users.{has_user}

unfoldable pub insert_device : Device → Database → Option (Unit {0} × Database)
insert_device d db =
    if has_key (λ e. e.device_id) d.device_id db.devices || not (has_user d.user_id db)
    then none
    else some (tt, record db { devices = db.devices ++ d ∷ [] })

unfoldable pub new_device : Text → Text → Bytes → ℕ → Device
new_device device_id user_id pubkey now = record {
  device_id = device_id;
  user_id = user_id;
  pubkey = pubkey;
  registered_at = as_i64 now;
}

unfoldable pub create_device : Text → Bytes → Action Device
create_device user_id pubkey = do
  device_id ← new_uuid
  now ← unix_now
  let device = new_device device_id user_id pubkey now
  run_query (insert_device device)
  pure device

abbrev pub devices_of : Text → Database → List Device
devices_of user_id db = select (λ d. d.user_id == user_id) db.devices

unfoldable pub get_device_by_user : Text → Action (List Device)
get_device_by_user user_id = fetch (devices_of user_id)
