-- ===== src/Broker/Kick.antt =====
-- `kick_user` (broker/mod.rs).
use smqtt.Prelude.{◌+◌, ◌≡◌, ◌∙◌, false, List, [], ◌∷◌, ◌++◌, map, Text, ℤ, as_i64, ◌==◌, text_eq}
use mathlib.Core.List.{append_assoc, append-nil}
use smqtt.Table.{update}
use smqtt.Error.{ok}
use smqtt.Rows.{Device, Database}
use smqtt.State.{AppState, World, BrokerCall, kick, next}
use smqtt.Exec.{◌>>=◌, unix_now, fetch}
use smqtt.Db.Users.{invalidate_tokens, update_valid_from}
use smqtt.Db.Devices.{get_device_by_user, devices_of}
use smqtt.Broker.{kick_devices, kick_found, kick_user}

abbrev pub kicks : AppState → List Device → List BrokerCall
kicks state = map λ d. kick state.node_id d.device_id

-- The database in which the tokens of `user_id` are valid from `now` on.
abbrev pub valid_from : ℤ → Text → Database → Database
valid_from now user_id db = record db {
  users = update (λ u. u.user_id == user_id) (λ u. record u { tokens_valid_from = now }) db.users;
}

-- The world after a kick that was carried out.
abbrev pub kicked : AppState → Text → World → World
kicked state user_id w = record (next (next (next w))) {
  db = valid_from (as_i64 (w.oracle.clock w.oracle.asked)) user_id w.db;
  broker = w.broker ++ kicks state (devices_of user_id w.db);
}

module _ (state : AppState) where
  kick_devices_lem :
      (ds : List Device) (w : World)
      → kick_devices state ds w ≡ (ok tt, record w { broker = w.broker ++ kicks state ds })
  unfolding kick_devices ◌>>=◌
  kick_devices_lem [] w = rw (append-nil w.broker)
  kick_devices_lem (d ∷ ds) w =
      kick_devices_lem ds (record w { broker = w.broker ++ kick state.node_id d.device_id ∷ [] })
      ∙ rw append_assoc

  -- If the two statements of `kick_user` are carried out, the tokens of the user are valid only from
  -- the time of the call on, and exactly the user's devices are kicked; nothing else changes but the
  -- number of questions asked.
  pub kick_user_lem :
      (user_id : Text) (w : World)
      → w.oracle.fails (w.oracle.asked + 1) ≡ false
      → w.oracle.fails (w.oracle.asked + 1 + 1) ≡ false
      → kick_user state user_id w ≡ (ok tt, kicked state user_id w)
  unfolding kick_user kick_found ◌>>=◌ invalidate_tokens update_valid_from get_device_by_user fetch
      unix_now
  kick_user_lem user_id w f g = rw (f, g) (kick_devices_lem (devices_of user_id w.db) _)
