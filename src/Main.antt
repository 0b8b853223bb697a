-- ===== src/Main.antt =====
-- main.rs: the command line, the start of the server and the periodic purge.
pub mod Args
pub mod Start
pub mod Started
pub mod Guarded
use smqtt.Exec.{Action, pure, attempt, ◌>>=◌, ◌>>◌}
use smqtt.Db.Exchanges.{purge_expired_exchanges}

-- One round of the purge loop: an error is only logged.
unfoldable pub purge_tick : Action (Unit {0})
purge_tick = attempt purge_expired_exchanges >> pure tt
