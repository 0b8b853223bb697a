-- ===== src/Main/Start.antt =====
-- main.rs, `main`: starting the server; with `Config::load` (config.rs), `db::connect` (db/mod.rs)
-- and `broker::run` (broker/mod.rs). An error is the message that the process ends with.
use smqtt.Prelude.{
  ℕ, ◌⊎◌, Bool, false, Option, none, some, List, [], ◌∷◌, ◌++◌, Text, text, ◌==◌, text_eq,
  if◌then◌else◌,
}
use smqtt.Error.{Result, ok, err, internal}
use smqtt.Config.{Config, validate}
use smqtt.Foreign.{Foreign}
use smqtt.Crypto.{from_sum, keys_from_base64}
use smqtt.Rows.{Database}
use smqtt.State.{AppState, World, Oracle, new_app, new_world}

-- The hooks of rmqtt that there are handlers for.
pub data HookType : Type 0 where
  client_authenticate client_subscribe_check_acl client_disconnected : HookType

-- What the process finds around it: dotenvy, the `config` crate over the file and the environment,
-- sqlx with the migrations, and the sockets. The first argument of `settings` is the file of
-- environment variables that was loaded.
pub record Host : Type 0 where
  -- `{:?}` of a string
  pub debug : Text → Text
  pub load_env : Text → Text ⊎ Unit {0}
  pub settings : Option Text → Text → Text ⊎ Config
  pub open_database : Text → Text ⊎ Database
  pub parse_addr : Text → Text ⊎ Text
  pub bind_http : Text → Text ⊎ Unit {0}
  pub run_mqtt : Text → Text ⊎ Unit {0}

infixl 10 ◌>>=◌
-- `?`
unfoldable pub ◌>>=◌ : {A B : Type 0} → Result A → (A → Result B) → Result B
ok a >>= f = f a
err e >>= f = err e

-- `Config::load`
unfoldable pub load : Host → Option Text → Text → Result Config
load host env_path path = do
  me ← from_sum internal (host.settings env_path path)
  u ← validate me
  ok me

unfoldable pub database_url : Text → Text
database_url path =
    if path == text ":memory:"
    then text "sqlite::memory:"
    else text "sqlite:" ++ path ++ text "?mode=rwc"

-- `db::connect`
unfoldable pub connect : Host → Text → Result Database
unfolding database_url
connect host path = from_sum internal (host.open_database (database_url path))

-- What rmqtt is set up with: its hooks with their priority, whether it admits clients without a
-- password, and the address that it listens on.
pub record Broker : Type 0 where
  pub hooks : List (HookType × ℕ)
  pub allow_anonymous : Bool
  pub laddr : Text

-- `broker::run`, up to where it serves.
unfoldable pub run_broker : Host → Text → Result Broker
run_broker host bind = do
  addr ← from_sum internal (host.parse_addr bind)
  u ← from_sum internal (host.run_mqtt addr)
  ok (record {
    hooks =
        (client_authenticate, 10)
        ∷ (client_subscribe_check_acl, 10)
        ∷ (client_disconnected, 10)
        ∷ [];
    allow_anonymous = false;
    laddr = addr;
  })

unfoldable pub load_env : Host → Option Text → Result (Unit {0})
load_env host none = ok tt
load_env host (some path) =
    from_sum (λ e. internal (text "failed to load env file " ++ host.debug path ++ text ": " ++ e))
      (host.load_env path)

-- The server that serves: what its handlers share, and its broker, which may have failed to start.
pub record Running : Type 0 where
  pub state : AppState
  pub world : World
  pub broker : Result Broker
  pub http_addr : Text
  -- the purge runs first after this time, and then each time it has passed
  pub purge_interval_secs : ℕ

-- `main`, after the arguments are parsed. That the broker fails is only logged.
unfoldable pub start : Host → Foreign → Oracle → Text → Option Text → Result Running
unfolding load connect run_broker load_env
start host ext oracle cfg_path env_path = do
  u ← load_env host env_path
  config ← load host env_path cfg_path
  db ← connect host config.database.path
  keys ← keys_from_base64 ext config.jwt.signing_key
  let broker = run_broker host config.mqtt.bind
  addr ← from_sum internal (host.parse_addr config.http.bind)
  v ← from_sum internal (host.bind_http addr)
  ok (record {
    state = new_app ext config keys;
    world = new_world db oracle;
    broker = broker;
    http_addr = addr;
    purge_interval_secs = 3600;
  })
