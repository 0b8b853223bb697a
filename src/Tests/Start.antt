-- ===== src/Tests/Start.antt =====
-- Starting the server on a toy host.
use smqtt.Prelude.{◌≡◌, ◌≢◌, ◌↔◌, refl, inl, inr, none, [], text}
use smqtt.Error.{ok, err, unauthorized}
use smqtt.Rows.{empty_database}
use smqtt.Api.Router.{Call, dispatch}
use smqtt.Main.Start.{Host, start}
use smqtt.Main.Started.{Starts, start_iff, running}
use smqtt.Main.Guarded.{started_admin_refused}
use smqtt.Tests.Sample.{toy}
use smqtt.Tests.Scene.{server, scene, oracle, alice}

-- Everything succeeds, but for the broker's socket.
abbrev host : Host
host = record {
  debug = λ s. s;
  load_env = λ path. inr tt;
  settings = λ env path. inr server.config;
  open_database = λ url. inr empty_database;
  parse_addr = λ s. inr s;
  bind_http = λ addr. inr tt;
  run_mqtt = λ addr. inl (text "in use");
}

has_key : server.config.admin.api_key ≢ []
has_key e = cc e

abbrev up : Starts host toy (text "smqtt.toml") none
up = record {
  env = λ path e. absurd (cc e);
  config = server.config;
  settings = refl;
  keyed = has_key;
  db = empty_database;
  opened = refl;
  keys = text "s";
  decoded = refl;
  addr = text "h";
  parsed = refl;
  bound = refl;
}

start_iff_example :
    (start host toy oracle (text "smqtt.toml") none
      ≡ ok (running host toy oracle (text "smqtt.toml") none up))
    ↔ ((s : Starts host toy (text "smqtt.toml") none) × (running host toy oracle
            (text "smqtt.toml")
            none
            up
          ≡ running host toy oracle (text "smqtt.toml") none s))
start_iff_example =
    start_iff host toy oracle (text "smqtt.toml") none
      (running host toy oracle (text "smqtt.toml") none up)

started :
    start host toy oracle (text "smqtt.toml") none
    ≡ ok (running host toy oracle (text "smqtt.toml") none up)
started = start_iff_example.1 (up, refl)

started_admin_refused_example :
    dispatch
      (running host toy oracle (text "smqtt.toml") none up).state
      (λ name. none)
      (Call.suspend_user alice none)
      scene
    ≡ (err unauthorized, scene)
started_admin_refused_example =
    started_admin_refused host toy oracle (text "smqtt.toml") none
      (running host toy oracle (text "smqtt.toml") none up) (λ name. none)
      (Call.suspend_user alice none) scene started refl refl
