-- ===== src/Lib.antt =====
-- smqtt: a server that embeds an MQTT broker (rmqtt) and lets users register, prove their devices'
-- keys, exchange keys and grant each other topics over a REST API (axum), with a SQLite database.
--
-- The parts. The handlers of src/api read and write the database through src/db/mod.rs, keep
-- challenges in memory, and make calls to the broker (src/broker/mod.rs) to notify and to kick. The
-- broker asks the hook of src/broker/auth_hook.rs about each connection and each subscription; the
-- hook reads the database and keeps the claims of connected clients in memory. src/main.rs starts
-- the servers and purges expired exchanges. All handlers run concurrently on tokio.
--
-- Where what is modelled:
--   src/error.rs                 Error
--   src/config.rs                Config, Main.Start (Config::load)
--   src/state.rs                 State, Map (a DashMap), Foreign (third-party codecs)
--   src/crypto.rs                Crypto, Claims
--   src/db/mod.rs, migrations    Rows, Table (select, delete, update on a list of rows), Db.Users,
--                                Db.Devices, Db.Relationships, Db.Exchanges, Db.Tokens
--   src/broker/mod.rs            Broker, Main.Start (run)
--   src/broker/auth_hook.rs      Broker.AuthHook
--   src/api/extractors.rs        Api.Extractors
--   src/api/register.rs          Api.Register
--   src/api/auth.rs              Api.Auth
--   src/api/exchange.rs          Api.Exchange
--   src/api/relationships.rs     Api.Relationships
--   src/api/admin.rs             Api.Admin
--   src/api/mod.rs               Api.Router, Api.Http (routes, extractors, bodies, responses)
--   src/main.rs                  Main (a round of the purge), Main.Args (parse_args), Main.Start (main)
--   the handlers, interleaved    Task (one atomic step for each access), Concurrent.Api and
--                                Concurrent.Hook (the handlers as tasks), Concurrent.Pool (the server)
-- A handler keeps its name, and so does a query. The steps of a long handler are definitions of
-- their own, composed in the order of the code. Db.Invariant and Db.Stable describe the database,
-- Exec.Keeps and Exec.Frame what a handler leaves alone, System the server that runs one whole handler
-- at a time, and Api.Exchange.Phase an exchange as an abstract state machine.
-- The other child modules hold proofs, Tests runs on concrete data.
--
-- How it is modelled. A handler is an `Action`: from a `World` to a result or an error, and the next
-- `World`, also after an error, since what was written before it stays written. The world answers
-- questions by an `Oracle`: the clock, random bytes, UUIDs, the registration hook, and whether the
-- database fails; each question takes the next index, so nothing is assumed of two readings of the
-- clock. A statement is carried out whole or not at all. Primary keys and foreign keys are enforced
-- (sqlx switches foreign keys on by default); a query returns rows in the order of insertion, since
-- none says ORDER BY. A `String` is a list of UTF-8 bytes. `u64` is ℕ with sums taken modulo 2^64, as
-- a release build does; `as i64` wraps into ℤ; the column `uses` is ℤ and its sum is not wrapped. All
-- recursion is structural, so there is no fuel.
--
-- A `Task` is the same handler cut at its accesses to the shared state: each query, each operation on
-- a DashMap and each call of the broker is one step, and between two steps any number of steps of
-- other handlers may come. A reading of the clock, a UUID, random bytes and a guard belong to the step
-- of the query that they are for, or are a step of their own that writes nothing; since the oracle may
-- answer anything, this restricts nothing. `Concurrent.Pool` starts handlers, lets one of them take a step,
-- and drops one (axum drops a handler whose client is gone, between any two of its steps).
-- `Concurrent.Beside` follows one handler among the others, `Concurrent.Schedule` two in a given order.
--
-- Third-party code is a parameter, the record `Foreign`; `ForeignLaws` states what base64, JSON and
-- JWT promise: what was encoded is decoded, and an expired token is not accepted. The theorems that
-- need it take it as a hypothesis. Tests.Sample has an instance.
--
-- What `main` finds around it is a parameter too, the record `Host`: dotenvy, the `config` crate, sqlx
-- with the migrations, and the sockets.
--
-- Not modelled: rmqtt itself (its calls are recorded in the world, not carried out, and a failed
-- delivery is only logged by the program); how axum splits and decodes a path and how serde_json reads
-- a body (a JSON array in the place of an object, which serde would take for the fields in their order,
-- is among the bodies that are rejected here); how serde_json prints the fields of a response; log
-- output; the table `recovery_codes`, which no query uses.
pub mod Prelude
pub mod Table
pub mod Claims
pub mod Error
pub mod Config
pub mod Foreign
pub mod Rows
pub mod Map
pub mod State
pub mod Exec
pub mod Task
pub mod Db
pub mod Crypto
pub mod Broker
pub mod Api
pub mod Main
pub mod Concurrent
pub mod System
pub mod Tests
