-- ===== src/Main/Started.antt =====
-- What a server that serves has been given.
use smqtt.Prelude.{
  Sum-cases, some, none, ◌==◌, ◌++◌, if◌then◌else◌, ◌≡◌, ◌≢◌, refl, inl, inr, true, false, Option,
  [], ◌∷◌, Text, text, Bytes, text_eq, ◌⊎◌, ap, ◌↔◌, subst, sym, ◌∙◌,
}
use smqtt.Error.{Error, Result, ok, err, internal}
use smqtt.Config.{Config, validate, is_empty}
use smqtt.Foreign.{Foreign}
use smqtt.Crypto.{from_sum, keys_from_base64}
use smqtt.Rows.{Database}
use smqtt.State.{Oracle, new_app, new_world}
use smqtt.Main.Start.{
  Host, ◌>>=◌, load, connect, database_url, load_env, Running, run_broker, start, Broker,
  client_authenticate, client_subscribe_check_acl, client_disconnected,
}

-- Every step of the start that must succeed has: the settings `config`, the database `db`, the key
-- `keys` and the address `addr`.
pub record Starts (host : Host) (ext : Foreign) (cfg_path : Text) (env_path : Option Text)
    : Type 0 where
  pub env : (path : Text) → env_path ≡ some path → host.load_env path ≡ inr tt
  pub config : Config
  pub settings : host.settings env_path cfg_path ≡ inr config
  pub keyed : config.admin.api_key ≢ []
  pub db : Database
  pub opened :
      host.open_database (
        if config.database.path == text ":memory:"
        then text "sqlite::memory:"
        else text "sqlite:" ++ config.database.path ++ text "?mode=rwc")
      ≡ inr db
  pub keys : Bytes
  pub decoded : ext.b64_decode config.jwt.signing_key ≡ inr keys
  pub addr : Text
  pub parsed : host.parse_addr config.http.bind ≡ inr addr
  pub bound : host.bind_http addr ≡ inr tt

-- The broker, which has the three hooks and admits no client without a password; or what it failed of.
abbrev pub broker_of : Host → Text → Result Broker
broker_of host bind = elim (host.parse_addr bind) [
  | inl e ↦ err (internal e)
  | inr addr ↦ elim (host.run_mqtt addr) [
    | inl e ↦ err (internal e)
    | inr u ↦ ok (record {
      hooks =
          (client_authenticate, 10)
          ∷ (client_subscribe_check_acl, 10)
          ∷ (client_disconnected, 10)
          ∷ [];
      allow_anonymous = false;
      laddr = addr;
    })
  ]
]

abbrev pub running :
    (host : Host) (ext : Foreign) (oracle : Oracle) (cfg_path : Text) (env_path : Option Text)
    → Starts host ext cfg_path env_path
    → Running
running host ext oracle cfg_path env_path s = record {
  state = record { ext = ext; config = s.config; jwt_keys = s.keys; node_id = 1 };
  world = record { db = s.db; challenges = []; sessions = []; broker = []; oracle = oracle };
  broker = broker_of host s.config.mqtt.bind;
  http_addr = s.addr;
  purge_interval_secs = 3600;
}

bind_ok :
    {A B : Type 0} (r : Result A) (f : A → Result B) (b : B)
    → (r >>= f) ≡ ok b
    → (a : A) × (r ≡ ok a) × (f a ≡ ok b)
unfolding ◌>>=◌
bind_ok (ok a) f b h = (a, refl, h)
bind_ok (err e) f b h = absurd (cc h)

bind-ok : {A B : Type 0} (r : Result A) (f : A → Result B) (a : A) → r ≡ ok a → (r >>= f) ≡ f a
unfolding ◌>>=◌
bind-ok r f a h = ap (λ q. q >>= f) h

from_sum_ok : {A B : Type 0} (f : A → Error) (r : A ⊎ B) (b : B) → from_sum f r ≡ ok b → r ≡ inr b
from_sum_ok f (inl a) b h = absurd (cc h)
from_sum_ok f (inr c) b h = cc h

-- Settings are taken only with an administrator's key.
validate_iff : (c : Config) → (validate c ≡ ok tt) ↔ (c.admin.api_key ≢ [])
unfolding validate
validate_iff c = by_key c.admin.api_key
  where
    by_key :
        (key : Text)
        → ((elim (is_empty key) [
          | true ↦
              err (
                internal
                  (text "admin.api_key is not set.\nGenerate one with: openssl rand -hex 32"))
          | false ↦ ok tt
        ])
            ≡ ok tt)
          ↔ (key ≢ [])
    by_key [] = (λ h. absurd (cc h), λ h. absurd (h refl))
    by_key (c ∷ key) = (λ h e. cc e, λ h. refl)

module _ (host : Host) where
  load_env_iff :
      (env_path : Option Text)
      → (load_env host env_path ≡ ok tt)
        ↔ ((path : Text) → env_path ≡ some path → host.load_env path ≡ inr tt)
  unfolding load_env
  load_env_iff none = (λ h path e. absurd (cc e), λ h. refl)
  load_env_iff (some path) = (
    λ h p e. from_sum_ok _ _ tt (subst (λ q. load_env host (some q) ≡ ok tt) (cc e) h),
    λ h. rw (h path refl) refl,
  )

  run_broker_lem : (bind : Text) → run_broker host bind ≡ broker_of host bind
  unfolding run_broker ◌>>=◌
  run_broker_lem bind = elim (Sum-cases (host.parse_addr bind)) [
    | inl (e, bad) ↦ rw (broker_of, bad) refl
    | inr (addr, parsed) ↦ elim (Sum-cases (host.run_mqtt addr)) [
      | inl (e, bad) ↦ rw (broker_of, parsed, bad) refl
      | inr (u, ran) ↦ rw (broker_of, parsed, ran) refl
    ]
  ]

module _ (host : Host) (ext : Foreign) (oracle : Oracle) (cfg_path : Text)
    (env_path : Option Text) where
  load_only :
      (config : Config)
      → load host env_path cfg_path ≡ ok config
      → (host.settings env_path cfg_path ≡ inr config) × (config.admin.api_key ≢ [])
  unfolding load
  load_only config h =
      let (me, settings, l) = bind_ok _ _ config h in
      let (u, valid, same) = bind_ok _ _ config l in
      let e : me ≡ config = cc same in
      (
        from_sum_ok _ _ config
            (subst (λ c. from_sum internal (host.settings env_path cfg_path) ≡ ok c) e settings),
        subst (λ c. c.admin.api_key ≢ []) e ((validate_iff me).0 valid),
      )

  start_only :
      (r : Running)
      → start host ext oracle cfg_path env_path ≡ ok r
      → (s : Starts host ext cfg_path env_path) × (r ≡ running host ext oracle cfg_path env_path s)
  unfolding start connect keys_from_base64 database_url new_app new_world
  start_only r h =
      let (u, env, h1) = bind_ok _ _ r h in
      let (config, loaded, h2) = bind_ok _ _ r h1 in
      let (db, opened, h3) = bind_ok _ _ r h2 in
      let (keys, decoded, h4) = bind_ok _ _ r h3 in
      let (addr, parsed, h5) = bind_ok _ _ r h4 in
      let (b, bound, h6) = bind_ok _ _ r h5 in
      let s : Starts host ext cfg_path env_path = record {
        env = (load_env_iff host env_path).0 env;
        config = config;
        settings = (load_only config loaded).0;
        keyed = (load_only config loaded).1;
        db = db;
        opened = from_sum_ok _ _ db opened;
        keys = keys;
        decoded = from_sum_ok _ _ keys decoded;
        addr = addr;
        parsed = from_sum_ok _ _ addr parsed;
        bound = from_sum_ok _ _ b bound;
      } in
      (
        s,
        sym (cc h6)
            ∙ ap (λ b. record (running host ext oracle cfg_path env_path s) { broker = b })
                (run_broker_lem host config.mqtt.bind),
      )

  start_when :
      (s : Starts host ext cfg_path env_path)
      → start host ext oracle cfg_path env_path ≡ ok (running host ext oracle cfg_path env_path s)
  unfolding start connect keys_from_base64 load ◌>>=◌ database_url new_app new_world
  start_when s =
      rw
        (
          (load_env_iff host env_path).1 s.env,
          s.settings,
          (validate_iff s.config).1 s.keyed,
          s.opened,
          s.decoded,
          s.parsed,
          s.bound,
          run_broker_lem host s.config.mqtt.bind,
        )
        refl

  -- The process comes to serve its HTTP API exactly if the file of environment variables (where one is
  -- named) is read, the settings are read and have an administrator's key, the database of their path
  -- opens, the signing key is base64, and the HTTP address is valid and free. It serves then as node 1
  -- with these settings, that database and key, no challenges and no sessions, and purges each hour,
  -- whether or not its broker has started, which has the three hooks and admits no client without a
  -- password.
  pub start_iff :
      (r : Running)
      → (start host ext oracle cfg_path env_path ≡ ok r) ↔ (
          (s : Starts host ext cfg_path env_path) × (r
            ≡ running host ext oracle cfg_path env_path s))
  start_iff r = (start_only r, λ s. start_when s.0 ∙ ap (λ q. ok q) (sym s.1))
