-- ===== src/Config.antt =====
-- config.rs: the settings, their defaults and the check at load time.
use smqtt.Prelude.{ℕ, Text, text, [], Option, Bool, true, false, ◌∷◌}
use smqtt.Error.{Result, ok, err, internal}

pub record DatabaseConfig : Type 0 where
  pub path : Text

pub record HttpConfig : Type 0 where
  pub bind : Text

pub record MqttConfig : Type 0 where
  pub bind : Text

pub record JwtConfig : Type 0 where
  pub signing_key : Text
  pub ttl_seconds : ℕ

-- `#[serde(default = "default_jwt_ttl")]`: an absent setting takes the default.
unfoldable pub default_jwt_ttl : ℕ
default_jwt_ttl = 3600

pub data RegistrationMode : Type 0 where
  open_mode closed_mode policy_mode : RegistrationMode

pub data PolicyKind : Type 0 where
  push hook : PolicyKind

pub record RegistrationPolicy : Type 0 where
  pub kind : PolicyKind
  pub hook_url : Option Text

pub record RegistrationConfig : Type 0 where
  pub mode : RegistrationMode
  pub policy : Option RegistrationPolicy

pub record SuspensionConfig : Type 0 where
  pub kind : PolicyKind
  pub hook_url : Option Text

pub record AdminConfig : Type 0 where
  pub api_key : Text

pub record NotificationsConfig : Type 0 where
  pub notify_secret : Text

pub record Config : Type 0 where
  pub database : DatabaseConfig
  pub http : HttpConfig
  pub mqtt : MqttConfig
  pub registration : RegistrationConfig
  pub suspension : SuspensionConfig
  pub admin : AdminConfig
  pub notifications : NotificationsConfig
  pub jwt : JwtConfig

abbrev pub is_empty : Text → Bool
is_empty [] = true
is_empty (c ∷ s) = false

-- `Config::validate`
unfoldable pub validate : Config → Result (Unit {0})
validate c = elim (is_empty c.admin.api_key) [
  | true ↦
      err (internal (text "admin.api_key is not set.\nGenerate one with: openssl rand -hex 32"))
  | false ↦ ok tt
]
