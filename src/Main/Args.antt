-- ===== src/Main/Args.antt =====
-- main.rs, `parse_args`.
pub mod Laws
use smqtt.Prelude.{
  Bool, true, false, ◌||◌, Option, none, some, List, [], ◌∷◌, Text, text, ◌==◌, text_eq,
  strip_prefix, if◌then◌else◌,
}

pub data Args : Type 0 where
  -- the process prints the help text and exits
  help : Args
  -- the configuration file, where one is named, and the file of environment variables
  parsed : Option Text → Option Text → Args

abbrev pub or_else {ℓ} : {A : Type ℓ} → Option A → A → Option A
or_else none a = some a
or_else (some b) a = some b

abbrev pub is_help : Text → Bool
is_help arg = arg == text "--help" || arg == text "-h"

-- The loop, over the arguments that are left. `--env` takes the next argument, if there is one.
unfoldable pub scan_args : List Text → Option Text → Option Text → Args
scan_args [] cfg_path env_path = parsed cfg_path env_path
scan_args (arg ∷ []) cfg_path env_path =
    if is_help arg
    then help
    else if arg == text "--env"
    then parsed cfg_path none
    else elim (strip_prefix (text "--env=") arg) [
      | some val ↦ parsed cfg_path (some val)
      | none ↦ parsed (or_else cfg_path arg) env_path
    ]
scan_args (arg ∷ next ∷ args) cfg_path env_path = elim (is_help arg) [
  | true ↦ help
  | false ↦ elim (arg == text "--env") [
    | true ↦ scan_args args cfg_path (some next)
    | false ↦ elim (strip_prefix (text "--env=") arg) [
      | some val ↦ scan_args (next ∷ args) cfg_path (some val)
      | none ↦ scan_args (next ∷ args) (or_else cfg_path arg) env_path
    ]
  ]
]

abbrev with_default : Option Text → Option Text → Text
with_default (some path) var = path
with_default none (some path) = path
with_default none none = text "smqtt.toml"

-- The paths that `parse_args` returns, or `none` where it exits. `var` is `SMQTT_CONFIG`.
unfoldable pub finish : Args → Option Text → Option (Text × Option Text)
finish help var = none
finish (parsed cfg_path env_path) var = some (with_default cfg_path var, env_path)

unfoldable pub parse_args : List Text → Option Text → Option (Text × Option Text)
unfolding scan_args finish
parse_args args var = finish (scan_args args none none) var
