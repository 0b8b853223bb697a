-- ===== src/Main/Args/Laws.antt =====
-- The command line: the two ways to name the environment file, and which path wins.
use smqtt.Prelude.{
  ◌≡◌, refl, false, Option, none, some, List, [], ◌∷◌, ◌++◌, Text, text, ◌==◌, text_eq, text_beq,
  All, strip_prefix, arith,
}
use smqtt.Main.Args.{parsed, scan_args, parse_args, is_help}

-- `--env=FILE` and `--env FILE` are read alike, whatever was read before and whatever follows.
pub env_forms :
    (file : Text) (rest : List Text) (cfg_path env_path : Option Text)
    → scan_args ((text "--env=" ++ file) ∷ rest) cfg_path env_path
      ≡ scan_args (text "--env" ∷ file ∷ rest) cfg_path env_path
unfolding scan_args text_beq strip_prefix
env_forms file [] cfg_path env_path = refl
env_forms file (x ∷ rest) cfg_path env_path = refl

-- The arguments that are no option.
abbrev IsPlain : Text → Type 0
IsPlain arg =
    (is_help arg ≡ false)
    × ((arg == text "--env") ≡ false)
    × (strip_prefix (text "--env=") arg ≡ none)

-- With a path that is already there, plain arguments change nothing.
scan_rest :
    (args : List Text) (path : Text) (env_path : Option Text)
    → All IsPlain args
    → scan_args args (some path) env_path ≡ parsed (some path) env_path
unfolding scan_args
scan_rest [] path env_path h = refl
scan_rest (a ∷ []) path env_path ((no_help, no_env, no_prefix), h) = rw (no_help, no_env, no_prefix)
scan_rest (a ∷ b ∷ args) path env_path ((no_help, no_env, no_prefix), h) =
    ground (arith, scan_rest (b ∷ args) path env_path h)

-- If no argument is an option, the first of them is the configuration file, whatever follows it and
-- whatever the environment variable names.
pub first_argument_wins :
    (arg : Text) (args : List Text) (var : Option Text)
    → All IsPlain (arg ∷ args)
    → parse_args (arg ∷ args) var ≡ some (arg, none)
unfolding parse_args
first_argument_wins arg [] var ((no_help, no_env, no_prefix), h) = rw (no_help, no_env, no_prefix)
first_argument_wins arg (b ∷ args) var ((no_help, no_env, no_prefix), h) =
    ground (arith, scan_rest (b ∷ args) arg none h)
