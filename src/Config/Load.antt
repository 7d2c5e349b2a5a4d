-- ===== src/Config/Load.antt =====
-- Load of internal/config/config.go. Reading the file, the YAML decoder and the overlay of the environment are parameters.
use mqtt2db_go.Prelude.{List, [], ◌∷◌, Option, none, some, Bytes}
use mqtt2db_go.Prelude.Results.{Result, ok, err}
use mqtt2db_go.Config.{Libraries, Config, validate}
use mqtt2db_go.Config.Defaults.{new_default}

pub data LoadError : Type 0 where
  read_config parse_config apply_env : LoadError
  invalid_config : List Bytes → LoadError

module _ (l : Libraries) where
  pub record Sources : Type 0 where
    pub read_file : Bytes → Option Bytes
    pub decode_yaml : Config l → Bytes → Option (Config l)
    pub parse_env : Config l → Option (Config l)

  abbrev pub overlay : Sources → Config l → Option Bytes → Result LoadError (Config l)
  overlay src cfg none = err read_config
  overlay src cfg (some raw) = elim (src.decode_yaml cfg raw) [
    | none ↦ err parse_config
    | some cfg' ↦ ok cfg'
  ]

  abbrev pub checked : Config l → List Bytes → Result LoadError (Config l)
  checked cfg [] = ok cfg
  checked cfg (e ∷ errs) = err (invalid_config (e ∷ errs))

  abbrev pub validated : Option (Config l) → Result LoadError (Config l)
  validated none = err apply_env
  validated (some cfg) = checked cfg (validate l cfg)

  abbrev pub with_env : Sources → Result LoadError (Config l) → Result LoadError (Config l)
  with_env src (err e) = err e
  with_env src (ok cfg) = validated (src.parse_env cfg)

  -- The defaults, overlaid with the file, if a path is given, and then with the environment.
  unfoldable pub load : Sources → l.float.F → l.float.F → Bytes → Result LoadError (Config l)
  load src spill pause [] = with_env src (ok (new_default l spill pause))
  load src spill pause (c ∷ path) =
      with_env src (overlay src (new_default l spill pause) (src.read_file (c ∷ path)))
