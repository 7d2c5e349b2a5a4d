-- ===== src/Logging.antt =====
-- internal/logging/logging.go: the level and the handler of the logger. strings.ToLower is a parameter; slog is not modelled.
use mqtt2db_go.Prelude.{◌||◌, Bytes, codes, bytes_eq, if◌then◌else◌}
use mqtt2db_go.Prelude.Results.{Result, ok, err}
use mqtt2db_go.Config.{LoggingConfig, is_empty}

pub data Level : Type 0 where
  level_debug level_info level_warn level_error : Level

pub data Handler : Type 0 where
  json_handler text_handler : Handler

pub data LoggingError : Type 0 where
  unknown_level unknown_format : LoggingError

pub record Logger : Type 0 where
  pub level : Level
  pub handler : Handler

-- parseLevel, of a name in lower case.
unfoldable pub level_named : Bytes → Result LoggingError Level
level_named s =
    if bytes_eq s (codes "debug")
    then ok level_debug
    else if bytes_eq s (codes "info") || is_empty s
    then ok level_info
    else if bytes_eq s (codes "warn") || bytes_eq s (codes "warning")
    then ok level_warn
    else if bytes_eq s (codes "error")
    then ok level_error
    else err unknown_level

unfoldable pub handler_named : Bytes → Result LoggingError Handler
handler_named s =
    if bytes_eq s (codes "json")
    then ok json_handler
    else if bytes_eq s (codes "text")
    then ok text_handler
    else err unknown_format

-- newWithWriter
unfoldable pub new_with_writer : (Bytes → Bytes) → LoggingConfig → Result LoggingError Logger
unfolding level_named handler_named
new_with_writer to_lower cfg = elim (level_named (to_lower cfg.level)) [
  | err e ↦ err e
  | ok level ↦ elim (handler_named (to_lower cfg.format)) [
    | err e ↦ err e
    | ok handler ↦ ok (record { level = level; handler = handler })
  ]
]
