-- ===== src/Options/Logging.antt =====
-- options/logging.go and logger/logger.go: the level and the format of the log, and the one logger.
use microbox.Base.{String, [], ◌∷◌, ◌==◌, if◌then◌else◌}
use microbox.Os.{errorf, Result, ok, err}

-- The levels of slog that are used.
pub data LogLevel : Type 0 where
  level_info level_warn level_error : LogLevel

pub data LogFormat : Type 0 where
  log_text log_json : LogFormat

pub record LoggerOpts : Type 0 where
  pub log_level : LogLevel
  pub log_format : LogFormat

-- `parseLogLevel`
unfoldable pub parse_log_level : String → Result LogLevel
parse_log_level s =
    if s == "info"
    then ok level_info
    else if s == "warn"
    then ok level_warn
    else if s == "error"
    then ok level_error
    else err (errorf "unknown log level: %q" (s ∷ []))

-- `parseLogFormat`
unfoldable pub parse_log_format : String → Result LogFormat
parse_log_format s =
    if s == "text"
    then ok log_text
    else if s == "json"
    then ok log_json
    else err (errorf "unknown log format: %q" (s ∷ []))
