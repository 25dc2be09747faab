-- ===== src/Logger.antt =====
-- logger/logger.go: the one logger of the program. The handlers and loggers of slog are a parameter.
use microbox.Base.{ℕ, Option, none, some}
use microbox.Options.Logging.{LogLevel, log_text, log_json, LoggerOpts}

-- What the program uses of slog. Both handlers write to the standard output.
pub record Slog (Handler Logger : Type 0) : Type 0 where
  pub new_text_handler : LogLevel → Handler
  pub new_json_handler : LogLevel → Handler
  pub new_logger : Handler → Logger
  -- `With`, of the field "pid".
  pub with_pid : ℕ → Logger → Logger

module _ (Logger : Type 0) where
  -- The variable `Log`, and slog's default logger.
  pub record Globals : Type 0 where
    pub log : Option Logger
    pub default : Option Logger

module _ {Handler Logger : Type 0} (S : Slog Handler Logger) where
  -- The choice of the handler: every format but text is JSON.
  unfoldable pub log_handler : LoggerOpts → Handler
  log_handler opts = elim opts.log_format [
    | log_text ↦ S.new_text_handler opts.log_level
    | log_json ↦ S.new_json_handler opts.log_level
  ]

  -- `CreateLogger`, of the process with this pid: the logger, and the variables that it leaves.
  unfoldable pub create_logger : ℕ → LoggerOpts → Globals Logger → Logger × Globals Logger
  create_logger pid opts g = elim g.log [
    | some log ↦ (log, g)
    | none ↦
        let log = S.with_pid pid (S.new_logger (log_handler opts)) in
        (log, record { log = some log; default = some log })
  ]
