-- ===== src/Options/Tests.antt =====
-- The theorems on the options at concrete inputs.
use microbox.Base.{◌≡◌, refl}
use microbox.Os.{ok}
use microbox.Sandbox.Env.{EnvVar, env_string}
use mathlib.Core.List.{List, [], ◌∷◌}
use microbox.Options.Env.{or_value, value_of, default_environment, merge_env}
use microbox.Options.Env.Laws.{value_of-merge_env}
use microbox.Options.{parse_env}
use microbox.Options.Laws.{parse_env-env_string}

abbrev flags_var : EnvVar
flags_var = record { key = "FLAGS"; val = "a=b" }

parse_env-env_string_example : parse_env (env_string flags_var) ≡ ok flags_var
parse_env-env_string_example = parse_env-env_string flags_var refl refl

abbrev user_env : List EnvVar
user_env =
    record { key = "HOME"; val = "/a" }
    ∷ record { key = "X"; val = "1" }
    ∷ record { key = "HOME"; val = "/b" }
    ∷ []

value_of-merge_env_example :
    value_of "HOME" (merge_env default_environment user_env)
    ≡ or_value (value_of "HOME" user_env) (value_of "HOME" default_environment)
value_of-merge_env_example = value_of-merge_env default_environment user_env "HOME"
