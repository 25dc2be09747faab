-- ===== src/Sandbox/Env.antt =====
-- sandbox/env.go: environment variables.
pub mod Laws
use microbox.Base.{String, ◌<>◌, List, [], ◌∷◌, ◌++◌}

pub record EnvVar : Type 0 where
  pub key : String
  pub val : String

-- The text `KEY=VALUE`.
unfoldable pub env_string : EnvVar → String
env_string e = e.key <> "=" <> e.val

-- The loop of `EnvVars.ToStringArray`.
unfoldable pub to_string_array_from : List String → List EnvVar → List String
to_string_array_from result [] = result
to_string_array_from result (e ∷ env) = to_string_array_from (result ++ (env_string e ∷ [])) env

unfoldable pub to_string_array : List EnvVar → List String
unfolding to_string_array_from
to_string_array = to_string_array_from []
