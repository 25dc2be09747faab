-- ===== src/Sandbox/Env/Laws.antt =====
-- The environment that the command gets.
use mathlib.Core.List.{append_assoc, append-nil}
use microbox.Base.{String, ◌<>◌, List, [], ◌∷◌, ◌++◌, map, ◌≡◌, ◌∙◌, sym}
use microbox.Sandbox.Env.{EnvVar, env_string, to_string_array_from, to_string_array}

from-map :
    (env : List EnvVar) (result : List String)
    → to_string_array_from result env ≡ result ++ map env_string env
unfolding to_string_array_from
from-map [] result = sym (append-nil result)
from-map (e ∷ env) result =
    from-map env (result ++ env_string e ∷ [])
    ∙ append_assoc result (env_string e ∷ []) (map env_string env)

-- `ToStringArray` has one text for each variable, in order: its key, an equals sign and its value.
pub to_string_array-map :
    (env : List EnvVar) → to_string_array env ≡ map (λ e. e.key <> "=" <> e.val) env
unfolding to_string_array env_string
to_string_array-map env = from-map env []
