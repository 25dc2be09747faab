-- ===== src/Options/Env.antt =====
-- options/env.go: the merge of the default variables with the user's. A Go map is the list of the
-- writes to it: the last one for a key counts.
pub mod Laws
use mathlib.Core.List.{List, [], ◌∷◌, ◌++◌, map}
use microbox.Base.{String, Bool, true, false, Option, none, some, ◌==◌, if◌then◌else◌}
use microbox.Base.Keys.{string_eq, insert_all, delete_all}
use microbox.Base.Sort.{sort}
use microbox.Sandbox.Env.{EnvVar}

abbrev pub default_environment : List EnvVar
default_environment =
    record { key = "PATH"; val = "/usr/bin:/bin:/usr/sbin:/sbin:/usr/local/bin" }
    ∷ record { key = "HOME"; val = "/root" }
    ∷ record { key = "TERM"; val = "xterm" }
    ∷ record { key = "LANG"; val = "C.UTF-8" }
    ∷ []

abbrev pub or_value : Option String → Option String → Option String
or_value (some v) rest = some v
or_value none rest = rest

-- `merged[k]`, after these writes.
unfoldable pub value_of : String → List EnvVar → Option String
value_of k [] = none
value_of k (e ∷ env) = or_value (value_of k env) (if k == e.key then some e.val else none)

abbrev pub keys_of : List EnvVar → List String
keys_of env = map (λ e. e.key) env

abbrev pub cons_value : String → Option String → List EnvVar → List EnvVar
cons_value k (some v) env = record { key = k; val = v } ∷ env
cons_value k none env = env

-- The loops that append to `out`: the variables of these keys that are in the map.
unfoldable pub collect : List EnvVar → List String → List EnvVar
collect merged [] = []
collect merged (k ∷ ks) = cons_value k (value_of k merged) (collect merged ks)

abbrev pub default_order : List String
default_order = "PATH" ∷ "HOME" ∷ "TERM" ∷ "LANG" ∷ []

-- `MergeEnv`
unfoldable pub merge_env : List EnvVar → List EnvVar → List EnvVar
merge_env defaults user =
    let merged = defaults ++ user in
    collect merged default_order
    ++ collect merged (sort (delete_all default_order (insert_all (keys_of merged) [])))
