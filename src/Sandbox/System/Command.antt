-- ===== src/Sandbox/System/Command.antt =====
-- Where the child runs its command.
use microbox.Base.{ℕ, String, Bool, List, [], ◌∷◌, ◌++◌, ◌≡◌, refl, ◌∙◌, sym, ap, inl, inr}
use microbox.Os.{Event, Log, exec, ok, Kernel, Io, pure, ◌>>◌, perform, log_error}
use microbox.Os.Kinds.{Preparing}
use microbox.Os.Keeps.{Every, Later, Emits, Emits-Every}
use microbox.Os.Success.{bind_log, branching_log}
use microbox.Fs.Setup.{setup_fs}
use microbox.Fs.Preparing.{setup_fs-Preparing}
use microbox.Sandbox.Capabilities.{CapLibrary, apply_caps}
use microbox.Sandbox.Seccomp.{setup_seccomp}
use microbox.Sandbox.Env.{to_string_array}
use microbox.Sandbox.Flags.{SandboxOptions}
use microbox.Sandbox.Pipe.{wait_for_parent}
use microbox.Sandbox.Child.{
  fs_opts, exit_with, or_exit, set_hostname, exec_command, confine, setup_and_confine, child_main,
}
use microbox.Sandbox.Child.Launched.{Confined, confined_lem}
use microbox.Sandbox.Child.Preparing.{
  apply_caps-Preparing, setup_seccomp-Preparing, exit_with-Preparing, set_hostname-Preparing,
  wait_for_parent-Preparing, give_up-Preparing,
}
use microbox.Sandbox.System.Logs.{Later-uncons, Every-Later}

exec_args :
    {path path' : String} {args args' env env' : List String}
    → exec path args env ≡ exec path' args' env'
    → args ≡ args'
exec_args h = cc

exec_env :
    {path path' : String} {args args' env env' : List String}
    → exec path args env ≡ exec path' args' env'
    → env ≡ env'
exec_env h = cc

module _ (K : Kernel) (L : CapLibrary) (known : String → Bool) (opts : SandboxOptions)
    (rfd : ℕ) where
  -- A command that is run is the one that was asked for, and the child is confined by then.
  abbrev pub Runs : Log → Type 0
  Runs l =
      (e : Event) (b : Log) (path : String) (args env : List String)
      → Later (e ∷ b) l
      → e.call ≡ exec path args env
      → Confined K L known opts rfd [] b × (args ≡ opts.commands) × (env ≡ to_string_array opts.env)

  Runs-quiet : (l : Log) → Every Preparing l → Runs l
  Runs-quiet l every e b path args env h c =
      let bad = Every-Later Preparing l every h in absurd (rw c at bad)

  Runs-append : (calls l : Log) → Every Preparing calls → Runs l → Runs (calls ++ l)
  Runs-append [] l every runs = runs
  Runs-append (x ∷ calls) l every runs = λ e b path args env h c. elim (Later-uncons h) [
    | inl (same, _) ↦
        let call : x.call ≡ exec path args env = sym (ap (λ y. y.call) same) ∙ c in
        let bad = every.0 in absurd (rw call at bad)
    | inr h' ↦ Runs-append calls l every.1 runs e b path args env h' c
  ]

  Runs-Emits : {A : Type 0} (m : Io A) (l : Log) → Emits Preparing m → Runs l → Runs (m l).1
  Runs-Emits m l emits runs = let g = emits.at l in rw g.grown (Runs-append g.calls l g.every runs)

  -- What gives up after a part that runs no command.
  or_exit-Runs :
      (message : String) (m rest : Io (Unit {0})) (l : Log)
      → Every Preparing l
      → Emits Preparing m
      → ((m l).0 ≡ ok tt → Runs (rest (m l).1).1)
      → Runs (or_exit K message m rest l).1
  unfolding or_exit
  or_exit-Runs message m rest l every emits runs =
      branching_log Runs m (λ _. rest) (λ _. log_error K message >> exit_with K 1) l (λ _ p. runs p)
        (λ _ _.
          Runs-quiet _
            (Emits-Every _ (m l).1 (give_up-Preparing K message 1) (Emits-Every m l emits every)))

  exec-Runs :
      (command : String) (args : List String) (l : Log)
      → (command ∷ args) ≡ opts.commands
      → Confined K L known opts rfd [] l
      → Every Preparing l
      → Runs (perform K (exec command (command ∷ args) (to_string_array opts.env)) l).1
  unfolding perform
  exec-Runs command args l asked confined every e b path args' env h c = elim (Later-uncons h) [
    | inl (same, below) ↦
        let call : exec command (command ∷ args) (to_string_array opts.env) ≡ exec path args' env =
          sym (ap (λ y. y.call) same) ∙ c in
        (rw below confined, sym (exec_args call) ∙ asked, sym (exec_env call))
    | inr h' ↦ Runs-quiet l every e b path args' env h' c
  ]

  exec_command-Runs :
      (commands : List String) (l : Log)
      → commands ≡ opts.commands
      → Confined K L known opts rfd [] l
      → Every Preparing l
      → Runs (exec_command K commands (to_string_array opts.env) l).1
  unfolding exec_command pure
  exec_command-Runs [] l asked confined every =
      Runs-quiet _ (Emits-Every _ l (exit_with-Preparing K 2) every)
  exec_command-Runs (command ∷ args) l asked confined every =
      let run = perform K (exec command (command ∷ args) (to_string_array opts.env)) in
      let ran = exec-Runs command args l asked confined every in
      branching_log Runs run pure (λ _. log_error K "failed to execute process" >> exit_with K 127)
        l (λ _ _. ran)
        (λ _ _. Runs-Emits _ (run l).1 (give_up-Preparing K "failed to execute process" 127) ran)

  confine-Runs :
      (l l1 : Log)
      → wait_for_parent K rfd [] ≡ (ok tt, l)
      → setup_fs K (fs_opts opts) (set_hostname K opts.hostname l).1 ≡ (ok tt, l1)
      → Every Preparing l1
      → Runs (confine K L known opts l1).1
  unfolding confine
  confine-Runs l l1 waited set_up every =
      let drop = apply_caps L K opts.capabilities in
      let filter = setup_seccomp K known opts.allow_sys opts.deny_sys in
      let run = exec_command K opts.commands (to_string_array opts.env) in
      let l2 = (drop l1).1 in
      let l3 = (filter l2).1 in
      let every2 = Emits-Every drop l1 (apply_caps-Preparing K L opts.capabilities) every in
      let filtering = setup_seccomp-Preparing K known opts.allow_sys opts.deny_sys in
      or_exit-Runs "failed to apply capabilities" drop
        (or_exit K "failed to setup seccomp rules" filter run) l1 every
        (apply_caps-Preparing K L opts.capabilities)
        λ dropped.
          or_exit-Runs "failed to setup seccomp rules" filter run l2 every2 filtering λ filtered.
            let confined =
              confined_lem K L known opts rfd [] l l1 l2 l3 waited set_up (λ i. (dropped i, l2))
                (λ i. (filtered i, l3)) in
            exec_command-Runs opts.commands l3 refl confined
              (Emits-Every filter l2 filtering every2)

  after_wait-Runs :
      (l : Log)
      → wait_for_parent K rfd [] ≡ (ok tt, l)
      → Every Preparing l
      → Runs ((set_hostname K opts.hostname >> setup_and_confine K L known opts) l).1
  unfolding setup_and_confine
  after_wait-Runs l waited every =
      let name = set_hostname K opts.hostname in
      let naming = set_hostname-Preparing K opts.hostname in
      let mounting = setup_fs K (fs_opts opts) in
      let l0 = (name l).1 in
      let l1 = (mounting l0).1 in
      let every0 = Emits-Every name l naming every in
      let fs_quiet = setup_fs-Preparing K (fs_opts opts) in
      bind_log Runs name (λ _. setup_and_confine K L known opts) l (λ _ _. Runs-quiet _ every0)
        λ _ _.
          or_exit-Runs "failed to setup filesystem" mounting (confine K L known opts) l0 every0
            fs_quiet
            λ mounted.
              confine-Runs l l1 waited (λ i. (mounted i, l1))
                (Emits-Every mounting l0 fs_quiet every0)

  pub child_main-Runs : Runs (child_main K L known opts rfd []).1
  unfolding child_main
  child_main-Runs =
      let waiting = wait_for_parent K rfd in
      let every = Emits-Every waiting [] (wait_for_parent-Preparing K rfd) tt in
      branching_log Runs waiting _ _ []
        (λ _ p. after_wait-Runs (waiting []).1 (λ i. (p i, (waiting []).1)) every)
        (λ _ _. Runs-quiet _ (Emits-Every _ _ (exit_with-Preparing K 1) every))
