-- ===== src/Sandbox/Child/Local.antt =====
-- Which kinds of calls the child makes, up to its command.
use microbox.Base.{ℕ, String, Bool, List, [], ◌∷◌}
use microbox.Os.{Kernel, Io, ◌>>◌}
use microbox.Os.Kinds.{Local, Preparing, Preparing-Local}
use microbox.Os.Keeps.{Emits, Emits-branching, Emits-perform, Emits-pure, Emits-weaken, emits_rules}
use microbox.Fs.Preparing.{setup_fs-Preparing}
use microbox.Sandbox.Flags.{SandboxOptions}
use microbox.Sandbox.Capabilities.{CapLibrary}
use microbox.Sandbox.Child.{
  or_exit, set_hostname, exec_command, confine, setup_and_confine, child_main,
}
use microbox.Sandbox.Child.Preparing.{
  apply_caps-Preparing, setup_seccomp-Preparing, exit_with-Preparing, set_hostname-Preparing,
  wait_for_parent-Preparing, give_up-Preparing,
}

-- The parts that do not run the command.
prepared : {A : Type 0} (m : Io A) → Emits Preparing m → Emits Local m
prepared m h = Emits-weaken m Preparing-Local h

module _ (K : Kernel) where
  or_exit-Local :
      (message : String) (m rest : Io (Unit {0}))
      → Emits Preparing m
      → Emits Local rest
      → Emits Local (or_exit K message m rest)
  unfolding or_exit
  or_exit-Local message m rest h k =
      let giving_up = prepared _ (give_up-Preparing K message 1) in
      let first = prepared m h in search (emits_rules, giving_up, first)

  exec_command-Local : (commands env : List String) → Emits Local (exec_command K commands env)
  unfolding exec_command
  exec_command-Local [] env = prepared _ (exit_with-Preparing K 2)
  exec_command-Local (command ∷ args) env =
      let ending = prepared _ (give_up-Preparing K "failed to execute process" 127) in
      Emits-branching _ _ _ (Emits-perform K _ tt) Emits-pure (λ _. ending)

module _ (K : Kernel) (L : CapLibrary) (known : String → Bool) (opts : SandboxOptions) where
  setup_and_confine-Local : Emits Local (setup_and_confine K L known opts)
  unfolding setup_and_confine confine
  setup_and_confine-Local =
      search
        (
          or_exit-Local, setup_fs-Preparing, apply_caps-Preparing, setup_seccomp-Preparing,
          exec_command-Local,
        )
        depth 9

  pub after_wait-Local :
      Emits Local (set_hostname K opts.hostname >> setup_and_confine K L known opts)
  after_wait-Local =
      let named = prepared _ (set_hostname-Preparing K opts.hostname) in
      search (emits_rules, named, setup_and_confine-Local)

  -- Whatever the kernel answers, the child makes and writes no pipe, makes, kills and waits for no
  -- process, runs no helper, and touches neither a database nor the network, up to its command.
  pub child_main-Local : (rfd : ℕ) → Emits Local (child_main K L known opts rfd)
  unfolding child_main
  child_main-Local rfd =
      let waiting = prepared _ (wait_for_parent-Preparing K rfd) in
      let ending = prepared _ (exit_with-Preparing K 1) in
      search (emits_rules, waiting, ending, after_wait-Local) depth 9
