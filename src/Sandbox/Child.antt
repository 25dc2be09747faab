-- ===== src/Sandbox/Child.antt =====
-- sandbox/sandbox.go: what the child of `NewSandbox` does, from `pid == 0` on. An exit and a
-- successful exec are the last call that it makes.
pub mod Preparing
pub mod Local
pub mod Launched
use microbox.Base.{ℕ, String, Bool, true, false, List, [], ◌∷◌, if◌then◌else◌}
use microbox.Base.Text.{is_empty}
use microbox.Os.{
  sethostname, exec, exit, Kernel, Io, pure, ◌>>=◌, ◌>>◌, branching, ignoring, perform, log_warn,
  log_error,
}
use microbox.Fs.Setup.{FsOpts, setup_fs}
use microbox.Sandbox.Capabilities.{CapLibrary, apply_caps}
use microbox.Sandbox.Seccomp.{setup_seccomp}
use microbox.Sandbox.Env.{to_string_array}
use microbox.Sandbox.Pipe.{wait_for_parent}
use microbox.Sandbox.Flags.{SandboxOptions}

-- The options that `SetupFS` is given.
abbrev pub fs_opts : SandboxOptions → FsOpts
fs_opts opts = record {
  nameservers = opts.name_serv;
  hostname = opts.hostname;
  fs = opts.fs;
  read_only = opts.read_only;
  mount_ro = opts.mount_ro;
  mount_rw = opts.mount_rw;
  storage = opts.storage;
}

module _ (K : Kernel) where
  unfoldable pub exit_with : ℕ → Io (Unit {0})
  exit_with code = ignoring (perform K (exit code))

  -- `if err := m; err != nil { logger.Log.Error(message); unix.Exit(1) }`, and then the rest.
  unfoldable pub or_exit : String → Io (Unit {0}) → Io (Unit {0}) → Io (Unit {0})
  or_exit message m rest = branching m (λ _. rest) (λ _. log_error K message >> exit_with 1)

  -- A hostname that cannot be set is only warned about.
  unfoldable pub set_hostname : String → Io (Unit {0})
  set_hostname hostname =
      if is_empty hostname
      then pure tt
      else branching (perform K (sethostname hostname)) pure
          (λ _. log_warn K "setting sandbox hostname failed")

  -- The command. Without one, `opts.Commands[0]` panics, and Go exits with 2.
  unfoldable pub exec_command : List String → List String → Io (Unit {0})
  exec_command [] env = exit_with 2
  exec_command (command ∷ args) env =
      branching (perform K (exec command (command ∷ args) env)) pure
        (λ _. log_error K "failed to execute process" >> exit_with 127)

module _ (K : Kernel) (L : CapLibrary) (known : String → Bool) (opts : SandboxOptions) where
  -- What follows the root file system, and what follows the hostname.
  unfoldable pub confine : Io (Unit {0})
  confine = or_exit K "failed to apply capabilities" (apply_caps L K opts.capabilities) (
      or_exit K "failed to setup seccomp rules" (setup_seccomp K known opts.allow_sys opts.deny_sys)
        (exec_command K opts.commands (to_string_array opts.env)))

  unfoldable pub setup_and_confine : Io (Unit {0})
  setup_and_confine = or_exit K "failed to setup filesystem" (setup_fs K (fs_opts opts)) confine

  -- The child, with the read end of the pipe.
  unfoldable pub child_main : ℕ → Io (Unit {0})
  child_main rfd =
      branching (wait_for_parent K rfd) (λ _. set_hostname K opts.hostname >> setup_and_confine)
        (λ _. exit_with K 1)
