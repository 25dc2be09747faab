-- ===== src/Options/Cli.antt =====
-- options/options.go: the options of a sandbox from the flags of the command line. The flags
-- themselves are read by the cli library, and sizes by the bytesize library.
pub mod Checked
use microbox.Base.{
  ℕ, String, Bool, true, false, ◌&&◌, ◌||◌, Option, none, some, List, [], ◌∷◌, if◌then◌else◌,
}
use microbox.Os.{
  Error, errorf, show_help, Result, ok, err, Reply, got, failed, Kernel, Io, pure, raise, lift,
  ◌>>=◌, ◌>>◌, wrapping, branching, tell,
}
use microbox.Net.{NetworkMode}
use microbox.Fs.Mount.{FsMount, FsType, fs_host, fs_tmpfs, fs_rootfs, MountSpec}
use microbox.Sandbox.Capabilities.{CapLibrary, CapabilityOpts, new_cap_set, from_capabilities}
use microbox.Sandbox.Cgroup.{CpuShare}
use microbox.Sandbox.Env.{EnvVar}
use microbox.Sandbox.Flags.{UserNamespaceMode, SandboxOptions}
use microbox.Options.{parse_env, parse_mount, parse_net_mode, parse_user_namespace, parse_fs_mode}
use microbox.Options.Env.{default_environment, merge_env}
use microbox.Options.Logging.{LogLevel, LogFormat, parse_log_level, parse_log_format}

-- The values of the flags, as the cli library gives them.
pub record CliFlags : Type 0 where
  pub fs : String
  pub net : String
  pub mount_ro : List String
  pub mount_rw : List String
  pub readonly : Bool
  pub env : List String
  pub allow_syscall : List String
  pub deny_syscall : List String
  pub dns : List String
  pub hostname : String
  pub cpus : CpuShare
  pub memory : String
  pub storage : String
  pub log_level : String
  pub log_format : String
  pub cap_add : List String
  pub cap_drop : List String
  pub userns : String
  pub args : List String

-- The values of the flags that are not given. The host's name is made up by a library.
abbrev pub default_cli_flags : String → CliFlags
default_cli_flags hostname = record {
  fs = "tmpfs";
  net = "none";
  mount_ro = [];
  mount_rw = [];
  readonly = false;
  env = [];
  allow_syscall = [];
  deny_syscall = [];
  dns = [];
  hostname = hostname;
  cpus = record { unlimited = false; quota = 100000 };
  memory = "1GB";
  storage = "512MB";
  log_level = "error";
  log_format = "text";
  cap_add = [];
  cap_drop = [];
  userns = "isolated";
  args = [];
}

-- What the command line sets: the options that the sandbox reads, its limits, and the log's.
pub record CliOptions : Type 0 where
  pub sandbox : SandboxOptions
  pub cpus : CpuShare
  pub memory : ℕ
  pub log_level : LogLevel
  pub log_format : LogFormat

-- The bytesize library: a size in bytes, or nothing if the text is none.
abbrev pub ByteSize : Type 0
ByteSize = String → Option ℕ

abbrev pub size_or : String → String → Option ℕ → Result ℕ
size_or format text (some n) = ok n
size_or format text none = err (errorf format (text ∷ []))

-- A loop that parses each text and appends what it is.
unfoldable pub parse_each {ℓ} : {A : Type ℓ} → (String → Result A) → List String → Io (List A)
parse_each parse [] = pure []
parse_each parse (x ∷ xs) = do a ← lift (parse x); rest ← parse_each parse xs; pure (a ∷ rest)

abbrev pub is_host_fs : FsType → Bool
is_host_fs fs_host = true
is_host_fs _ = false

abbrev pub has_mounts : List MountSpec → Bool
has_mounts [] = false
has_mounts (m ∷ ms) = true

-- The cross-option checks.
unfoldable pub check_options : CliOptions → Io CliOptions
check_options o =
    if is_host_fs o.sandbox.fs.mode
      && (has_mounts o.sandbox.mount_ro || has_mounts o.sandbox.mount_rw)
    then raise (errorf "--fs host conflicts with --mount-* (requires private mount ns)" [])
    else pure o

-- The values that flags of one text have.
pub record CliValues : Type 0 where
  pub memory : ℕ
  pub storage : ℕ
  pub namespace_mode : UserNamespaceMode
  pub log_level : LogLevel
  pub log_format : LogFormat
  pub fs : FsMount
  pub net : NetworkMode

-- The values that flags of several texts have.
pub record CliLists : Type 0 where
  pub mount_ro : List MountSpec
  pub mount_rw : List MountSpec
  pub env : List EnvVar
  pub capabilities : CapabilityOpts

abbrev pub assemble : CliFlags → CliValues → CliLists → CliOptions
assemble c v w = record {
  sandbox = record {
    fs = v.fs;
    read_only = c.readonly;
    net = v.net;
    mount_ro = w.mount_ro;
    mount_rw = w.mount_rw;
    capabilities = w.capabilities;
    namespace_mode = v.namespace_mode;
    name_serv = c.dns;
    env = merge_env default_environment w.env;
    allow_sys = c.allow_syscall;
    deny_sys = c.deny_syscall;
    commands = [];
    hostname = c.hostname;
    storage = v.storage;
  };
  cpus = c.cpus;
  memory = v.memory;
  log_level = v.log_level;
  log_format = v.log_format;
}

module _ (K : Kernel) (C : CapLibrary) (parse_size : ByteSize) where
  unfoldable pub parse_values : CliFlags → Io CliValues
  parse_values c = do
    memory ← lift (size_or "bad --memory %q: %v" c.memory (parse_size c.memory))
    storage ← lift (size_or "bad --storage %q: %v" c.storage (parse_size c.storage))
    namespace_mode ← lift (parse_user_namespace c.userns)
    log_level ← lift (parse_log_level c.log_level)
    log_format ← lift (parse_log_format c.log_format)
    mode ← parse_fs_mode K c.fs
    net ← lift (parse_net_mode c.net)
    pure (record {
      memory = memory;
      storage = storage;
      namespace_mode = namespace_mode;
      log_level = log_level;
      log_format = log_format;
      fs = mode;
      net = net;
    })

  unfoldable pub parse_lists : CliFlags → Io CliLists
  parse_lists c = do
    mount_ro ← parse_each (λ m. parse_mount m true) c.mount_ro
    mount_rw ← parse_each (λ m. parse_mount m false) c.mount_rw
    env ← parse_each parse_env c.env
    add_ids ← wrapping "bad --cap-add: %w" [] (lift (from_capabilities C c.cap_add))
    drop_ids ← wrapping "bad --cap-drop: %w" [] (lift (from_capabilities C c.cap_drop))
    pure (record {
      mount_ro = mount_ro;
      mount_rw = mount_rw;
      env = env;
      capabilities = record { add = new_cap_set add_ids; drop = new_cap_set drop_ids };
    })

  -- `buildOptionsFromCLI`
  unfoldable pub build_options_from_cli : CliFlags → Io CliOptions
  build_options_from_cli c = do
    values ← parse_values c
    lists ← parse_lists c
    check_options (assemble c values lists)

  abbrev pub with_commands : CliOptions → List String → CliOptions
  with_commands o argv = record o { sandbox = record o.sandbox { commands = argv } }

  unfoldable pub set_commands : CliOptions → List String → Io CliOptions
  set_commands o [] =
      raise (errorf "missing command; usage: microbox [options] -- command [args...]" [])
  set_commands o (arg ∷ argv) = pure (with_commands o (arg ∷ argv))

  -- The action of the command.
  unfoldable pub run_action : CliFlags → Io CliOptions
  run_action c = do opts ← build_options_from_cli c; set_commands opts c.args

-- What the cli library does with the arguments: it rejects them, it answers them itself (help and
-- version), or it runs the action with the flags.
pub data CliRun : Type 0 where
  rejected : Error → CliRun
  answered : CliRun
  acting : CliFlags → CliRun

module _ (K : Kernel) (C : CapLibrary) (parse_size : ByteSize) where
  unfoldable pub run_command : CliRun → Io (Option CliOptions)
  run_command (rejected e) = raise e
  run_command answered = pure none
  run_command (acting c) = run_action K C parse_size c >>= λ o. pure (some o)

  -- `ParseCli`, where the library does this with the arguments.
  unfoldable pub parse_cli : CliRun → Io (Option CliOptions)
  parse_cli r = branching (run_command r) pure (λ e. tell show_help >> raise e)
