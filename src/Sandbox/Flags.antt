-- ===== src/Sandbox/Flags.antt =====
-- sandbox/sandbox.go: the options of a sandbox and the namespaces that it gets.
pub mod Laws
use microbox.Base.{ℕ, String, Bool, true, false, List, [], ◌∷◌, ◌++◌, if◌then◌else◌}
use microbox.Net.{NetworkMode, net_none, net_host, net_bridge, other_network}
use microbox.Os.{
  null, pidfd_variable, CloneArgs, CloneFlag, newpid, newuts, newipc, pidfd, newcgroup, newtime,
  newns, newnet, newuser,
}
use microbox.Fs.Mount.{FsMount, MountSpec}
use microbox.Sandbox.Capabilities.{CapabilityOpts}
use microbox.Sandbox.Env.{EnvVar}

pub data UserNamespaceMode : Type 0 where
  user_namespace_error user_namespace_isolated user_namespace_host : UserNamespaceMode
  other_user_namespace : ℕ → UserNamespaceMode

-- The fields that the sandbox reads, but for the limits of the control group.
pub record SandboxOptions : Type 0 where
  pub fs : FsMount
  pub read_only : Bool
  pub net : NetworkMode
  pub mount_ro : List MountSpec
  pub mount_rw : List MountSpec
  pub capabilities : CapabilityOpts
  pub namespace_mode : UserNamespaceMode
  pub name_serv : List String
  pub env : List EnvVar
  pub allow_sys : List String
  pub deny_sys : List String
  pub commands : List String
  pub hostname : String
  pub storage : ℕ

-- The flags, in the order in which the source names them: their bits are different.
abbrev pub default_flags : List CloneFlag
default_flags = newpid ∷ newuts ∷ newipc ∷ pidfd ∷ newcgroup ∷ newtime ∷ newns ∷ []

abbrev pub is_net_host : NetworkMode → Bool
is_net_host net_host = true
is_net_host net_none = false
is_net_host net_bridge = false
is_net_host (other_network n) = false

abbrev pub is_user_namespace_host : UserNamespaceMode → Bool
is_user_namespace_host user_namespace_host = true
is_user_namespace_host user_namespace_error = false
is_user_namespace_host user_namespace_isolated = false
is_user_namespace_host (other_user_namespace n) = false

-- `createSandboxFlags`
unfoldable pub create_sandbox_flags : SandboxOptions → List CloneFlag
create_sandbox_flags opts =
    let flags = if is_net_host opts.net then default_flags else default_flags ++ newnet ∷ [] in
    if is_user_namespace_host opts.namespace_mode then flags else flags ++ newuser ∷ []

abbrev pub sigchld : ℕ
sigchld = 17

-- What `NewSandbox` gives to clone3: the fields that it leaves out are zero.
unfoldable pub clone_args : SandboxOptions → CloneArgs
clone_args opts = record {
  flags = create_sandbox_flags opts;
  pid_fd = pidfd_variable;
  child_tid = null;
  parent_tid = null;
  exit_signal = sigchld;
  stack = 0;
  stack_size = 0;
  tls = 0;
  set_tid = null;
  set_tid_size = 0;
  cgroup = 0;
}
