-- ===== src/Sandbox/Cgroup.antt =====
-- sandbox/cgroup.go: the control group that limits the sandbox.
pub mod Limits
use microbox.Base.{
  ℕ, String, ◌<>◌, Bool, true, false, List, [], ◌∷◌, Option, none, some, if◌then◌else◌, ◌=ᵇ◌,
}
use microbox.Base.Text.{is_empty}
use microbox.Base.Decimal.{decimal}
use microbox.Base.Space.{ℤ, fields, atoi}
use microbox.Filepath.{join}
use microbox.Os.{
  Errno, Error, errno, is_exist, is_not_exist, is_ebusy, Call, open_file, close_file, append_file,
  read_file, remove, kill, now, Result, ok, err, Reply, got, failed, Kernel, Io, pure, raise, lift,
  ◌>>=◌, ◌>>◌, ask, query, wrapping, tolerating, ignoring, finally, branching, perform, for_each,
  os_mkdir, os_write_file,
}

-- The `float64` of the CPU limit, and what the program computes with it.
pub record CpuShare : Type 0 where
  -- `cpus <= 0`
  pub unlimited : Bool
  -- `uint64(cpus * 100000)`
  pub quota : ℕ

abbrev pub cg_root : String
cg_root = "/sys/fs/cgroup"

abbrev pub cg_parent : String
cg_parent = "/sys/fs/cgroup/microbox"

-- Where the file ends the loop with an error, nothing more is read.
abbrev pub text_or_error : String × Option Errno → Result String
text_or_error (text, none) = ok text
text_or_error (text, some e) = err (errno e)

-- The CPU limit of `SetupCgroupLimits`, in each period of 100 ms.
unfoldable pub cpu_line : CpuShare → String
cpu_line cpus = if cpus.unlimited then "max 100000" else decimal cpus.quota <> " " <> "100000"

module _ (K : Kernel) where
  -- `os.ReadFile`
  unfoldable pub os_read_file : String → Io String
  os_read_file path = do r ← ask (read_file path) (λ l. K.read_file l path); lift (text_or_error r)

  -- The loop of `enableControllers`: a busy controller is passed over.
  unfoldable pub enable_all : String → List String → Io (Unit {0})
  enable_all path ctrls =
      for_each ctrls λ c. tolerating is_ebusy (perform K (append_file path ("+" <> c)))

  -- `enableControllers`
  unfoldable pub enable_controllers : String → List String → Io (Unit {0})
  enable_controllers parent_path ctrls =
      let path = join parent_path "cgroup.subtree_control" in
      perform K (open_file path) >> finally (enable_all path ctrls) (perform K (close_file path))

  -- `EnsureCgroupParent`
  unfoldable pub ensure_cgroup_parent : Io (Unit {0})
  ensure_cgroup_parent = do
    wrapping "mkdir %s: %w" (cg_parent ∷ []) (tolerating is_exist (os_mkdir K cg_parent 0o755))
    wrapping "enable controllers on %s: %w" (cg_root ∷ [])
        (enable_controllers cg_root ("cpu" ∷ "memory" ∷ []))
    wrapping "enable controllers on %s: %w" (cg_parent ∷ [])
        (enable_controllers cg_parent ("cpu" ∷ "memory" ∷ []))

  unfoldable pub set_cpu : String → CpuShare → Io (Unit {0})
  set_cpu cg_path cpus =
      wrapping "write cpu.max: %w" []
        (os_write_file K (join cg_path "cpu.max") (cpu_line cpus) 0o644)

  -- The memory limit: swap is turned off as well, if it can be.
  unfoldable pub limit_memory : String → ℕ → Io (Unit {0})
  limit_memory cg_path memory = do
    wrapping "write memory.max: %w" []
        (os_write_file K (join cg_path "memory.max") (decimal memory) 0o644)
    ignoring (os_write_file K (join cg_path "memory.swap.max") "0" 0o644)

  unfoldable pub set_memory : String → ℕ → Io (Unit {0})
  set_memory cg_path memory =
      if memory =ᵇ 0
      then wrapping "write memory.max: %w" []
          (os_write_file K (join cg_path "memory.max") "max" 0o644)
      else limit_memory cg_path memory

  -- The group, once its directory is there.
  unfoldable pub fill_cgroup : String → ℕ → CpuShare → ℕ → Io String
  fill_cgroup cg_path pid cpus memory = do
    set_cpu cg_path cpus
    set_memory cg_path memory
    wrapping "attach pid to cgroup: %w" []
        (os_write_file K (join cg_path "cgroup.procs") (decimal pid) 0o644)
    pure cg_path

  -- `SetupCgroupLimits`: the path of the group.
  unfoldable pub setup_cgroup_limits : ℕ → CpuShare → ℕ → Io String
  setup_cgroup_limits pid cpus memory = do
    ensure_cgroup_parent
    t ← query now K.now
    wrapping "mkdir %s: %w" (join cg_parent (decimal pid <> "-" <> decimal t) ∷ [])
        (tolerating is_exist (os_mkdir K (join cg_parent (decimal pid <> "-" <> decimal t)) 0o755))
    fill_cgroup (join cg_parent (decimal pid <> "-" <> decimal t)) pid cpus memory

  unfoldable pub kill_number : Option ℤ → Io (Unit {0})
  kill_number none = pure tt
  kill_number (some pid) = ignoring (perform K (kill pid 15)) >> ignoring (perform K (kill pid 9))

  -- One round of the fallback of `CleanupCgroup`: SIGTERM and SIGKILL to a number.
  unfoldable pub kill_word : String → Io (Unit {0})
  kill_word f = kill_number (atoi f)

  -- The fallback.
  unfoldable pub kill_members : String → Io (Unit {0})
  kill_members cg_path = do
    b ← os_read_file (join cg_path "cgroup.procs")
    for_each (fields b) kill_word

  -- The removal of `CleanupCgroup`, which ends it.
  unfoldable pub remove_group : String → Io (Unit {0})
  remove_group cg_path = tolerating is_not_exist (perform K (remove cg_path))

  -- `CleanupCgroup`
  unfoldable pub cleanup_cgroup : String → Io (Unit {0})
  cleanup_cgroup cg_path = if is_empty cg_path then pure tt else do
    branching (tolerating is_not_exist (os_write_file K (join cg_path "cgroup.kill") "1" 0o644))
        pure (λ _. ignoring (kill_members cg_path))
    remove_group cg_path
