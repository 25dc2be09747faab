-- ===== src/Fs/Proc.antt =====
-- fs/procfs.go: the proc file system, with masked and read-only parts.
use microbox.Base.{String, Bool, List, [], ◌∷◌, ◌||◌, if◌then◌else◌}
use microbox.Base.Text.{is_empty}
use microbox.Filepath.{join}
use microbox.Fs.Mount.{is_directory_kind}
use microbox.Os.{
  bind, nosuid, nodev, noexec, remount, rdonly, errno, einval, wrapf, is_not_exist, is_enotdir,
  mount, detach, Kernel, Io, pure, raise, ◌>>=◌, ◌>>◌, branching, ignoring, wrapping, perform,
  do_lstat, os_mkdir_all, for_each,
}

abbrev pub read_only_proc_paths : List String
read_only_proc_paths =
    "/proc/sys" ∷ "/proc/sysrq-trigger" ∷ "/proc/irq" ∷ "/proc/bus" ∷ "/proc/fs" ∷ []

abbrev pub masked_proc_paths : List String
masked_proc_paths =
    "/proc/asound" ∷ "/proc/acpi" ∷ "/proc/interrupts" ∷ "/proc/kcore" ∷ "/proc/keys"
    ∷ "/proc/latency_stats" ∷ "/proc/timer_list" ∷ "/proc/timer_stats" ∷ "/proc/sched_debug"
    ∷ "/proc/scsi" ∷ "/proc/firmware" ∷ "/proc/devices/virtual/powercap" ∷ []

module _ (K : Kernel) where
  -- `isDirectory`
  unfoldable pub is_directory : String → Io Bool
  is_directory path = do kind ← do_lstat K path; pure (is_directory_kind kind)

  -- The remount that follows a bind onto a path of /proc. If it fails, a detach is tried, whose
  -- error is dropped, and the loop goes on.
  unfoldable pub seal : String → Io (Unit {0})
  seal t =
      branching
        (perform K (mount "" t "" (bind ∷ remount ∷ rdonly ∷ nosuid ∷ nodev ∷ noexec ∷ []) ""))
        (λ _. pure tt) (λ _. ignoring (perform K (detach t)))

  -- A failed bind leaves the path as it is and the loop goes on.
  unfoldable pub bind_and_seal : String → String → Io (Unit {0})
  bind_and_seal source t =
      branching (perform K (mount source t "" (bind ∷ []) "")) (λ _. seal t) (λ _. pure tt)

  unfoldable pub mask : String → Io (Unit {0})
  mask t = do
    is_a_directory ← wrapping "isDirectory %s" (t ∷ []) (is_directory t)
    if is_a_directory
        then ignoring
            (perform K (mount "tmpfs" t "tmpfs" (nosuid ∷ noexec ∷ nodev ∷ rdonly ∷ []) "size=0"))
        else bind_and_seal "/dev/null" t

  -- One round of the first loop, over `maskedProcPaths`.
  unfoldable pub mask_path : String → String → Io (Unit {0})
  mask_path base sub =
      let t = join base sub in
      branching (do_lstat K t) (λ _. mask t)
        (λ e.
          if is_not_exist e || is_enotdir e then pure tt else raise (wrapf "stat %s" (t ∷ []) e))

  -- One round of the second loop, over `readOnlyProcPaths`.
  unfoldable pub protect_path : String → String → Io (Unit {0})
  protect_path base sub =
      let t = join base sub in
      branching (do_lstat K t) (λ _. bind_and_seal t t)
        (λ e. if is_not_exist e then pure tt else raise (wrapf "stat %s" (t ∷ []) e))

  -- `MountProc`
  unfoldable pub mount_proc : String → Io (Unit {0})
  mount_proc base = if is_empty base then raise (errno einval) else do
    os_mkdir_all K (join base "/proc") 0o755
    perform K (mount "proc" (join base "/proc") "proc" (nosuid ∷ noexec ∷ nodev ∷ []) "")
    for_each masked_proc_paths (mask_path base)
    for_each read_only_proc_paths (protect_path base)
