-- ===== src/Fs/Dev.antt =====
-- fs/devfs.go: the sandbox's /dev.
use microbox.Base.{String, false, List, [], ◌∷◌, ◌||◌, if◌then◌else◌}
use microbox.Base.Text.{is_empty}
use microbox.Filepath.{join}
use microbox.Os.{
  nosuid, nodev, noexec, strictatime, errno, einval, is_exist, is_einval, mount, remove, symlink,
  Kernel, Io, raise, ◌>>◌, ignoring, tolerating, perform, os_mkdir_all, for_each,
}
use microbox.Fs.Mount.{bind_mount}

abbrev pub dev_allowlist : List String
dev_allowlist = "/dev/null" ∷ "/dev/zero" ∷ "/dev/random" ∷ "/dev/urandom" ∷ "/dev/tty" ∷ []

module _ (K : Kernel) where
  -- `linkDev`
  unfoldable pub link_dev : String → String → Io (Unit {0})
  link_dev src dest =
      if is_empty src || is_empty dest
      then raise (errno einval)
      else do ignoring (perform K (remove dest)); tolerating is_exist (perform K (symlink src dest))

  unfoldable pub bind_device : String → String → Io (Unit {0})
  bind_device base p = ignoring (bind_mount K base (record { host = p; dest = p; ro = false }))

  unfoldable pub mount_dev_filesystems : String → Io (Unit {0})
  mount_dev_filesystems base = do
    os_mkdir_all K (join base "/dev") 0o755
    perform K (
        mount "tmpfs" (join base "/dev") "tmpfs" (nosuid ∷ noexec ∷ strictatime ∷ [])
          "mode=755,size=65536k")
    os_mkdir_all K (join base "/dev/pts") 0o755
    tolerating is_einval (
        perform K (
          mount "devpts" (join base "/dev/pts") "devpts" (nosuid ∷ noexec ∷ [])
            "newinstance,ptmxmode=0666,mode=0620"))
    link_dev "/dev/pts/ptmx" (join base "/dev/ptmx")
    os_mkdir_all K (join base "/dev/shm") 0o777
    perform K (
        mount "tmpfs" (join base "/dev/shm") "tmpfs" (nosuid ∷ noexec ∷ nodev ∷ [])
          "mode=1777,size=65536k")
    os_mkdir_all K (join base "/dev/mqueue") 0o755
    tolerating is_einval (
        perform K
          (mount "mqueue" (join base "/dev/mqueue") "mqueue" (nosuid ∷ noexec ∷ nodev ∷ []) ""))

  unfoldable pub link_dev_files : String → Io (Unit {0})
  link_dev_files base = do
    link_dev "/proc/self/fd" (join base "/dev/fd")
    link_dev "/proc/self/fd/0" (join base "/dev/stdin")
    link_dev "/proc/self/fd/1" (join base "/dev/stdout")
    link_dev "/proc/self/fd/2" (join base "/dev/stderr")
    link_dev "/proc/kcore" (join base "/dev/core")

  -- `MountDev`
  unfoldable pub mount_dev : String → Io (Unit {0})
  mount_dev base = if is_empty base then raise (errno einval) else do
    mount_dev_filesystems base
    link_dev_files base
    for_each dev_allowlist (bind_device base)
