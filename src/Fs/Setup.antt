-- ===== src/Fs/Setup.antt =====
-- fs/fs.go: the three ways to set up the sandbox's root.
pub mod Contained
pub mod Root
pub mod Pivoted
use microbox.Base.{ℕ, String, Bool, true, false, not, List, [], ◌∷◌, if◌then◌else◌}
use microbox.Os.{
  private_mount, recursive, remount, rdonly, errno, einval, errorf, mount, Kernel, Io, pure, raise,
  ◌>>=◌, ◌>>◌, wrapping, perform, os_mkdir_all, for_each,
}
use microbox.Fs.Mount.{
  FsType, fs_tmpfs, fs_host, fs_rootfs, other_type, FsMount, MountSpec, OverlayFs, is_dir,
  bind_mount, create_tmpfs, create_overlay, pivot_to,
}
use microbox.Fs.Proc.{mount_proc}
use microbox.Fs.Dev.{mount_dev}
use microbox.Fs.Tmp.{mount_tmp}
use microbox.Fs.Etc.{setup_etc}

pub record FsOpts : Type 0 where
  pub nameservers : List String
  pub hostname : String
  pub fs : FsMount
  pub read_only : Bool
  pub mount_ro : List MountSpec
  pub mount_rw : List MountSpec
  pub storage : ℕ

module _ (K : Kernel) where
  -- The remount of `/` that starts each set-up: the sandbox's mounts stay its own.
  unfoldable pub make_private : Io (Unit {0})
  make_private = perform K (mount "" "/" "" (private_mount ∷ recursive ∷ []) "")

  -- The loops over `opts.MountRO` and `opts.MountRW`.
  unfoldable pub bind_user_mounts : String → FsOpts → Io (Unit {0})
  bind_user_mounts base opts = do
    for_each opts.mount_ro
        (λ m. bind_mount K base (record { host = m.host; dest = m.dest; ro = true }))
    for_each opts.mount_rw
        (λ m. bind_mount K base (record { host = m.host; dest = m.dest; ro = false }))

  -- Switch to the new root, and remount it read-only if requested.
  unfoldable pub switch_root : String → Bool → Io (Unit {0})
  switch_root base read_only = do
    pivot_to K base
    if read_only then perform K (mount "" "/" "" (remount ∷ rdonly ∷ []) "") else pure tt

  -- `setupRootfs`, from the mount of procfs on: `merge` is the overlay's merged directory.
  unfoldable pub setup_merged : FsOpts → String → Io (Unit {0})
  setup_merged opts merge = do
    wrapping "error mounting procfs" [] (mount_proc K merge)
    wrapping "error mounting devfs" [] (mount_dev K merge)
    wrapping "error mounting /tmp" [] (mount_tmp K merge)
    wrapping "error setting up /etc" [] (setup_etc K merge opts.nameservers opts.hostname)
    bind_user_mounts merge opts
    switch_root merge opts.read_only

  -- `setupRootfs`, from the tmpfs at /box on.
  unfoldable pub setup_layers : FsOpts → Io (Unit {0})
  setup_layers opts = do
    create_tmpfs K "/box" opts.storage
    os_mkdir_all K "/box/overlay" 0o755
    ov ← wrapping "error creating overlayfs" [] (create_overlay K opts.fs.path "/box/overlay")
    setup_merged opts ov.merge

  -- `setupRootfs`
  unfoldable pub setup_rootfs : FsOpts → Io (Unit {0})
  setup_rootfs opts = do
    make_private
    found ← is_dir K opts.fs.path
    if not found
        then raise (errorf "rootfs %q not a directory" (opts.fs.path ∷ []))
        else setup_layers opts

  -- `setupTmpfsRoot`, from the mount of procfs on: `base` is the tmpfs's directory.
  unfoldable pub setup_base : FsOpts → String → Io (Unit {0})
  setup_base opts base = do
    mount_proc K base
    mount_dev K base
    wrapping "error mounting /tmp" [] (mount_tmp K base)
    setup_etc K base opts.nameservers opts.hostname
    bind_user_mounts base opts
    switch_root base opts.read_only

  -- `setupTmpfsRoot`
  unfoldable pub setup_tmpfs_root : FsOpts → Io (Unit {0})
  setup_tmpfs_root opts = do
    make_private
    create_tmpfs K "/box" opts.storage
    setup_base opts "/box"

  -- `setupHostfsRoot`
  unfoldable pub setup_hostfs_root : FsOpts → Io (Unit {0})
  setup_hostfs_root opts = do
    make_private
    create_tmpfs K "/box" opts.storage
    bind_mount K "/box" (record { host = "/"; dest = "/"; ro = opts.read_only })
    pivot_to K "/box"

  -- The switch of `SetupFS`.
  unfoldable pub setup_in : FsOpts → FsType → Io (Unit {0})
  setup_in opts fs_host = setup_hostfs_root opts
  setup_in opts fs_tmpfs = setup_tmpfs_root opts
  setup_in opts fs_rootfs = setup_rootfs opts
  setup_in opts (other_type n) = raise (errno einval)

  -- `SetupFS`
  unfoldable pub setup_fs : FsOpts → Io (Unit {0})
  setup_fs opts = setup_in opts opts.fs.mode
