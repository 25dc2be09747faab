-- ===== src/Fs/Preparing.antt =====
-- Which kinds of calls set up the root.
use microbox.Base.{ℕ, String, Bool, true, false, List}
use microbox.Os.{
  FileKind, directory, symbolic_link, unknown_kind, Kernel, os_mkdir_all, os_create_file,
  os_write_file, os_chmod, log_warn,
}
use microbox.Os.Kinds.{Preparing}
use microbox.Os.Keeps.{Emits, emits_rules, Emits-each}
use microbox.Fs.Mount.{
  FsType, fs_tmpfs, fs_host, fs_rootfs, other_type, MountSpec, is_dir, make_target,
  remount_read_only, bind_onto, bind_mount, create_tmpfs, create_overlay, pivot_to,
}
use microbox.Fs.Proc.{is_directory, seal, bind_and_seal, mask, mask_path, protect_path, mount_proc}
use microbox.Fs.Dev.{link_dev, bind_device, mount_dev_filesystems, link_dev_files, mount_dev}
use microbox.Fs.Tmp.{mount_tmp}
use microbox.Fs.Etc.{remove_if_symlink, set_resolvers, warn_if_error, setup_etc}
use microbox.Fs.Setup.{
  FsOpts, make_private, bind_user_mounts, switch_root, setup_merged, setup_layers, setup_rootfs,
  setup_base, setup_tmpfs_root, setup_hostfs_root, setup_in, setup_fs,
}

module _ (K : Kernel) where
  make_target-Preparing :
      (kind : FileKind) (host target : String) → Emits Preparing (make_target K kind host target)
  unfolding make_target os_mkdir_all os_create_file
  make_target-Preparing directory host target = search emits_rules
  make_target-Preparing symbolic_link host target = search emits_rules
  make_target-Preparing unknown_kind host target = search emits_rules
  make_target-Preparing _ host target = search emits_rules depth 9

  remount-Preparing :
      (ro : Bool) (target : String) → Emits Preparing (remount_read_only K ro target)
  unfolding remount_read_only
  remount-Preparing true target = search emits_rules
  remount-Preparing false target = search emits_rules

  bind_mount-Preparing :
      (base : String) (spec : MountSpec) → Emits Preparing (bind_mount K base spec)
  unfolding bind_mount bind_onto
  bind_mount-Preparing base spec =
      search (emits_rules, make_target-Preparing, remount-Preparing) depth 9

  is_dir-Preparing : (path : String) → Emits Preparing (is_dir K path)
  unfolding is_dir
  is_dir-Preparing path = search emits_rules

  create_tmpfs-Preparing :
      (path : String) (storage : ℕ) → Emits Preparing (create_tmpfs K path storage)
  unfolding create_tmpfs os_mkdir_all
  create_tmpfs-Preparing path storage = search emits_rules

  create_overlay-Preparing :
      (src mountpoint : String) → Emits Preparing (create_overlay K src mountpoint)
  unfolding create_overlay os_mkdir_all
  create_overlay-Preparing src mountpoint = search emits_rules depth 12

  pivot_to-Preparing : (base : String) → Emits Preparing (pivot_to K base)
  unfolding pivot_to os_mkdir_all
  pivot_to-Preparing base = search emits_rules depth 12

  is_directory-Preparing : (path : String) → Emits Preparing (is_directory K path)
  unfolding is_directory
  is_directory-Preparing path = search emits_rules

  seal-Preparing : (t : String) → Emits Preparing (seal K t)
  unfolding seal
  seal-Preparing t = search emits_rules

  bind_and_seal-Preparing : (source t : String) → Emits Preparing (bind_and_seal K source t)
  unfolding bind_and_seal
  bind_and_seal-Preparing source t = search (emits_rules, seal-Preparing)

  mask-Preparing : (t : String) → Emits Preparing (mask K t)
  unfolding mask
  mask-Preparing t = search (emits_rules, is_directory-Preparing, bind_and_seal-Preparing) depth 9

  mask_path-Preparing : (base sub : String) → Emits Preparing (mask_path K base sub)
  unfolding mask_path
  mask_path-Preparing base sub = search (emits_rules, mask-Preparing) depth 9

  protect_path-Preparing : (base sub : String) → Emits Preparing (protect_path K base sub)
  unfolding protect_path
  protect_path-Preparing base sub = search (emits_rules, bind_and_seal-Preparing) depth 9

  mount_proc-Preparing : (base : String) → Emits Preparing (mount_proc K base)
  unfolding mount_proc os_mkdir_all
  mount_proc-Preparing base =
      search (emits_rules, Emits-each, mask_path-Preparing, protect_path-Preparing) depth 9

  link_dev-Preparing : (src dest : String) → Emits Preparing (link_dev K src dest)
  unfolding link_dev
  link_dev-Preparing src dest = search emits_rules depth 9

  bind_device-Preparing : (base p : String) → Emits Preparing (bind_device K base p)
  unfolding bind_device
  bind_device-Preparing base p = search (emits_rules, bind_mount-Preparing)

  mount_dev_filesystems-Preparing : (base : String) → Emits Preparing (mount_dev_filesystems K base)
  unfolding mount_dev_filesystems os_mkdir_all
  mount_dev_filesystems-Preparing base = search (emits_rules, link_dev-Preparing) depth 14

  link_dev_files-Preparing : (base : String) → Emits Preparing (link_dev_files K base)
  unfolding link_dev_files
  link_dev_files-Preparing base = search (emits_rules, link_dev-Preparing) depth 9

  mount_dev-Preparing : (base : String) → Emits Preparing (mount_dev K base)
  unfolding mount_dev
  mount_dev-Preparing base =
      search
        (
          emits_rules, Emits-each, mount_dev_filesystems-Preparing, link_dev_files-Preparing,
          bind_device-Preparing,
        )
        depth 9

  mount_tmp-Preparing : (base : String) → Emits Preparing (mount_tmp K base)
  unfolding mount_tmp os_mkdir_all os_chmod
  mount_tmp-Preparing base = search emits_rules

  remove_if_symlink-Preparing :
      (path : String) (kind : FileKind) → Emits Preparing (remove_if_symlink K path kind)
  unfolding remove_if_symlink
  remove_if_symlink-Preparing path symbolic_link = search emits_rules
  remove_if_symlink-Preparing path _ = search emits_rules

  set_resolvers-Preparing :
      (base : String) (nameservers : List String)
      → Emits Preparing (set_resolvers K base nameservers)
  unfolding set_resolvers os_mkdir_all os_write_file
  set_resolvers-Preparing base nameservers =
      search (emits_rules, remove_if_symlink-Preparing) depth 9

  setup_etc-Preparing :
      (base : String) (nameservers : List String) (hostname : String)
      → Emits Preparing (setup_etc K base nameservers hostname)
  unfolding setup_etc warn_if_error os_mkdir_all os_write_file log_warn
  setup_etc-Preparing base nameservers hostname =
      search (emits_rules, set_resolvers-Preparing, bind_mount-Preparing) depth 12

  bind_user_mounts-Preparing :
      (base : String) (opts : FsOpts) → Emits Preparing (bind_user_mounts K base opts)
  unfolding bind_user_mounts
  bind_user_mounts-Preparing base opts =
      search (emits_rules, Emits-each, bind_mount-Preparing) depth 9

  switch_root-Preparing : (base : String) (ro : Bool) → Emits Preparing (switch_root K base ro)
  unfolding switch_root
  switch_root-Preparing base ro = search (emits_rules, pivot_to-Preparing)

  make_private-Preparing : Emits Preparing (make_private K)
  unfolding make_private
  make_private-Preparing = search emits_rules

  setup_merged-Preparing :
      (opts : FsOpts) (merge : String) → Emits Preparing (setup_merged K opts merge)
  unfolding setup_merged
  setup_merged-Preparing opts merge =
      search
        (
          emits_rules, mount_proc-Preparing, mount_dev-Preparing, mount_tmp-Preparing,
          setup_etc-Preparing, bind_user_mounts-Preparing, switch_root-Preparing,
        )
        depth 9

  setup_layers-Preparing : (opts : FsOpts) → Emits Preparing (setup_layers K opts)
  unfolding setup_layers os_mkdir_all
  setup_layers-Preparing opts =
      search (emits_rules, create_tmpfs-Preparing, create_overlay-Preparing, setup_merged-Preparing)
        depth 9

  setup_rootfs-Preparing : (opts : FsOpts) → Emits Preparing (setup_rootfs K opts)
  unfolding setup_rootfs
  setup_rootfs-Preparing opts =
      search (emits_rules, make_private-Preparing, is_dir-Preparing, setup_layers-Preparing) depth 9

  setup_base-Preparing : (opts : FsOpts) (base : String) → Emits Preparing (setup_base K opts base)
  unfolding setup_base
  setup_base-Preparing opts base =
      search
        (
          emits_rules, mount_proc-Preparing, mount_dev-Preparing, mount_tmp-Preparing,
          setup_etc-Preparing, bind_user_mounts-Preparing, switch_root-Preparing,
        )
        depth 9

  setup_tmpfs_root-Preparing : (opts : FsOpts) → Emits Preparing (setup_tmpfs_root K opts)
  unfolding setup_tmpfs_root
  setup_tmpfs_root-Preparing opts =
      search (emits_rules, make_private-Preparing, create_tmpfs-Preparing, setup_base-Preparing)

  setup_hostfs_root-Preparing : (opts : FsOpts) → Emits Preparing (setup_hostfs_root K opts)
  unfolding setup_hostfs_root
  setup_hostfs_root-Preparing opts = search (
    emits_rules, make_private-Preparing, create_tmpfs-Preparing, bind_mount-Preparing,
    pivot_to-Preparing,
  )

  setup_in-Preparing : (opts : FsOpts) (mode : FsType) → Emits Preparing (setup_in K opts mode)
  unfolding setup_in
  setup_in-Preparing opts fs_host = setup_hostfs_root-Preparing opts
  setup_in-Preparing opts fs_tmpfs = setup_tmpfs_root-Preparing opts
  setup_in-Preparing opts fs_rootfs = setup_rootfs-Preparing opts
  setup_in-Preparing opts (other_type n) = search emits_rules

  pub setup_fs-Preparing : (opts : FsOpts) → Emits Preparing (setup_fs K opts)
  unfolding setup_fs
  setup_fs-Preparing opts = setup_in-Preparing opts opts.fs.mode
