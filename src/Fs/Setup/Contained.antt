-- ===== src/Fs/Setup/Contained.antt =====
-- The calls that set up the parts of the root, and the paths that they name: whether the text of a
-- path is below the directory that becomes the root. Links on the way are not followed here.
use microbox.Base.{String, Bool, true, false, List, ◌≡◌}
use microbox.Base.Text.{split}
use microbox.Filepath.{join, is_abs}
use microbox.Filepath.Laws.{IsUnder, NoDotdot, join-IsUnder}
use microbox.Os.{
  FileKind, directory, symbolic_link, mkdir, chmod, create_file, write_file, remove, chdir, symlink,
  mount, detach, pivot_root, Call, Kernel, os_mkdir_all, os_create_file, os_write_file, os_chmod,
  log_warn,
}
use microbox.Os.Keeps.{Emits, emits_rules, Emits-ignoring}
use microbox.Fs.Mount.{MountSpec, bind_mount, bind_onto, make_target, remount_read_only}
use microbox.Fs.Proc.{mount_proc, mask, mask_path, protect_path, bind_and_seal, seal, is_directory}
use microbox.Fs.Dev.{mount_dev, link_dev, bind_device, mount_dev_filesystems, link_dev_files}
use microbox.Fs.Tmp.{mount_tmp}
use microbox.Fs.Etc.{setup_etc, set_resolvers, remove_if_symlink, warn_if_error}

-- The calls that leave everything outside `base` alone: mounts, files, links, modes and removals are
-- at or below it. Directories may be made anywhere.
abbrev pub Contained : String → Call → Type 0
Contained base (mount source target fstype flags options) = IsUnder base target
Contained base (create_file p m) = IsUnder base p
Contained base (write_file p content m) = IsUnder base p
Contained base (chmod p m) = IsUnder base p
Contained base (symlink source p) = IsUnder base p
Contained base (remove p) = IsUnder base p
Contained base (detach p) = IsUnder base p
Contained base (mkdir p m) = ⊥
Contained base (chdir p) = ⊥
Contained base (pivot_root new old) = ⊥
Contained base _ = Unit

module _ (K : Kernel) (base : String) (h : is_abs base ≡ true) where
  make_target-Contained :
      (kind : FileKind) (host target : String)
      → IsUnder base target
      → Emits (Contained base) (make_target K kind host target)
  unfolding make_target os_mkdir_all os_create_file
  make_target-Contained directory host target u = search emits_rules
  make_target-Contained _ host target u = search emits_rules

  remount-Contained :
      (ro : Bool) (target : String)
      → IsUnder base target
      → Emits (Contained base) (remount_read_only K ro target)
  unfolding remount_read_only
  remount-Contained true target u = search emits_rules
  remount-Contained false target u = search emits_rules

  pub bind_mount-Contained :
      (spec : MountSpec) → NoDotdot spec.dest → Emits (Contained base) (bind_mount K base spec)
  unfolding bind_mount bind_onto
  bind_mount-Contained spec n =
      let under : IsUnder base (join base spec.dest) = join-IsUnder base spec.dest h n in
      search (emits_rules, make_target-Contained, remount-Contained, under) depth 8

  link_dev-Contained :
      (src dest : String) → IsUnder base dest → Emits (Contained base) (link_dev K src dest)
  unfolding link_dev
  link_dev-Contained src dest u = search emits_rules depth 8

  mount_dev_filesystems-Contained : Emits (Contained base) (mount_dev_filesystems K base)
  unfolding mount_dev_filesystems os_mkdir_all split
  mount_dev_filesystems-Contained = search (emits_rules, link_dev-Contained, join-IsUnder) depth 20

  link_dev_files-Contained : Emits (Contained base) (link_dev_files K base)
  unfolding link_dev_files split
  link_dev_files-Contained = search (emits_rules, link_dev-Contained, join-IsUnder) depth 20

  bind_device-Contained : (p : String) → NoDotdot p → Emits (Contained base) (bind_device K base p)
  unfolding bind_device
  bind_device-Contained p n =
      Emits-ignoring _ (bind_mount-Contained (record { host = p; dest = p; ro = false }) n)

  pub mount_dev-Contained : Emits (Contained base) (mount_dev K base)
  unfolding mount_dev split
  mount_dev-Contained =
      search
        (
          emits_rules, mount_dev_filesystems-Contained, link_dev_files-Contained,
          bind_device-Contained,
        )
        depth 20

  seal-Contained : (t : String) → IsUnder base t → Emits (Contained base) (seal K t)
  unfolding seal
  seal-Contained t u = search emits_rules

  bind_and_seal-Contained :
      (source t : String) → IsUnder base t → Emits (Contained base) (bind_and_seal K source t)
  unfolding bind_and_seal
  bind_and_seal-Contained source t u = search (emits_rules, seal-Contained)

  mask-Contained : (t : String) → IsUnder base t → Emits (Contained base) (mask K t)
  unfolding mask is_directory
  mask-Contained t u = search (emits_rules, bind_and_seal-Contained) depth 8

  mask_path-Contained :
      (sub : String) → NoDotdot sub → Emits (Contained base) (mask_path K base sub)
  unfolding mask_path
  mask_path-Contained sub n = search (emits_rules, mask-Contained, join-IsUnder)

  protect_path-Contained :
      (sub : String) → NoDotdot sub → Emits (Contained base) (protect_path K base sub)
  unfolding protect_path
  protect_path-Contained sub n = search (emits_rules, bind_and_seal-Contained, join-IsUnder)

  pub mount_proc-Contained : Emits (Contained base) (mount_proc K base)
  unfolding mount_proc os_mkdir_all split
  mount_proc-Contained =
      search (emits_rules, mask_path-Contained, protect_path-Contained, join-IsUnder) depth 20

  pub mount_tmp-Contained : Emits (Contained base) (mount_tmp K base)
  unfolding mount_tmp os_mkdir_all os_chmod split
  mount_tmp-Contained = search (emits_rules, join-IsUnder) depth 8

  remove_if_symlink-Contained :
      (path : String) (kind : FileKind)
      → IsUnder base path
      → Emits (Contained base) (remove_if_symlink K path kind)
  unfolding remove_if_symlink
  remove_if_symlink-Contained path symbolic_link u = search emits_rules
  remove_if_symlink-Contained path _ u = search emits_rules

  set_resolvers-Contained :
      (nameservers : List String) → Emits (Contained base) (set_resolvers K base nameservers)
  unfolding set_resolvers os_mkdir_all os_write_file split
  set_resolvers-Contained nameservers =
      search (emits_rules, remove_if_symlink-Contained, join-IsUnder) depth 10

  pub setup_etc-Contained :
      (nameservers : List String) (hostname : String)
      → Emits (Contained base) (setup_etc K base nameservers hostname)
  unfolding setup_etc warn_if_error os_mkdir_all os_write_file log_warn split
  setup_etc-Contained nameservers hostname =
      search (emits_rules, set_resolvers-Contained, bind_mount-Contained, join-IsUnder) depth 12
