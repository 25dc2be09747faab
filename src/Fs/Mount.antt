-- ===== src/Fs/Mount.antt =====
-- fs/fs.go: the types, bind mounts, the tmpfs and overlay layers, and the pivot to the new root.
pub mod Confined
pub mod Success
pub mod Failure
use mathlib.Core.Bool.{◌||◌}
use microbox.Base.{ℕ, ◌/◌, String, ◌<>◌, Bool, true, false, List, [], ◌∷◌, if◌then◌else◌}
use microbox.Base.Text.{is_empty}
use microbox.Base.Decimal.{decimal}
use microbox.Filepath.{join, dir}
use microbox.Os.{
  FileKind, directory, symbolic_link, unknown_kind, bind, recursive, nosuid, nodev, remount, rdonly,
  einval, errno, errorf, close_file, chdir, mount, detach, pivot_root, remove, Result, ok, err,
  Kernel, Io, pure, raise, ◌>>=◌, ◌>>◌, branching, ignoring, perform, do_stat, os_mkdir_all,
  os_create_file,
}

pub data FsType : Type 0 where
  fs_tmpfs fs_host fs_rootfs : FsType
  other_type : ℕ → FsType

-- `FsType.String`
unfoldable pub fs_type_string : FsType → String
fs_type_string fs_tmpfs = "tmpfs"
fs_type_string fs_host = "host"
fs_type_string fs_rootfs = "rootfs"
fs_type_string (other_type n) = "unknown"

pub record FsMount : Type 0 where
  pub mode : FsType
  pub path : String

pub record MountSpec : Type 0 where
  pub host : String
  pub dest : String
  pub ro : Bool

pub record OverlayFs : Type 0 where
  pub lower : String
  pub upper : String
  pub work : String
  pub merge : String

-- `FileMode.IsDir`
unfoldable pub is_directory_kind : FileKind → Bool
is_directory_kind directory = true
is_directory_kind _ = false

-- The size is given in whole mebibytes.
unfoldable pub tmpfs_options : ℕ → String
tmpfs_options storage = "mode=755,size=" <> decimal (storage / 1024 / 1024) <> "m"

module _ (K : Kernel) where
  -- `isDir`
  unfoldable pub is_dir : String → Io Bool
  is_dir path = branching (do_stat K path) (λ kind. pure (is_directory_kind kind)) (λ _. pure false)

  -- The switch on the source's file type: a target of the same sort is made.
  unfoldable pub make_target : FileKind → String → String → Io (Unit {0})
  make_target directory host target = os_mkdir_all K target 0o755
  make_target symbolic_link host target =
      raise (errorf "bind-mounting symlinks is not supported: %s" (host ∷ []))
  make_target unknown_kind host target =
      raise (errorf "unsupported source file type: %s" (host ∷ []))
  make_target _ host target = do
    os_mkdir_all K (dir target) 0o755
    os_create_file K target 0o644
    ignoring (perform K (close_file target))

  unfoldable pub remount_read_only : Bool → String → Io (Unit {0})
  remount_read_only true target =
      perform K (mount "" target "" (bind ∷ remount ∷ rdonly ∷ nosuid ∷ nodev ∷ []) "")
  remount_read_only false target = pure tt

  -- `BindMount`, after the test of its arguments.
  unfoldable pub bind_onto : MountSpec → String → Io (Unit {0})
  bind_onto spec target = do
    kind ← do_stat K spec.host
    make_target kind spec.host target
    perform K (mount spec.host target "" (bind ∷ recursive ∷ nosuid ∷ nodev ∷ []) "")
    remount_read_only spec.ro target

  -- `BindMount`
  unfoldable pub bind_mount : String → MountSpec → Io (Unit {0})
  bind_mount base spec =
      if is_empty base || is_empty spec.host || is_empty spec.dest
      then raise (errno einval)
      else bind_onto spec (join base spec.dest)

  -- `createTmpfs`
  unfoldable pub create_tmpfs : String → ℕ → Io (Unit {0})
  create_tmpfs path storage = if is_empty path then raise (errno einval) else do
    os_mkdir_all K path 0o755
    perform K (mount "tmpfs" path "tmpfs" (nosuid ∷ nodev ∷ []) (tmpfs_options storage))

  -- `createOverlay`
  unfoldable pub create_overlay : String → String → Io OverlayFs
  create_overlay src mountpoint =
      if is_empty src || is_empty mountpoint then raise (errno einval) else do
        let fs : OverlayFs = record {
          lower = src;
          upper = join mountpoint "upper";
          work = join mountpoint "work";
          merge = join mountpoint "merged";
        }
        os_mkdir_all K fs.upper 0o755
        os_mkdir_all K fs.work 0o755
        os_mkdir_all K fs.merge 0o755
        perform K (
            mount "overlay" fs.merge "overlay" []
              ("lowerdir=" <> fs.lower <> ",upperdir=" <> fs.upper <> ",workdir=" <> fs.work))
        pure fs

  -- `pivotTo`
  unfoldable pub pivot_to : String → Io (Unit {0})
  pivot_to new_root = do
    perform K (chdir new_root)
    os_mkdir_all K ".old_root" 0o700
    perform K (pivot_root "." "./.old_root")
    perform K (chdir "/")
    perform K (detach "/.old_root")
    perform K (remove "/.old_root")
