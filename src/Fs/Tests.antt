-- ===== src/Fs/Tests.antt =====
-- The theorems on fs/ at concrete inputs.
use microbox.Base.{
  Option, none, some, if◌then◌else◌, ℕ, ◌+◌, ◌*◌, ◌≤◌, ◌<◌, ◌^◌, ◌<>◌, true, [], ◌∷◌, ◌++◌, map,
  ◌≡◌, refl, ◌⊎◌, false,
}
use microbox.Base.Text.{split, is_empty}
use microbox.Base.Decimal.{decimal}
use microbox.Filepath.{join}
use microbox.Os.{
  Errno, eperm, Call, Kernel, Log, mount, nosuid, nodev, chmod, mkdir_all, ◌>>=◌, wrapping, perform,
  do_stat, os_mkdir_all, os_chmod,
}
use microbox.Os.Success.{done}
use microbox.Os.Sample.{obliging}
use microbox.Fs.Mount.{
  fs_host, MountSpec, bind_mount, bind_onto, is_directory_kind, make_target, remount_read_only,
  create_tmpfs, pivot_to,
}
use microbox.Fs.Mount.Success.{create_tmpfs-eq-ok}
use microbox.Fs.Tmp.{mount_tmp}
use microbox.Fs.Tmp.Mode.{mount_tmp-eq-ok}
use microbox.Fs.Etc.{resolv_content}
use microbox.Fs.Etc.Resolvers.{newline, line, split-resolv_content}
use microbox.Fs.Setup.{FsOpts, make_private, setup_hostfs_root, setup_in, setup_fs}
use microbox.Fs.Setup.Pivoted.{EndsIn, setup_fs-eq-ok}

abbrev data_mount : MountSpec
data_mount = record { host = "/srv"; dest = "/data"; ro = true }

-- The host's file system, read-only.
abbrev host_opts : FsOpts
host_opts = record {
  nameservers = [];
  hostname = "box";
  fs = record { mode = fs_host; path = "" };
  read_only = true;
  mount_ro = data_mount ∷ [];
  mount_rw = [];
  storage = 64 * 2 ^ 20;
}

-- A kernel that refuses a mount without a source, as a remount is.
abbrev refuse_remount : Call → Option Errno
refuse_remount (mount source target fstype flags options) =
    if is_empty source then some eperm else none
refuse_remount _ = none

abbrev unyielding : Kernel
unyielding = record obliging { act = λ _ c. refuse_remount c }

create_tmpfs-eq-ok_example :
    (n : ℕ) × (k : Log) × ((create_tmpfs obliging "/box" 3000000 []).1
      ≡ done (
          mount "tmpfs" "/box" "tmpfs" (nosuid ∷ nodev ∷ []) ("mode=755,size=" <> decimal n <> "m"))
        ∷ k)
    × (n * 2 ^ 20 ≤ 3000000)
    × (3000000 < (n + 1) * 2 ^ 20)
    × ((0 < n) ⊎ ((n ≡ 0) × (3000000 < 2 ^ 20)))
unfolding create_tmpfs ◌>>=◌ perform os_mkdir_all
create_tmpfs-eq-ok_example = create_tmpfs-eq-ok obliging "/box" 3000000 [] refl

mount_tmp-eq-ok_example :
    ((is_empty "/box" ≡ true) × ((mount_tmp obliging "/box" []).1 ≡ []))
    ⊎ ((is_empty "/box" ≡ false)
        × ((mount_tmp obliging "/box" []).1
            ≡ done (chmod (join "/box" "/tmp") 0o777)
              ∷ done (mkdir_all (join "/box" "/tmp") 0o777)
              ∷ []))
unfolding mount_tmp ◌>>=◌ perform os_mkdir_all os_chmod
mount_tmp-eq-ok_example = mount_tmp-eq-ok obliging "/box" [] refl

split-resolv_content_example :
    split newline (resolv_content "" ("1.1.1.1" ∷ "8.8.8.8" ∷ []))
    ≡ map line ("1.1.1.1" ∷ "8.8.8.8" ∷ []) ++ "" ∷ []
split-resolv_content_example = split-resolv_content ("1.1.1.1" ∷ "8.8.8.8" ∷ []) (refl, (refl, tt))

setup_fs-eq-ok_example : EndsIn host_opts fs_host (setup_fs obliging host_opts []).1
unfolding setup_fs setup_in setup_hostfs_root make_private create_tmpfs bind_mount bind_onto
    is_directory_kind make_target remount_read_only pivot_to ◌>>=◌ perform do_stat os_mkdir_all
    wrapping
setup_fs-eq-ok_example = setup_fs-eq-ok obliging host_opts [] refl
