-- ===== src/Fs/Tmp.antt =====
-- fs/tmp.go: the sandbox's /tmp.
pub mod Mode
use microbox.Base.{String, if◌then◌else◌}
use microbox.Base.Text.{is_empty}
use microbox.Filepath.{join}
use microbox.Os.{Kernel, Io, pure, ◌>>=◌, ◌>>◌, os_mkdir_all, os_chmod}

-- `MountTmp`
unfoldable pub mount_tmp : Kernel → String → Io (Unit {0})
mount_tmp K base =
    if is_empty base
    then pure tt
    else do os_mkdir_all K (join base "/tmp") 0o1777; os_chmod K (join base "/tmp") 0o1777
