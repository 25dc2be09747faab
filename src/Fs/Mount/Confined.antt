-- ===== src/Fs/Mount/Confined.antt =====
-- Where a bind mount puts things.
use microbox.Base.{String, true, ◌≡◌}
use microbox.Filepath.Laws.{IsUnder}
use microbox.Os.{nosuid, nodev, has_flag, Call, stat, mkdir_all, create_file, close_file, mount}

-- The calls that a bind mount below `base` may make: to look at the source, to make directories and
-- one placeholder file, and to mount at or below `base` with neither set-user-id programs nor
-- device files.
abbrev pub ConfinedBind : String → Call → Type 0
ConfinedBind base (stat p) = Unit
ConfinedBind base (mkdir_all p m) = Unit
ConfinedBind base (create_file p m) = IsUnder base p
ConfinedBind base (close_file p) = Unit
ConfinedBind base (mount source target fstype flags options) =
    IsUnder base target × (has_flag nosuid flags ≡ true) × (has_flag nodev flags ≡ true)
ConfinedBind base _ = ⊥
