-- ===== src/Sandbox/Id.antt =====
-- sandbox/id.go: the user and group mappings of the child's user namespace.
pub mod Laws
use microbox.Base.{
  ℕ, suc, Char, String, ◌<>◌, Bool, true, false, ◌||◌, List, [], ◌∷◌, Option, none, some,
  if◌then◌else◌, ◌=ᵇ◌, ◌==◌,
}
use microbox.Base.Text.{is_empty, split}
use microbox.Base.Decimal.{decimal}
use microbox.Base.Space.{ℤ, pos, negsuc, atoi, trim_space, has_prefix}
use microbox.Filepath.{dir}
use microbox.Os.{
  Errno, Error, errno, errorf, wrapf, geteuid, getegid, open_file, close_file, read_file, look_path,
  current_user, run, Result, ok, err, Reply, got, failed, Kernel, Io, pure, raise, lift, ◌>>=◌,
  ◌>>◌, ask, query, attempt, wrapping, ignoring, finally, branching, perform, do_stat,
  os_write_file,
}

-- The text of `writeMap`.
unfoldable pub map_line : ℕ → ℕ → ℕ → String
map_line inside outside length =
    decimal inside <> " " <> decimal outside <> " " <> decimal length <> "\n"

module _ (K : Kernel) where
  -- `writeMap`
  unfoldable pub write_map : String → ℕ → ℕ → ℕ → Io (Unit {0})
  write_map path inside outside length = do
    kind ← do_stat K (dir path)
    os_write_file K path (map_line inside outside length) 0o644

-- The range of an entry: its start is not negative and its length is positive.
range_from : Option ℤ → Option ℤ → Option (ℕ × ℕ)
range_from (some (pos start)) (some (pos (suc n))) = some (start, suc n)
range_from _ _ = none

entry_range : String → List String → Option (ℕ × ℕ)
unfolding range_from
entry_range username (name ∷ start ∷ length ∷ []) =
    if name == username then range_from (atoi start) (atoi length) else none
entry_range username _ = none

-- One round of the loop of `firstSubidRange`: the range of a line, if it has one for the user.
unfoldable pub line_range : String → String → Option (ℕ × ℕ)
unfolding entry_range
line_range username text =
    let line = trim_space text in
    if is_empty line || has_prefix "#" line then none else entry_range username (split ":" line)

abbrev pub or_next : Option (ℕ × ℕ) → Option (ℕ × ℕ) → Option (ℕ × ℕ)
or_next (some r) rest = some r
or_next none rest = rest

-- The loop: the first range.
unfoldable pub first_range : String → List String → Option (ℕ × ℕ)
first_range username [] = none
first_range username (line ∷ lines) =
    or_next (line_range username line) (first_range username lines)

-- What follows the loop. (The last message names the file without its directory.)
abbrev pub after_scan : String → String → Option Errno → Option (ℕ × ℕ) → Result (ℕ × ℕ)
after_scan file username e (some r) = ok r
after_scan file username (some e) none = err (wrapf "scan %s: %w" (file ∷ []) (errno e))
after_scan file username none none = err (errorf "no %s entry for user %q" (file ∷ username ∷ []))

module _ (K : Kernel) where
  unfoldable pub scan_ranges : String → String → Io (ℕ × ℕ)
  scan_ranges file username = do
    content ← ask (read_file file) (λ l. K.read_file l file)
    lift (after_scan file username content.1 (first_range username (split "\n" content.0)))

  -- `firstSubidRange`: the start and the length. The scanner's lines are at most 64 KiB long.
  unfoldable pub first_subid_range : String → String → Io (ℕ × ℕ)
  first_subid_range file username =
      wrapping "open %s: %w" (file ∷ []) (perform K (open_file file))
      >> finally (scan_ranges file username) (perform K (close_file file))

-- The arguments of newuidmap and newgidmap: the range of the user for the first identifiers, and the
-- caller's own identifier for itself.
abbrev pub map_args : ℕ → ℕ × ℕ → ℕ → List String
map_args child_pid range own =
    decimal child_pid
    ∷ "0"
    ∷ decimal range.0
    ∷ decimal range.1
    ∷ decimal own
    ∷ decimal own
    ∷ "1"
    ∷ []

abbrev pub proc_file : ℕ → String → String
proc_file pid name = "/proc/" <> decimal pid <> "/" <> name

module _ (K : Kernel) where
  -- A command of the shadow utilities. What it printed and its exit are left out of the message.
  unfoldable pub run_helper : String → String → List String → Io (Unit {0})
  run_helper name program args =
      branching (perform K (run program args)) pure (λ _. raise (errorf (name <> " failed: %v") []))

  unfoldable pub deny_setgroups : ℕ → Io (Unit {0})
  deny_setgroups child_pid =
      ignoring (os_write_file K (proc_file child_pid "setgroups") "deny" 0o644)

  -- The privileged path.
  unfoldable pub map_root : ℕ → Io (Unit {0})
  map_root child_pid = do
    wrapping "write uid_map: %w" [] (write_map K (proc_file child_pid "uid_map") 0 0 1)
    wrapping "write gid_map: %w" [] (write_map K (proc_file child_pid "gid_map") 0 0 1)

  -- The rootless path, with both helpers at hand.
  unfoldable pub map_with_helpers : ℕ → ℕ → ℕ → String → String → Io (Unit {0})
  map_with_helpers child_pid euid egid new_uid_map new_gid_map = do
    username ← wrapping "user.Current: %w" [] (ask current_user K.current_user)
    uids ←
        wrapping "configure /etc/subuid (e.g. 'USERNAME:100000:65536') or run as root: %w" []
          (first_subid_range K "/etc/subuid" username)
    gids ←
        wrapping "configure /etc/subgid (e.g. 'USERNAME:100000:65536') or run as root: %w" []
          (first_subid_range K "/etc/subgid" username)
    deny_setgroups child_pid
    run_helper "newuidmap" new_uid_map (map_args child_pid uids euid)
    run_helper "newgidmap" new_gid_map (map_args child_pid gids egid)

  unfoldable pub with_helpers : ℕ → ℕ → ℕ → Result String → Result String → Io (Unit {0})
  with_helpers child_pid euid egid (ok u) (ok g) = map_with_helpers child_pid euid egid u g
  with_helpers child_pid euid egid _ _ = raise (
      errorf
        "rootless ID mapping requires newuidmap/newgidmap (shadow-utils). Install them or run as root"
        [])

  unfoldable pub map_rootless : ℕ → ℕ → ℕ → Io (Unit {0})
  map_rootless child_pid euid egid = do
    u ← attempt (ask (look_path "newuidmap") (λ l. K.look_path l "newuidmap"))
    g ← attempt (ask (look_path "newgidmap") (λ l. K.look_path l "newgidmap"))
    with_helpers child_pid euid egid u g

  unfoldable pub map_child : ℕ → Io (Unit {0})
  map_child child_pid = do
    euid ← query geteuid K.geteuid
    egid ← query getegid K.getegid
    deny_setgroups child_pid
    if euid =ᵇ 0 then map_root child_pid else map_rootless child_pid euid egid

  -- `SetupIdMappings`
  unfoldable pub setup_id_mappings : ℕ → Io (Unit {0})
  setup_id_mappings child_pid =
      if child_pid =ᵇ 0
      then raise (errorf "invalid child pid: %d" (decimal child_pid ∷ []))
      else map_child child_pid
