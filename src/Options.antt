-- ===== src/Options.antt =====
-- options/: the parsers of single options.
pub mod Laws
pub mod Env
pub mod Logging
pub mod Cli
mod Tests
use microbox.Base.{
  Char, String, Bool, true, false, not, ◌||◌, List, [], ◌∷◌, Option, none, some, ◌==◌,
  if◌then◌else◌,
}
use microbox.Base.Text.{is_empty}
use microbox.Base.Cut.{cut}
use microbox.Filepath.{is_abs}
use microbox.Net.{NetworkMode, net_none, net_host, net_bridge}
use microbox.Os.{
  Error, errorf, lstat, Result, ok, err, Kernel, Io, pure, raise, branching, do_lstat,
}
use microbox.Fs.Mount.{FsMount, fs_host, fs_tmpfs, fs_rootfs, MountSpec, is_directory_kind}
use microbox.Sandbox.Env.{EnvVar}
use microbox.Sandbox.Flags.{UserNamespaceMode, user_namespace_isolated, user_namespace_host}

abbrev pub parsed_env : String → Option (String × String) → Result EnvVar
parsed_env kv none = err (errorf "bad --env %q (KEY=VALUE)" (kv ∷ []))
parsed_env kv (some (k, v)) =
    if is_empty k
    then err (errorf "bad --env %q (KEY=VALUE)" (kv ∷ []))
    else ok (record { key = k; val = v })

-- `ParseEnv`
unfoldable pub parse_env : String → Result EnvVar
parse_env kv = parsed_env kv (cut "=" kv)

-- The tests on the parts.
abbrev pub parsed_mount : String → Bool → Option (String × String) → Result MountSpec
parsed_mount spec ro none = err (errorf "bad mount %q (HOST:DEST)" (spec ∷ []))
parsed_mount spec ro (some (host, dest)) =
    if is_empty host || is_empty dest
    then err (errorf "bad mount %q (HOST:DEST)" (spec ∷ []))
    else if not (is_abs dest)
    then err (errorf "DEST must be absolute: %q" (spec ∷ []))
    else ok (record { host = host; dest = dest; ro = ro })

-- `parseMount`: a split into at most two parts is a cut.
unfoldable pub parse_mount : String → Bool → Result MountSpec
parse_mount spec ro = parsed_mount spec ro (cut ":" spec)

-- `parseNetMode`
unfoldable pub parse_net_mode : String → Result NetworkMode
parse_net_mode s =
    if s == "none"
    then ok net_none
    else if s == "host"
    then ok net_host
    else if s == "bridge"
    then ok net_bridge
    else err (errorf "bad --net %q (none|host|bridge)" (s ∷ []))

-- `ParseUserNamespace`
unfoldable pub parse_user_namespace : String → Result UserNamespaceMode
parse_user_namespace s =
    if s == "isolated"
    then ok user_namespace_isolated
    else if s == "host"
    then ok user_namespace_host
    else err (errorf "unknown user namespace mode: %q" (s ∷ []))

module _ (K : Kernel) where
  -- The default case of `parseFsMode`.
  unfoldable pub parse_rootfs : String → Io FsMount
  parse_rootfs s =
      branching (do_lstat K s)
        (λ kind.
          if is_directory_kind kind
          then pure (record { mode = fs_rootfs; path = s })
          else raise (errorf "bad --fs %q: not a directory" (s ∷ [])))
        (λ e. raise (errorf "bad --fs %q: %v" (s ∷ [])))

  -- `parseFsMode`
  unfoldable pub parse_fs_mode : String → Io FsMount
  parse_fs_mode s =
      if s == "host"
      then pure (record { mode = fs_host; path = "" })
      else if s == "tmpfs"
      then pure (record { mode = fs_tmpfs; path = "" })
      else parse_rootfs s
