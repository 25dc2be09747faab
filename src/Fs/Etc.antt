-- ===== src/Fs/Etc.antt =====
-- fs/etc.go: resolv.conf, hosts and hostname in the sandbox.
pub mod Resolvers
use microbox.Base.{String, ◌<>◌, Bool, true, false, List, [], ◌∷◌, if◌then◌else◌}
use microbox.Base.Text.{is_empty}
use microbox.Filepath.{join}
use microbox.Os.{
  FileKind, symbolic_link, errno, einval, remove, Result, ok, err, Kernel, Io, pure, raise, ◌>>=◌,
  ◌>>◌, branching, ignoring, wrapping, perform, do_stat, do_lstat, os_mkdir_all, os_write_file,
  log_warn,
}
use microbox.Fs.Mount.{MountSpec, bind_mount}

abbrev pub default_nameservers : List String
default_nameservers = "8.8.8.8" ∷ "8.8.4.4" ∷ []

-- The loop that builds the text, from what is built so far.
unfoldable pub resolv_content : String → List String → String
resolv_content content [] = content
resolv_content content (ns ∷ nameservers) =
    resolv_content (content <> "nameserver " <> ns <> "\n") nameservers

unfoldable pub or_default : List String → List String
or_default [] = default_nameservers
or_default (ns ∷ nameservers) = ns ∷ nameservers

module _ (K : Kernel) where
  unfoldable pub remove_if_symlink : String → FileKind → Io (Unit {0})
  remove_if_symlink path symbolic_link =
      wrapping "error removing symlink /etc/resolv.conf" [] (perform K (remove path))
  remove_if_symlink path _ = pure tt

  -- `SetResolvers`
  unfoldable pub set_resolvers : String → List String → Io (Unit {0})
  set_resolvers base nameservers = if is_empty base then raise (errno einval) else do
    wrapping "error creating /etc directory" [] (os_mkdir_all K (join base "/etc") 0o755)
    branching (do_lstat K (join base "/etc/resolv.conf"))
        (remove_if_symlink (join base "/etc/resolv.conf")) (λ _. pure tt)
    wrapping "error creating /etc/resolv.conf" [] (
        os_write_file K (join base "/etc/resolv.conf") (resolv_content "" (or_default nameservers))
          0o644)

  -- `if err != nil { logger.Log.Warn(message, ...) }`
  unfoldable pub warn_if_error : String → Io (Unit {0}) → Io (Unit {0})
  warn_if_error message m = branching m (λ _. pure tt) (λ _. log_warn K message)

  -- `SetupEtc`
  unfoldable pub setup_etc : String → List String → String → Io (Unit {0})
  setup_etc base nameservers hostname = if is_empty base then raise (errno einval) else do
    os_mkdir_all K (join base "/etc") 0o755
    warn_if_error "error setting resolvers" (set_resolvers base nameservers)
    branching (do_stat K "/etc/hosts")
        (λ _.
          wrapping "error binding /etc/hosts" []
            (bind_mount K base (record { host = "/etc/hosts"; dest = "/etc/hosts"; ro = true })))
        (λ _. pure tt)
    if is_empty hostname
        then pure tt
        else warn_if_error "error writing /etc/hostname"
            (os_write_file K (join base "/etc/hostname") (hostname <> "\n") 0o644)
