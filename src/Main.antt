-- ===== src/Main.antt =====
-- main.go: the program, from its arguments to its exit code; logger/logger.go, and
-- version/version.go.
pub mod Exits
pub mod Lifecycle
pub mod Released
mod Tests
mod Scenario
mod Together
use microbox.Base.{ℕ, String, ◌<>◌, Option, none, some, List, [], ◌∷◌}
use microbox.Os.{
  Error, note, print_error, exit, Kernel, Io, pure, ◌>>=◌, ◌>>◌, branching, perform, ignoring,
  log_error,
}
use microbox.Net.{NetworkMode}
use microbox.Net.Ipam.{CidrLibrary}
use microbox.Net.Container.{setup_container_networking}
use microbox.Options.Cli.{CliOptions, ByteSize, CliRun, parse_cli}
use microbox.Sandbox.Capabilities.{CapLibrary}
use microbox.Sandbox.Parent.{Networking, SandboxProcess, new_sandbox, wait}

abbrev pub major_version : String
major_version = "0"

abbrev pub minor_version : String
minor_version = "2"

abbrev pub patch_version : String
patch_version = "0"

-- `Version` and `VersionDetails`
unfoldable pub version : String
version = major_version <> String.◌∷◌ "." (minor_version <> String.◌∷◌ "." patch_version)

unfoldable pub version_details : String × String × String
version_details = (major_version, minor_version, patch_version)

module _ (K : Kernel) where
  -- The network of a sandbox, as net/ sets it up.
  unfoldable pub bridge_networking : CidrLibrary → ℕ → Networking
  bridge_networking L rounds = record {
    setup_container_networking = λ pid mode. do
      result ← setup_container_networking K L rounds (record { child_pid = pid; mode = mode })
      pure result.cleanup;
  }

  abbrev pub finish : ℕ → Io (Unit {0})
  finish code = perform K (exit code)

  unfoldable pub exit_with : Option ℕ → Io (Unit {0})
  exit_with (some code) = finish code
  exit_with none = pure tt

  -- Waiting for the sandbox, for a number of rounds of `Wait`.
  unfoldable pub wait_and_exit : ℕ → SandboxProcess → Io (Unit {0})
  wait_and_exit rounds box =
      branching (wait K rounds box) exit_with
        (λ _. log_error K "error while executing for sandbox" >> finish 1)

  unfoldable pub run_sandbox : Networking → ℕ → CliOptions → Io (Unit {0})
  run_sandbox N rounds opts =
      ignoring (perform K (note "Options"))
      >> branching (new_sandbox K N opts.sandbox opts.cpus opts.memory) (wait_and_exit rounds)
          (λ _. log_error K "error while creating sandbox" >> finish 1)

  unfoldable pub run_options : Networking → ℕ → Option CliOptions → Io (Unit {0})
  run_options N rounds none = finish 0
  run_options N rounds (some opts) = run_sandbox N rounds opts

  -- `main`, as the parent runs it, for a number of rounds of `AllocateIP` and one of `Wait`.
  unfoldable pub main : CapLibrary → ByteSize → CidrLibrary → ℕ → ℕ → CliRun → Io (Unit {0})
  main C parse_size L addresses rounds r =
      branching (parse_cli K C parse_size r) (run_options (bridge_networking L addresses) rounds)
        (λ _. ignoring (perform K (print_error "parsing error:")) >> finish 1)
