-- ===== src/Main/Together.antt =====
-- A sandbox's two processes at a concrete input: the child's file system cannot be set up.
use microbox.Base.{List, String, true, false, none, some, [], ◌∷◌, ◌++◌, ◌≡◌, refl, ◌⊎◌}
use microbox.Os.{
  Kernel, eperm, read_fd, close_fd, exit, log_failure, private_mount, recursive, sethostname, mount,
  pure, ◌>>=◌, attempt, ask, ignoring, perform, lift, branching, log_error,
}
use microbox.Os.Sample.{obliging}
use microbox.Os.Success.{done}
use microbox.Net.Sample.{counting, keeping}
use microbox.Fs.Setup.{setup_fs, setup_in, setup_hostfs_root, make_private}
use microbox.Sandbox.Capabilities.{CapLibrary}
use microbox.Sandbox.Cgroup.{CpuShare}
use microbox.Sandbox.Pipe.{wait_for_parent}
use microbox.Sandbox.Child.{set_hostname, exit_with, or_exit, setup_and_confine, child_main}
use microbox.Sandbox.System.{parent, child, History, calls_of, Together}
use microbox.Sandbox.System.Start.{Waits}
use microbox.Sandbox.System.Released.{Ready}
use microbox.Sandbox.System.Sequential.{tagged, whole_run, whole_run-Together}
use microbox.Main.{bridge_networking}
use microbox.Main.Released.{held_back}
use microbox.Sandbox.Sample.{default_library}
use microbox.Main.Scenario.{bridged_opts, started_log, but_two, signalled}

abbrev unmountable : Kernel
unmountable = record obliging {
  act = λ l c. elim c [ mount source target fstype flags options ↦ some eperm | _ ↦ none ];
}

abbrev no_caps : CapLibrary
no_caps = record { list_known = []; name = λ _. "" }

abbrev half : CpuShare
half = record { unlimited = false; quota = 50000 }

abbrev both : History
both =
    whole_run keeping unmountable (bridge_networking keeping counting 4) no_caps (λ _. true)
      bridged_opts half 1000 3 4

both-Together :
    Together keeping unmountable
      (bridge_networking keeping counting 4)
      no_caps
      (λ _. true)
      bridged_opts
      half
      1000
      3
      4
      both
both-Together =
    whole_run-Together keeping unmountable (bridge_networking keeping counting 4) no_caps
      (λ _. true) bridged_opts half 1000 3 4 "\u{1}" refl
      (but_two started_log, (done (close_fd 4) ∷ [], signalled))

-- What the child has done when it sets its hostname.
abbrev before_hostname : History
before_hostname = (child, done (close_fd 3)) ∷ (child, done (read_fd 3)) ∷ tagged parent started_log

both_split :
    both
    ≡ ((child, done (exit 1))
        ∷ (child, done (log_failure "failed to setup filesystem"))
        ∷ (
          child,
          record {
            call = mount "" "/" "" (private_mount ∷ recursive ∷ []) "";
            failure = some eperm;
          },
        )
        ∷ [])
      ++ (child, done (sethostname "box")) ∷ before_hostname
unfolding child_main wait_for_parent set_hostname setup_and_confine or_exit exit_with setup_fs
    setup_in setup_hostfs_root make_private log_error branching attempt ask ignoring perform lift
    pure ◌>>=◌
both_split = refl

held_back_example :
    Waits 3 (sethostname "box")
    ⊎ Ready keeping
        (bridge_networking keeping counting 4)
        bridged_opts
        half
        1000
        (calls_of parent before_hostname)
held_back_example =
    held_back keeping counting 4 unmountable no_caps (λ _. true) bridged_opts half 1000 3 4 both
      both-Together
      ((child, done (exit 1))
        ∷ (child, done (log_failure "failed to setup filesystem"))
        ∷ (
          child,
          record {
            call = mount "" "/" "" (private_mount ∷ recursive ∷ []) "";
            failure = some eperm;
          },
        )
        ∷ [])
      before_hostname (done (sethostname "box")) both_split

-- The same parent, with a child that gets to its command.
abbrev to_the_end : History
to_the_end =
    whole_run keeping obliging (bridge_networking keeping counting 4) default_library (λ _. true)
      bridged_opts half 1000 3 4

abbrev but_one : History → History
but_one [] = []
but_one (x ∷ h) = h

abbrev environment : List String
environment = []
