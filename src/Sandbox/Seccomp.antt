-- ===== src/Sandbox/Seccomp.antt =====
-- sandbox/seccomp.go: the deny-list filter. libseccomp's table of system calls is a parameter.
pub mod Laws
use microbox.Base.{String, Bool, true, false, Option, none, some, List, [], ◌∷◌, ◌++◌}
use microbox.Base.Keys.{string_eq, insert_all, delete_all}
use microbox.Base.Sort.{sort}
use microbox.Os.{
  Error, errno, einval, enosys, is_einval, prctl_no_new_privs, filter_new, filter_load,
  filter_release, filter_add_rule, Result, ok, err, Kernel, Io, pure, ◌>>=◌, ◌>>◌, ignoring,
  finally, wrapping, tolerating, perform, for_each,
}

abbrev pub default_deny_syscalls : List String
default_deny_syscalls =
    "create_module" ∷ "init_module" ∷ "finit_module" ∷ "delete_module" ∷ "kexec_load"
    ∷ "kexec_file_load" ∷ "add_key" ∷ "request_key" ∷ "keyctl" ∷ "bpf" ∷ "ptrace"
    ∷ "process_vm_readv" ∷ "process_vm_writev" ∷ "adjtimex" ∷ "clock_adjtime" ∷ "settimeofday"
    ∷ "stime" ∷ "reboot" ∷ "quotactl" ∷ "nfsservctl" ∷ "sysfs" ∷ "_sysctl" ∷ "personality" ∷ "mount"
    ∷ "umount" ∷ "umount2" ∷ "pivot_root" ∷ "setns" ∷ "unshare" ∷ "nsenter" ∷ "open_by_handle_at"
    ∷ "perf_event_open" ∷ "fanotify_init" ∷ "name_to_handle_at" ∷ "lookup_dcookie" ∷ "userfaultfd"
    ∷ "vm86" ∷ "vm86old" ∷ "iopl" ∷ "ioperm" ∷ "set_mempolicy" ∷ "move_pages" ∷ "kcmp" ∷ "acct"
    ∷ "open_tree" ∷ "move_mount" ∷ "fsopen" ∷ "fsconfig" ∷ "fsmount" ∷ "fspick" ∷ "mount_setattr"
    ∷ "io_uring_setup" ∷ "io_uring_enter" ∷ "io_uring_register" ∷ []

-- `mergeSyscallLists`
unfoldable pub merge_syscall_lists : List String → List String → List String
merge_syscall_lists user_allow user_deny =
    sort (delete_all user_allow (insert_all user_deny (insert_all default_deny_syscalls [])))

module _ (K : Kernel) (known : String → Bool) where
  unfoldable pub deny_if : String → Bool → Io (Unit {0})
  deny_if name true = ignoring (perform K (filter_add_rule name enosys))
  deny_if name false = pure tt

  -- One round of the loop over the deny list: a name that libseccomp does not know is passed over,
  -- and so is a rule that it does not take.
  unfoldable pub deny : String → Io (Unit {0})
  unfolding deny_if
  deny name = deny_if name (known name)

  -- What `SetupSeccomp` does with the new filter, before its release.
  unfoldable pub fill_filter : List String → List String → Io (Unit {0})
  fill_filter allow_sys deny_sys = do
    for_each (merge_syscall_lists allow_sys deny_sys) deny
    wrapping "seccomp: load" [] (perform K filter_load)

  -- `SetupSeccomp`. The release runs when the function returns, with an error or without.
  unfoldable pub setup_seccomp : List String → List String → Io (Unit {0})
  setup_seccomp allow_sys deny_sys = do
    wrapping "prctl(NO_NEW_PRIVS)" [] (tolerating is_einval (perform K prctl_no_new_privs))
    perform K filter_new
    finally (fill_filter allow_sys deny_sys) (perform K filter_release)
