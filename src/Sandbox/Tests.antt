-- ===== src/Sandbox/Tests.antt =====
-- The theorems on sandbox/ at concrete inputs.
use microbox.Base.{ℕ, String, true, not, ◌&&◌, ◌||◌, List, [], ◌∷◌, ◌≡◌, refl, Option}
use microbox.Base.Keys.{string_eq, member, Distinct, insert_all, delete_all, insert, nat_eq}
use microbox.Base.Sort.{IsSorted, sort, text_le}
use microbox.Os.{
  Errno, ok, Log, filter_add_rule, filter_load, filter_release, enosys, tell, lift, tolerating,
  ◌>>=◌, wrapping, ignoring, finally, perform, for_each,
}
use microbox.Os.Called.{Called}
use microbox.Os.Success.{done}
use microbox.Os.Sample.{obliging}
use microbox.Sandbox.Capabilities.{
  normalize_cap, cap_name_to_id, from_capabilities_loop, CapabilityOpts, default_caps, all_types,
  final_caps, from_capability, from_capabilities, apply_caps, build_cap_sets, install_caps,
}
use microbox.Sandbox.Capabilities.Laws.{apply_calls, member-final_caps, apply_caps-eq-ok}
use microbox.Sandbox.Sample.{default_library}
use microbox.Sandbox.Seccomp.{
  deny, default_deny_syscalls, merge_syscall_lists, fill_filter, setup_seccomp,
}
use microbox.Sandbox.Seccomp.Laws.{member-merge_syscall_lists, setup_seccomp-eq-ok}

abbrev some_opts : CapabilityOpts
some_opts = record { add = 3 ∷ 1 ∷ []; drop = 0 ∷ 1 ∷ [] }

member-final_caps_example :
    (member {A = ℕ} 1 (final_caps some_opts (0 ∷ 1 ∷ 2 ∷ [])) ≡ (
      member {A = ℕ} 1 some_opts.add
      || (not (member {A = ℕ} 1 some_opts.drop) && member {A = ℕ} 1 (0 ∷ 1 ∷ 2 ∷ []))))
    × Distinct {A = ℕ} (final_caps some_opts (0 ∷ 1 ∷ 2 ∷ []))
member-final_caps_example = member-final_caps some_opts (0 ∷ 1 ∷ 2 ∷ []) 1

member-merge_syscall_lists_example :
    (member {A = String} "ptrace" (merge_syscall_lists ("ptrace" ∷ []) ("fork" ∷ [])) ≡ (
      not (member {A = String} "ptrace" ("ptrace" ∷ []))
      && (member {A = String} "ptrace" ("fork" ∷ [])
          || member {A = String} "ptrace" default_deny_syscalls)))
    × IsSorted (merge_syscall_lists ("ptrace" ∷ []) ("fork" ∷ []))
    × Distinct {A = String} (merge_syscall_lists ("ptrace" ∷ []) ("fork" ∷ []))
member-merge_syscall_lists_example =
    member-merge_syscall_lists ("ptrace" ∷ []) ("fork" ∷ []) "ptrace"

apply_caps-eq-ok_example :
    (ids : List ℕ) × (from_capabilities default_library default_caps ≡ ok ids)
    × ((apply_caps default_library obliging some_opts []).1
        ≡ apply_calls (all_types (final_caps some_opts ids)) [])
unfolding apply_caps build_cap_sets install_caps from_capabilities from_capabilities_loop
    from_capability cap_name_to_id normalize_cap lift wrapping perform tell ◌>>=◌
apply_caps-eq-ok_example = apply_caps-eq-ok default_library obliging some_opts [] refl

setup_seccomp-eq-ok_example :
    (k : Log) × (r : Option Errno) × ((setup_seccomp obliging (λ _. true) [] ("fork" ∷ []) []).1
      ≡ record { call = filter_release; failure = r } ∷ done filter_load ∷ k)
    × ((name : String)
        → member name (merge_syscall_lists [] ("fork" ∷ [])) ≡ true
        → true ≡ true
        → Called (filter_add_rule name enosys) k)
unfolding setup_seccomp fill_filter wrapping perform ◌>>=◌ finally tolerating for_each
    merge_syscall_lists sort delete_all insert_all insert member text_le deny ignoring
setup_seccomp-eq-ok_example = setup_seccomp-eq-ok obliging (λ _. true) [] ("fork" ∷ []) [] refl
