-- ===== src/Sandbox/Child/Preparing.antt =====
-- Which kinds of calls the child makes before its command.
use microbox.Base.{ℕ, String, Bool, true, false, List}
use microbox.Os.{Kernel, ◌>>◌, log_warn, log_error}
use microbox.Os.Kinds.{Preparing}
use microbox.Os.Keeps.{Emits, Emits-each, emits_rules}
use microbox.Sandbox.Capabilities.{CapLibrary, CapabilityOpts, CapsByType, install_caps, apply_caps}
use microbox.Sandbox.Seccomp.{deny_if, deny, fill_filter, setup_seccomp}
use microbox.Sandbox.Pipe.{wait_for_parent}
use microbox.Sandbox.Child.{exit_with, set_hostname}

module _ (K : Kernel) where
  install_caps-Preparing : (by_type : CapsByType) → Emits Preparing (install_caps K by_type)
  unfolding install_caps
  install_caps-Preparing by_type = search emits_rules depth 14

  pub apply_caps-Preparing :
      (L : CapLibrary) (o : CapabilityOpts) → Emits Preparing (apply_caps L K o)
  unfolding apply_caps
  apply_caps-Preparing L o = search (emits_rules, install_caps-Preparing)

  pub exit_with-Preparing : (code : ℕ) → Emits Preparing (exit_with K code)
  unfolding exit_with
  exit_with-Preparing code = search emits_rules

  pub set_hostname-Preparing : (hostname : String) → Emits Preparing (set_hostname K hostname)
  unfolding set_hostname log_warn
  set_hostname-Preparing hostname = search emits_rules

  -- What follows an error.
  pub give_up-Preparing :
      (message : String) (code : ℕ) → Emits Preparing (log_error K message >> exit_with K code)
  unfolding log_error
  give_up-Preparing message code = search (emits_rules, exit_with-Preparing)

  pub wait_for_parent-Preparing : (rfd : ℕ) → Emits Preparing (wait_for_parent K rfd)
  unfolding wait_for_parent
  wait_for_parent-Preparing rfd = search emits_rules depth 9

module _ (K : Kernel) (known : String → Bool) where
  deny-Preparing : (name : String) (b : Bool) → Emits Preparing (deny_if K known name b)
  unfolding deny_if
  deny-Preparing name true = search emits_rules
  deny-Preparing name false = search emits_rules

  pub setup_seccomp-Preparing :
      (allow_sys deny_sys : List String)
      → Emits Preparing (setup_seccomp K known allow_sys deny_sys)
  unfolding setup_seccomp fill_filter deny
  setup_seccomp-Preparing allow_sys deny_sys =
      search (emits_rules, Emits-each, deny-Preparing) depth 12
