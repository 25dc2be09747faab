-- ===== src/Sandbox/Flags/Laws.antt =====
-- Which namespaces are new.
use microbox.Base.{true, not, inl, inr, Bool-cases, ◌≡◌, refl}
use microbox.Os.{newnet, newuser, newns, newpid, has_clone_flag}
use microbox.Sandbox.Flags.{
  SandboxOptions, is_net_host, is_user_namespace_host, create_sandbox_flags,
}

-- A sandbox always gets its own mount and process namespaces; it gets its own network namespace
-- exactly if its network is not the host's, and its own user namespace exactly if its mode is not the
-- host's.
pub has_clone_flag-create_sandbox_flags :
    (opts : SandboxOptions)
    → (has_clone_flag newns (create_sandbox_flags opts) ≡ true)
      × (has_clone_flag newpid (create_sandbox_flags opts) ≡ true)
      × (has_clone_flag newnet (create_sandbox_flags opts) ≡ not (is_net_host opts.net))
      × (has_clone_flag newuser (create_sandbox_flags opts)
          ≡ not (is_user_namespace_host opts.namespace_mode))
unfolding create_sandbox_flags
has_clone_flag-create_sandbox_flags opts = elim (Bool-cases (is_net_host opts.net)) [
  | inl p ↦ elim (Bool-cases (is_user_namespace_host opts.namespace_mode)) [
    | inl q ↦ rw (p, q) (refl, refl, refl, refl)
    | inr q ↦ rw (p, q) (refl, refl, refl, refl)
  ]
  | inr p ↦ elim (Bool-cases (is_user_namespace_host opts.namespace_mode)) [
    | inl q ↦ rw (p, q) (refl, refl, refl, refl)
    | inr q ↦ rw (p, q) (refl, refl, refl, refl)
  ]
]
