-- ===== src/Sandbox/Child/Launched.antt =====
-- What the child has done when it runs its command.
use microbox.Base.{
  ℕ, String, Bool, true, List, [], ◌∷◌, ◌≡◌, refl, arith, Option, some, Option-cases, inl, inr, ◌⊎◌,
}
use microbox.Base.Keys.{string_eq, member}
use microbox.Os.{
  Errno, enosys, Log, exit, exec, log_failure, filter_add_rule, filter_load, filter_release, ok,
  Kernel, Io, pure, ◌>>=◌, ignoring, perform, branching, log_error, log_warn, ◌>>◌,
}
use microbox.Os.Called.{Called}
use microbox.Os.Success.{done, branching-cases, bind_returned}
use microbox.Fs.Setup.{setup_fs}
use microbox.Fs.Setup.Pivoted.{EndsIn, setup_fs-eq-ok}
use microbox.Sandbox.Capabilities.{
  CapLibrary, default_caps, from_capabilities, all_types, final_caps, apply_caps,
}
use microbox.Sandbox.Capabilities.Laws.{apply_calls, apply_caps-eq-ok}
use microbox.Sandbox.Seccomp.{merge_syscall_lists, setup_seccomp}
use microbox.Sandbox.Seccomp.Laws.{setup_seccomp-eq-ok}
use microbox.Sandbox.Env.{to_string_array}
use microbox.Sandbox.Pipe.{wait_for_parent}
use microbox.Sandbox.Flags.{SandboxOptions}
use microbox.Sandbox.Child.{
  fs_opts, exit_with, or_exit, set_hostname, exec_command, confine, setup_and_confine, child_main,
}

-- The last call is an exit with this code.
abbrev pub Exited : ℕ → Log → Type 0
Exited code l = (k : Log) × (r : Option Errno) × (l ≡ record { call = exit code; failure = r } ∷ k)

-- Without a command, the child exits with 2. With one, the command was run as the last call; or the
-- exec failed, and the child said so and exited with 127.
abbrev pub Ran : List String → List String → Log → Log → Type 0
Ran [] env l l' = (r : Option Errno) × (l' ≡ record { call = exit 2; failure = r } ∷ l)
Ran (command ∷ args) env l l' =
    (l' ≡ done (exec command (command ∷ args) env) ∷ l)
    ⊎ ((e : Errno) × (r : Option Errno) × (told : Option Errno) × (l'
          ≡ record { call = exit 127; failure = r }
            ∷ record { call = log_failure "failed to execute process"; failure = told }
            ∷ record { call = exec command (command ∷ args) env; failure = some e }
            ∷ l))

-- What the child has done when it gets to its command: the parent has let it go, the root is the one
-- that was asked for with the old one gone, the capabilities are the allowed ones, and the filter is
-- loaded after `AddRule` was called for each denied system call that libseccomp knows. (Whether
-- `AddRule` added the rule is not said: the code goes on where it fails.)
pub record Confined (K : Kernel) (L : CapLibrary) (known : String → Bool) (opts : SandboxOptions)
    (rfd : ℕ) (l l' : Log) : Type 0 where
  pub released_log : Log
  pub rooted_log : Log
  pub rules_log : Log
  pub ids : List ℕ
  pub freed : Option Errno
  pub released : wait_for_parent K rfd l ≡ (ok tt, released_log)
  pub set_up :
      setup_fs K (fs_opts opts) (set_hostname K opts.hostname released_log).1 ≡ (ok tt, rooted_log)
  pub rooted : EndsIn (fs_opts opts) opts.fs.mode rooted_log
  pub defaults : from_capabilities L default_caps ≡ ok ids
  pub by_filter :
      (setup_seccomp K known opts.allow_sys opts.deny_sys
        (apply_calls (all_types (final_caps opts.capabilities ids)) rooted_log)).1
      ≡ l'
  pub filtered :
      l' ≡ record { call = filter_release; failure = freed } ∷ done filter_load ∷ rules_log
  pub denied :
      (name : String)
      → member name (merge_syscall_lists opts.allow_sys opts.deny_sys) ≡ true
      → known name ≡ true
      → Called (filter_add_rule name enosys) rules_log

-- The child's way to the command, and what has become of the command.
pub record Launched (K : Kernel) (L : CapLibrary) (known : String → Bool) (opts : SandboxOptions)
    (rfd : ℕ) (l l' : Log) : Type 0 where
  pub confined_log : Log
  pub confined : Confined K L known opts rfd l confined_log
  pub ran : Ran opts.commands (to_string_array opts.env) confined_log l'

module _ (K : Kernel) where
  exit_with-Exited : (code : ℕ) (l : Log) → Exited code (exit_with K code l).1
  unfolding exit_with ignoring perform
  exit_with-Exited code l = (l, K.act l (exit code), refl)

  or_exit-cases :
      (message : String) (m rest : Io (Unit {0})) (l : Log)
      → ((k : Log) × (m l ≡ (ok tt, k)) × (or_exit K message m rest l ≡ rest k))
        ⊎ Exited 1 (or_exit K message m rest l).1
  unfolding or_exit log_error ignoring ◌>>=◌
  or_exit-cases message m rest l =
      elim (branching-cases m (λ _. rest) (λ _. log_error K message >> exit_with K 1) l) [
        | inl (_, k, p, q) ↦ inl (k, p, q)
        | inr (e, k, p, q) ↦ inr (rw q (exit_with-Exited 1 _))
      ]

  exec_command-Ran :
      (commands env : List String) (l : Log) → Ran commands env l (exec_command K commands env l).1
  unfolding exec_command exit_with perform log_error ignoring branching ◌>>=◌ pure
  exec_command-Ran [] env l = (K.act l (exit 2), refl)
  exec_command-Ran (command ∷ args) env l =
      let c = exec command (command ∷ args) env in
      elim (Option-cases (K.act l c)) [
        | inl p ↦ inl (ground arith)
        | inr (e, p) ↦
            let l1 = record { call = c; failure = some e } ∷ l in
            let told = K.act l1 (log_failure "failed to execute process") in
            let l2 =
              record { call = log_failure "failed to execute process"; failure = told } ∷ l1 in
            inr (e, K.act l2 (exit 127), told, ground arith)
      ]

  set_hostname-ok : (hostname : String) (l : Log) → (set_hostname K hostname l).0 ≡ ok tt
  unfolding set_hostname branching log_warn ignoring pure
  set_hostname-ok hostname l = ground arith

module _ (K : Kernel) (L : CapLibrary) (known : String → Bool) (opts : SandboxOptions) where
  -- From the root that was set up on, where the two last steps succeed.
  pub confined_lem :
      (rfd : ℕ) (l l1 l2 l3 l4 : Log)
      → wait_for_parent K rfd l ≡ (ok tt, l1)
      → setup_fs K (fs_opts opts) (set_hostname K opts.hostname l1).1 ≡ (ok tt, l2)
      → apply_caps L K opts.capabilities l2 ≡ (ok tt, l3)
      → setup_seccomp K known opts.allow_sys opts.deny_sys l3 ≡ (ok tt, l4)
      → Confined K L known opts rfd l l4
  confined_lem rfd l l1 l2 l3 l4 w s c f =
      let (ids, d, p) = apply_caps-eq-ok L K opts.capabilities l2 c in
      let (k, r, q, rules) = setup_seccomp-eq-ok K known opts.allow_sys opts.deny_sys l3 f in
      record {
        released_log = l1;
        rooted_log = l2;
        rules_log = k;
        ids = ids;
        freed = r;
        released = w;
        set_up = s;
        rooted = setup_fs-eq-ok K (fs_opts opts) _ s;
        defaults = d;
        by_filter = rw (← p, f) refl;
        filtered = q;
        denied = rules;
      }

  after_root :
      (rfd : ℕ) (l l1 l2 : Log)
      → wait_for_parent K rfd l ≡ (ok tt, l1)
      → setup_fs K (fs_opts opts) (set_hostname K opts.hostname l1).1 ≡ (ok tt, l2)
      → Exited 1 (confine K L known opts l2).1
        ⊎ Launched K L known opts rfd l (confine K L known opts l2).1
  unfolding confine
  after_root rfd l l1 l2 w s =
      let run = exec_command K opts.commands (to_string_array opts.env) in
      let filtering =
        or_exit K "failed to setup seccomp rules"
          (setup_seccomp K known opts.allow_sys opts.deny_sys) run in
      elim (or_exit-cases K "failed to apply capabilities" (apply_caps L K opts.capabilities)
        filtering l2) [
          | inr x ↦ inl x
          | inl (l3, c, p) ↦
              elim (or_exit-cases K "failed to setup seccomp rules"
                (setup_seccomp K known opts.allow_sys opts.deny_sys) run l3) [
                  | inr x ↦ inl (rw p x)
                  | inl (l4, f, q) ↦ inr (
                      rw (p, q)
                        (record {
                          confined_log = l4;
                          confined = confined_lem rfd l l1 l2 l3 l4 w s c f;
                          ran = exec_command-Ran K opts.commands (to_string_array opts.env) l4;
                        }))
                ]
        ]

  after_release :
      (rfd : ℕ) (l l1 : Log)
      → wait_for_parent K rfd l ≡ (ok tt, l1)
      → let k = (set_hostname K opts.hostname l1).1 in
        Exited 1 (setup_and_confine K L known opts k).1
        ⊎ Launched K L known opts rfd l (setup_and_confine K L known opts k).1
  unfolding setup_and_confine
  after_release rfd l l1 w =
      elim (or_exit-cases K "failed to setup filesystem" (setup_fs K (fs_opts opts))
        (confine K L known opts) (set_hostname K opts.hostname l1).1) [
          | inr x ↦ inl x
          | inl (l2, s, p) ↦ rw p (after_root rfd l l1 l2 w s)
        ]

  -- However the kernel answers, the child either ends with an exit of 1, or it has been let go by its
  -- parent, has set up its root, set its capabilities and loaded its filter, each with success and in
  -- this order (with `AddRule` called for each denied system call that is known), and next it has
  -- called exec for its command with the environment: with success and as the last call, or with a
  -- failure after which it logs that and exits with 127. Without a command it exits with 2 instead.
  pub child_main-Launched :
      (rfd : ℕ) (l : Log)
      → Exited 1 (child_main K L known opts rfd l).1
        ⊎ Launched K L known opts rfd l (child_main K L known opts rfd l).1
  unfolding child_main
  child_main-Launched rfd l =
      elim (branching-cases (wait_for_parent K rfd)
        (λ _. set_hostname K opts.hostname >> setup_and_confine K L known opts) (λ _. exit_with K 1)
        l) [
          | inr (e, k, p, q) ↦ inl (rw q (exit_with-Exited K 1 k))
          | inl (_, l1, w, q) ↦
              rw
                (
                  q,
                  bind_returned (set_hostname K opts.hostname)
                      (λ _. setup_and_confine K L known opts) l1
                      (set_hostname-ok K opts.hostname l1),
                )
                (after_release rfd l l1 w)
        ]
