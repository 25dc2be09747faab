-- ===== src/Sandbox/Parent/Waiting.antt =====
-- What waiting returns.
use microbox.Base.{
  ℕ, zero, suc, ◌+◌, true, false, ◌∷◌, ◌≡◌, refl, ◌∙◌, sym, ap, arith, Option, none, some, ◌=ᵇ◌,
  inl, inr, ◌⊎◌, Bool-cases,
}
use microbox.Base.Text.{is_empty}
use microbox.Os.{
  Errno, Error, eintr, WaitStatus, exited, signaled, other_status, err, warn, remove, perform,
  wait4, Log, ok, got, failed, Kernel, Io, pure, ◌>>=◌, ask, attempt, finally, ignoring, log_warn,
}
use microbox.Os.Success.{done, bind_returned, branching-cases}
use microbox.Sandbox.Cgroup.{cleanup_cgroup}
use microbox.Sandbox.Cgroup.Limits.{cleanup_cgroup_removes}
use microbox.Sandbox.Parent.{
  SandboxProcess, after_wait4, wait_loop, clean_network, exit_status, after_exit, wait_and_clean,
  wait,
}

-- The log after a number of waits that a signal has interrupted.
abbrev pub interrupted : ℕ → ℕ → Log → Log
interrupted pid zero l = l
interrupted pid (suc n) l =
    interrupted pid n (record { call = wait4 pid; failure = some eintr } ∷ l)

-- The kernel interrupts a number of waits, and then answers that the process has ended.
abbrev pub EndsAfter : Kernel → ℕ → ℕ → WaitStatus → Log → Type 0
EndsAfter K pid zero ws l = K.wait4 l pid ≡ got (pid, ws)
EndsAfter K pid (suc n) ws l =
    (K.wait4 l pid ≡ failed eintr)
    × EndsAfter K pid n ws (record { call = wait4 pid; failure = some eintr } ∷ l)

-- The code for what the kernel reports: the process's own if it exited, 128 and the signal if a signal
-- killed it, and else 0.
pub data Reported : WaitStatus → ℕ → Type 0 where
  by_exit : (code : ℕ) → Reported (exited code) code
  by_signal : (signal : ℕ) → Reported (signaled signal) (128 + signal)
  by_other : Reported other_status 0

-- The network's clean-up has run, if there is one, and a failure of it was warned about.
abbrev pub CleanedUp : Option (Io (Unit {0})) → Log → Log → Type 0
CleanedUp none l l' = l' ≡ l
CleanedUp (some cleanup) l l' =
    (cleanup l ≡ (ok tt, l'))
    ⊎ ((e : Error) × (k : Log) × (r : Option Errno) × (cleanup l ≡ (err e, k))
        × (l' ≡ record { call = warn "failed to cleanup networking"; failure = r } ∷ k))

-- What `Wait` has done after the process has ended: the clean-up of the network, and then that of the
-- control group, whose last call is to remove the group.
pub record Cleaned (K : Kernel) (p : SandboxProcess) (l l' : Log) : Type 0 where
  pub network_log : Log
  pub network : CleanedUp p.network l network_log
  pub cgroup : l' ≡ (cleanup_cgroup K p.cg_path network_log).1
  pub removed :
      (is_empty p.cg_path ≡ true)
      ⊎ ((k : Log) × (r : Option Errno) × (l'
            ≡ record { call = remove p.cg_path; failure = r } ∷ k))

eq_self : (n : ℕ) → (n =ᵇ n) ≡ true
eq_self n = ground arith

module _ (K : Kernel) where
  again :
      (rounds pid : ℕ) (l : Log)
      → K.wait4 l pid ≡ failed eintr
      → wait_loop K (suc rounds) pid l
        ≡ wait_loop K rounds pid (record { call = wait4 pid; failure = some eintr } ∷ l)
  unfolding wait_loop after_wait4 ◌>>=◌ attempt ask
  again rounds pid l h = rw h refl

  stop :
      (rounds pid : ℕ) (ws : WaitStatus) (l : Log)
      → K.wait4 l pid ≡ got (pid, ws)
      → wait_loop K (suc rounds) pid l ≡ (ok (some ws), done (wait4 pid) ∷ l)
  unfolding wait_loop after_wait4 ◌>>=◌ attempt ask pure
  stop rounds pid ws l h = rw (h, eq_self pid) refl

  wait_loop_ends :
      (n more pid : ℕ) (ws : WaitStatus) (l : Log)
      → EndsAfter K pid n ws l
      → wait_loop K (suc (n + more)) pid l ≡ (ok (some ws), done (wait4 pid) ∷ interrupted pid n l)
  wait_loop_ends zero more pid ws l h = stop _ pid ws l h
  wait_loop_ends (suc n) more pid ws l h =
      let regroup : suc n + more ≡ suc (n + more) = omega arith in
      rw regroup (again _ pid l h.0 ∙ wait_loop_ends n more pid ws _ h.1)

  clean_network-ok :
      (network : Option (Io (Unit {0}))) (l : Log) → (clean_network K network l).0 ≡ ok tt
  unfolding clean_network pure log_warn ignoring
  clean_network-ok none l = refl
  clean_network-ok (some cleanup) l =
      elim (branching-cases cleanup pure (λ _. log_warn K "failed to cleanup networking") l) [
        | inl (x, k, p, q) ↦ ap (λ r. r.0) q
        | inr (e, k, p, q) ↦ ap (λ r. r.0) q
      ]

  waited :
      (n more : ℕ) (p : SandboxProcess) (ws : WaitStatus) (l : Log)
      → EndsAfter K p.pid n ws l
      → wait_and_clean K (suc (n + more)) p l ≡ (
        ok (some (exit_status ws)),
        (clean_network K p.network (done (wait4 p.pid) ∷ interrupted p.pid n l)).1,
      )
  unfolding wait_and_clean after_exit pure
  waited n more p ws l ends =
      let ended = wait_loop_ends n more p.pid ws l ends in
      let m = wait_loop K (suc (n + more)) p.pid in
      bind_returned m (after_exit K p) l (ap (λ r. r.0) ended)
      ∙ ap (λ r. after_exit K p (some ws) r.1) ended
      ∙ bind_returned (clean_network K p.network) _ _ (clean_network-ok p.network _)

  exit_status-Reported : (ws : WaitStatus) → Reported ws (exit_status ws)
  unfolding exit_status
  exit_status-Reported (exited code) = by_exit code
  exit_status-Reported (signaled signal) = by_signal signal
  exit_status-Reported other_status = by_other

  clean_network-CleanedUp :
      (network : Option (Io (Unit {0}))) (l : Log)
      → CleanedUp network l (clean_network K network l).1
  unfolding clean_network pure log_warn ignoring perform
  clean_network-CleanedUp none l = refl
  clean_network-CleanedUp (some cleanup) l =
      elim (branching-cases cleanup pure (λ _. log_warn K "failed to cleanup networking") l) [
        | inl (tt, k, p, q) ↦ inl (p ∙ λ i. (ok tt, (sym q i).1))
        | inr (e, k, p, q) ↦
            inr (e, k, K.act k (warn "failed to cleanup networking"), p, λ i. (q i).1)
      ]

  clean_up-Cleaned :
      (p : SandboxProcess) (l : Log)
      → Cleaned K p l (cleanup_cgroup K p.cg_path (clean_network K p.network l).1).1
  clean_up-Cleaned p l =
      let k = (clean_network K p.network l).1 in
      record {
        network_log = k;
        network = clean_network-CleanedUp p.network l;
        cgroup = refl;
        removed = elim (Bool-cases (is_empty p.cg_path)) [
          | inl e ↦ inl e
          | inr e ↦ inr (cleanup_cgroup_removes K p.cg_path k e)
        ];
      }

  -- `Wait` of a process whose pid is not 0 ends: where the kernel interrupts it a number of times and then says that the process has
  -- ended, one more round than that is enough, and any more make no difference. It returns the code
  -- of the process, or 128 and the signal that has killed it. Before that it has run the clean-up of
  -- the network, warning of its failure, and then that of the control group, whose last call tries to
  -- remove the group if there is one.
  pub wait_returns :
      (n more : ℕ) (p : SandboxProcess) (ws : WaitStatus) (l : Log)
      → (p.pid =ᵇ 0) ≡ false
      → EndsAfter K p.pid n ws l
      → (code : ℕ) × (l' : Log) × (wait K (suc (n + more)) p l ≡ (ok (some code), l'))
        × Reported ws code
        × Cleaned K p (done (wait4 p.pid) ∷ interrupted p.pid n l) l'
  unfolding wait finally
  wait_returns n more p ws l positive ends = (
    exit_status ws,
    (cleanup_cgroup K p.cg_path
        (clean_network K p.network (done (wait4 p.pid) ∷ interrupted p.pid n l)).1).1,
    rw (positive, waited n more p ws l ends) refl,
    exit_status-Reported ws,
    clean_up-Cleaned p _,
  )
