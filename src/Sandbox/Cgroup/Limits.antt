-- ===== src/Sandbox/Cgroup/Limits.antt =====
-- What the limits do, and what the clean-up ends with.
use microbox.Base.{
  ℕ, zero, suc, String, ◌<>◌, false, [], ◌∷◌, ◌≡◌, refl, ◌∙◌, sym, ap, arith, Option, ◌=ᵇ◌, inl,
  inr,
}
use microbox.Base.Text.{is_empty}
use microbox.Base.Decimal.{decimal}
use microbox.Filepath.{join}
use microbox.Os.{
  Errno, Event, Log, write_file, remove, is_not_exist, ok, Kernel, Io, pure, ◌>>◌, ignoring,
  tolerating, branching, perform, os_write_file, syscall_mode,
}
use microbox.Os.Success.{
  done, >>=-eq-ok, perform-eq-ok, wrapping-eq-ok, after_wrapping, bind_returned, branching-cases,
  ok-injective,
}
use microbox.Sandbox.Cgroup.{
  CpuShare, cg_parent, cpu_line, set_cpu, limit_memory, set_memory, fill_cgroup,
  setup_cgroup_limits, kill_members, remove_group, cleanup_cgroup,
}

-- A file of the group that was written.
abbrev pub set_file : String → String → String → Event
set_file cg_path name content = done (write_file (join cg_path name) content 0o644)

-- The calls that limit the memory, the latest first: a limit of 0 is none.
abbrev pub MemoryCalls : String → ℕ → Log → Log → Type 0
MemoryCalls cg_path zero l l' = l' ≡ set_file cg_path "memory.max" "max" ∷ l
MemoryCalls cg_path (suc n) l l' =
    (swap : Option Errno) × (l'
      ≡ record { call = write_file (join cg_path "memory.swap.max") "0" 0o644; failure = swap }
        ∷ set_file cg_path "memory.max" (decimal (suc n))
        ∷ l)

module _ (K : Kernel) where
  limit_memory-MemoryCalls :
      (cg_path : String) (n : ℕ) (l : Log) {l' : Log}
      → limit_memory K cg_path (suc n) l ≡ (ok tt, l')
      → MemoryCalls cg_path (suc n) l l'
  unfolding limit_memory os_write_file syscall_mode ignoring perform
  limit_memory-MemoryCalls cg_path n l {l'} h =
      let (_, l1, e, h1) = >>=-eq-ok _ _ l h in
      let written : l1 ≡ set_file cg_path "memory.max" (decimal (suc n)) ∷ l =
        perform-eq-ok K _ l (wrapping-eq-ok _ _ _ l e) in
      let swap = K.act l1 (write_file (join cg_path "memory.swap.max") "0" 0o644) in
      let ended : record {
        call = write_file (join cg_path "memory.swap.max") "0" 0o644;
        failure = swap;
      }
            ∷ l1
          ≡ l' =
        ap (λ r. r.1) h1 in
      (
        swap,
        sym ended
            ∙ ap
                (λ k.
                  record {
                    call = write_file (join cg_path "memory.swap.max") "0" 0o644;
                    failure = swap;
                  }
                  ∷ k)
                written,
      )

  set_memory-MemoryCalls :
      (cg_path : String) (memory : ℕ) (l : Log) {l' : Log}
      → set_memory K cg_path memory l ≡ (ok tt, l')
      → MemoryCalls cg_path memory l l'
  unfolding set_memory os_write_file syscall_mode
  set_memory-MemoryCalls cg_path zero l h = perform-eq-ok K _ l (wrapping-eq-ok _ _ _ l h)
  set_memory-MemoryCalls cg_path (suc n) l {l'} h =
      let positive : (suc n =ᵇ 0) ≡ false = ground arith in
      limit_memory-MemoryCalls cg_path n l (rw positive at h)

  fill_cgroup-eq-ok :
      (cg_path : String) (pid : ℕ) (cpus : CpuShare) (memory : ℕ) (l : Log) {path : String}
      {l' : Log}
      → fill_cgroup K cg_path pid cpus memory l ≡ (ok path, l')
      → (k : Log) × (path ≡ cg_path)
        × MemoryCalls cg_path memory (set_file cg_path "cpu.max" (cpu_line cpus) ∷ l) k
        × (l' ≡ set_file cg_path "cgroup.procs" (decimal pid) ∷ k)
  unfolding fill_cgroup set_cpu os_write_file syscall_mode
  fill_cgroup-eq-ok cg_path pid cpus memory l {path} {l'} h =
      let h1 = after_wrapping K _ _ l "write cpu.max: %w" [] h in
      let (_, k, e, h2) = >>=-eq-ok _ _ _ h1 in
      let h3 = after_wrapping K _ _ k "attach pid to cgroup: %w" [] h2 in
      let built : (cg_path ≡ path) × (set_file cg_path "cgroup.procs" (decimal pid) ∷ k ≡ l') =
        unfold pure in (ok-injective (ap (λ r. r.0) h3), ap (λ r. r.1) h3) in
      (k, sym built.0, set_memory-MemoryCalls cg_path memory _ e, sym built.1)

  -- When `SetupCgroupLimits` returns a path, it is that of a group below the program's own, named for
  -- the process and the time; the CPU limit and the memory limit were written to it, and only then
  -- the process was moved into it, each with success (swap may not have been turned off).
  pub setup_cgroup_limits-eq-ok :
      (pid : ℕ) (cpus : CpuShare) (memory : ℕ) (l : Log) {path : String} {l' : Log}
      → setup_cgroup_limits K pid cpus memory l ≡ (ok path, l')
      → (t : ℕ) × (made : Log) × (limited : Log) × (path
          ≡ join cg_parent (decimal pid <> "-" <> decimal t))
        × MemoryCalls
            (join cg_parent (decimal pid <> "-" <> decimal t))
            memory
            (set_file (join cg_parent (decimal pid <> "-" <> decimal t)) "cpu.max" (cpu_line cpus)
              ∷ made)
            limited
        × (l'
            ≡ set_file
                (join cg_parent (decimal pid <> "-" <> decimal t))
                "cgroup.procs"
                (decimal pid)
              ∷ limited)
  unfolding setup_cgroup_limits
  setup_cgroup_limits-eq-ok pid cpus memory l h =
      let (_, l1, _, h1) = >>=-eq-ok _ _ l h in
      let (t, l2, _, h2) = >>=-eq-ok _ _ l1 h1 in
      let (_, l3, _, h3) = >>=-eq-ok _ _ l2 h2 in
      let (k, e, m, f) = fill_cgroup-eq-ok _ pid cpus memory l3 h3 in (t, l3, k, e, m, f)

  removed_last :
      (cg_path : String) (m : Io (Unit {0})) (l : Log)
      → (m l).0 ≡ ok tt
      → (k : Log) × (r : Option Errno) × (((m >> remove_group K cg_path) l).1
          ≡ record { call = remove cg_path; failure = r } ∷ k)
  removed_last cg_path m l h = (
    (m l).1,
    K.act (m l).1 (remove cg_path),
    ap (λ r. r.1) (bind_returned m (λ _. remove_group K cg_path) l h)
        ∙ (unfold remove_group tolerating perform in refl),
  )

  abbrev kill_members_or_skip : String → Io (Unit {0})
  kill_members_or_skip cg_path =
      branching (tolerating is_not_exist (os_write_file K (join cg_path "cgroup.kill") "1" 0o644))
        pure (λ _. ignoring (kill_members K cg_path))

  kill_members_or_skip-ok :
      (cg_path : String) (l : Log) → (kill_members_or_skip cg_path l).0 ≡ ok tt
  unfolding ignoring pure
  kill_members_or_skip-ok cg_path l =
      elim (branching-cases
        (tolerating is_not_exist (os_write_file K (join cg_path "cgroup.kill") "1" 0o644)) pure
        (λ _. ignoring (kill_members K cg_path)) l) [
          | inl (x, k, p, q) ↦ ap (λ r. r.0) q
          | inr (e, k, p, q) ↦ ap (λ r. r.0) q
        ]

  -- However the killing of its members goes, the clean-up of a group ends with an attempt to remove it.
  pub cleanup_cgroup_removes :
      (cg_path : String) (l : Log)
      → is_empty cg_path ≡ false
      → (k : Log) × (r : Option Errno) × ((cleanup_cgroup K cg_path l).1
          ≡ record { call = remove cg_path; failure = r } ∷ k)
  unfolding cleanup_cgroup
  cleanup_cgroup_removes cg_path l h =
      rw h
        (removed_last cg_path (kill_members_or_skip cg_path) l (kill_members_or_skip-ok cg_path l))
