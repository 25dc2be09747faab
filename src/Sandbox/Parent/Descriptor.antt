-- ===== src/Sandbox/Parent/Descriptor.antt =====
-- The descriptor of the child, as clone3 leaves it in a variable that holds -1.
use microbox.Base.{ℕ, ◌+◌, ◌-◌, ◌^◌, ◌<◌, ltb, false, ◌≡◌, ◌∙◌, ap, arith}
use microbox.Base.Space.{negsuc}
use microbox.Os.{Log, got, ok, Kernel}
use microbox.Sandbox.Flags.{SandboxOptions}
use microbox.Sandbox.Cgroup.{CpuShare}
use microbox.Sandbox.Parent.{
  Networking, SandboxProcess, minus_one, written_int, as_int, new_sandbox,
}
use microbox.Sandbox.Parent.Signalled.{new_sandbox-LetGo}

written_int-minus_one :
    (fd : ℕ) → fd < 2 ^ 32 → as_int (written_int minus_one fd) ≡ negsuc (2 ^ 32 - 1 - fd)
unfolding written_int as_int
written_int-minus_one fd small =
    let bits : written_int minus_one fd ≡ 18446744069414584320 + fd = omega arith in
    let signed : ltb (18446744069414584320 + fd) (2 ^ 63) ≡ false = ground arith in
    rw (bits, signed) (ap negsuc (omega arith))

module _ (K : Kernel) (N : Networking) (opts : SandboxOptions) (cpus : CpuShare) (memory : ℕ) where
  -- Where every descriptor that clone3 answers with is a number of 31 bits, the `pidfd` of a sandbox
  -- that is returned is 2 ^ 32 less than the descriptor of its child.
  pub new_sandbox_pidfd :
      ((l : Log) (child : ℕ × ℕ) → K.clone3 l ≡ got child → child.1 < 2 ^ 31)
      → (l : Log) {p : SandboxProcess} {l' : Log} → new_sandbox K N opts cpus memory l ≡ (ok p, l')
      → (k : Log) × (fd : ℕ) × (K.clone3 k ≡ got (p.pid, fd)) × (p.pidfd ≡ negsuc (2 ^ 32 - 1 - fd))
  new_sandbox_pidfd small l {p} h =
      let prepared = (new_sandbox-LetGo K N opts cpus memory l h).1.prepared in
      let (k, _, answered) = prepared.made in
      let fits = small k (p.pid, prepared.fd) answered in
      (
        k,
        prepared.fd,
        answered,
        prepared.descriptor ∙ written_int-minus_one prepared.fd (omega arith),
      )
