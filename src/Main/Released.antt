-- ===== src/Main/Released.antt =====
-- When the child of a sandbox with the network of net/ may act.
use microbox.Base.{ℕ, String, Bool, ◌∷◌, ◌++◌, ◌≡◌, ◌⊎◌}
use microbox.Os.{Event, Kernel}
use microbox.Os.Kinds.{NoSignal}
use microbox.Os.Keeps.{Emits, emits_rules}
use microbox.Net.{NetworkMode}
use microbox.Net.Ipam.{CidrLibrary}
use microbox.Net.Container.Silent.{setup-NoSignal}
use microbox.Sandbox.Capabilities.{CapLibrary}
use microbox.Sandbox.Cgroup.{CpuShare}
use microbox.Sandbox.Flags.{SandboxOptions}
use microbox.Sandbox.System.{parent, child, History, calls_of, Together}
use microbox.Sandbox.System.Start.{Waits}
use microbox.Sandbox.System.Released.{Ready, acts-Ready}
use microbox.Main.{bridge_networking}

module _ (K : Kernel) (L : CidrLibrary) (addresses : ℕ) where
  networking-NoSignal :
      (pid : ℕ) (mode : NetworkMode)
      → Emits NoSignal ((bridge_networking K L addresses).setup_container_networking pid mode)
  unfolding bridge_networking
  networking-NoSignal pid mode =
      let set_up = setup-NoSignal K L addresses (record { child_pid = pid; mode = mode }) in
      search emits_rules

  -- However the calls of a sandbox's parent and of its child are interleaved, as far as the pipe allows
  -- it, and whatever the kernel answers to either: each call of the child that is not its read of the
  -- pipe, the close of its end or an exit with 1 comes after the parent has made the child, mapped its
  -- identifiers (unless its user namespace is the host's), set its limits and set up its network (if it
  -- has one), each with success.
  pub held_back :
      (C : Kernel) (caps : CapLibrary) (known : String → Bool) (opts : SandboxOptions)
      (cpus : CpuShare) (memory rfd wfd : ℕ) (h : History)
      → Together K C (bridge_networking K L addresses) caps known opts cpus memory rfd wfd h
      → (after before : History) (e : Event) → h ≡ after ++ (child, e) ∷ before
      → Waits rfd e.call
        ⊎ Ready K (bridge_networking K L addresses) opts cpus memory (calls_of parent before)
  held_back C caps known opts cpus memory rfd wfd h run =
      acts-Ready K (bridge_networking K L addresses) opts cpus memory C caps known rfd wfd
        networking-NoSignal h run
