-- ===== src/Sandbox/System/Released.antt =====
-- When the child may act.
use mathlib.Core.List.{append_assoc}
use microbox.Base.{ℕ, String, Bool, [], ◌∷◌, ◌++◌, ◌≡◌, refl, ◌∙◌, sym, ap, ◌⊎◌, inl, inr}
use microbox.Os.{Event, Log, read_fd, write_fd, close_fd, Kernel}
use microbox.Os.Kinds.{NoSignal}
use microbox.Os.Keeps.{Emits, Later, Later-trans}
use microbox.Os.Called.{Called}
use microbox.Os.Success.{done}
use microbox.Net.{NetworkMode}
use microbox.Sandbox.Capabilities.{CapLibrary}
use microbox.Sandbox.Cgroup.{CpuShare}
use microbox.Sandbox.Flags.{SandboxOptions}
use microbox.Sandbox.Child.{child_main}
use microbox.Sandbox.Parent.{Networking, SandboxProcess, new_sandbox}
use microbox.Sandbox.Parent.Signalled.{Prepared}
use microbox.Sandbox.System.{parent, child, History, calls_of, Happened, Written, Together}
use microbox.Sandbox.System.Logs.{not-Later-empty, Later-tail, calls_of-Later, split_child}
use microbox.Sandbox.System.Sides.{Orderly-written, new_sandbox-Orderly}
use microbox.Sandbox.System.Start.{Waits, Starts-Waits, child_main-Starts}

-- Nothing was done by the child before its first read: what let it go was done by the parent.
Written-by_parent :
    (wfd : ℕ) (h : History)
    → calls_of child h ≡ []
    → Written wfd h ⊎ Called (close_fd wfd) (calls_of child h)
    → (text : String) × Happened (done (write_fd wfd text)) (calls_of parent h)
Written-by_parent wfd h alone (inl (parent, text, happened)) = (text, happened)
Written-by_parent wfd h alone (inl (child, text, (b, later))) =
    absurd (not-Later-empty _ b (rw alone at later))
Written-by_parent wfd h alone (inr closed) = absurd (rw alone at closed)

module _ (K C : Kernel) (N : Networking) (L : CapLibrary) (known : String → Bool)
    (opts : SandboxOptions) (cpus : CpuShare) (memory rfd wfd : ℕ) (h : History)
    (run : Together K C N L known opts cpus memory rfd wfd h) where
  -- What a process has done up to a call of it is the start of its run.
  parent-Later :
      (after before : History)
      → h ≡ after ++ before
      → Later (calls_of parent before) (new_sandbox K N opts cpus memory []).1
  parent-Later after before split =
      let here : Later (calls_of parent before) (calls_of parent h) =
        rw split (calls_of-Later parent after before) in
      Later-trans _ here run.by_parent

  pub child-Later :
      (after before : History) (e : Event)
      → h ≡ after ++ (child, e) ∷ before
      → Later (e ∷ calls_of child before) (child_main C L known opts rfd []).1
  child-Later after before e split =
      let here : Later (e ∷ calls_of child before) (calls_of child h) =
        rw split (calls_of-Later child after ((child, e) ∷ before)) in
      Later-trans _ here run.by_child

  -- Before a call of the child that is not one of waiting, the parent has written to the pipe.
  released :
      (after before : History) (e : Event)
      → h ≡ after ++ (child, e) ∷ before
      → Waits rfd e.call
        ⊎ ((text : String) × Happened (done (write_fd wfd text)) (calls_of parent before))
  released after before e split =
      elim (Starts-Waits rfd _ (child_main-Starts C L known opts rfd)
        (child-Later after before e split)) [
          | inl waits ↦ inl waits
          | inr (cs, p) ↦
              let (after', before', split', alone) = split_child before cs [] _ p in
              let read = (child, done (read_fd rfd)) ∷ before' in
              let whole =
                split
                ∙ ap (λ k. after ++ (child, e) ∷ k) split'
                ∙ sym (append_assoc after ((child, e) ∷ after') read) in
              let (text, (b, later)) =
                Written-by_parent wfd before' alone (run.pipe.read_returned _ before' whole) in
              let (more, q) = calls_of-Later parent after' read in
              let kept : Later (calls_of parent before') (calls_of parent before) =
                (more, ap (calls_of parent) split' ∙ q) in
              inr (text, (b, Later-trans _ later kept))
        ]

  -- In whatever order the calls of the two come, as far as the pipe allows it: where the parent never
  -- writes to the pipe with success, as where its preparation fails, the child does nothing but read
  -- the pipe, close its end and exit with 1, also after the parent has closed both ends.
  pub unwritten-Waits :
      ((text : String)
        → Happened (done (write_fd wfd text)) (new_sandbox K N opts cpus memory []).1
        → ⊥)
      → (after before : History) (e : Event) → h ≡ after ++ (child, e) ∷ before
      → Waits rfd e.call
  unwritten-Waits unwritten after before e split = elim (released after before e split) [
    | inl waits ↦ waits
    | inr (text, (b, later)) ↦
        let here =
          parent-Later (after ++ (child, e) ∷ []) before (split ∙ sym (append_assoc after _ _)) in
        absurd (unwritten text (b, Later-trans _ later here))
  ]

module _ (K : Kernel) (N : Networking) (opts : SandboxOptions) (cpus : CpuShare) (memory : ℕ) where
  -- The preparation of the child is among the calls.
  abbrev pub Ready : Log → Type 0
  Ready l =
      (p : SandboxProcess) × (networked : Log) × Prepared K N opts cpus memory p networked
      × Later networked l

  pub acts-Ready :
      (C : Kernel) (L : CapLibrary) (known : String → Bool) (rfd wfd : ℕ)
      → ((pid : ℕ) (mode : NetworkMode) → Emits NoSignal (N.setup_container_networking pid mode))
      → (h : History) → Together K C N L known opts cpus memory rfd wfd h
      → (after before : History) (e : Event) → h ≡ after ++ (child, e) ∷ before
      → Waits rfd e.call ⊎ Ready (calls_of parent before)
  acts-Ready C L known rfd wfd silent h run after before e split =
      elim (released K C N L known opts cpus memory rfd wfd h run after before e split) [
        | inl waits ↦ inl waits
        | inr (text, (b, later)) ↦
            let here =
              parent-Later K C N L known opts cpus memory rfd wfd h run (after ++ (child, e) ∷ [])
                before (split ∙ sym (append_assoc after _ _)) in
            let (p, prepared) =
              Orderly-written K N opts cpus memory _ wfd text
                (new_sandbox-Orderly K N opts cpus memory silent) (Later-trans _ later here) refl in
            inr (p, b, prepared, Later-tail b later)
      ]
