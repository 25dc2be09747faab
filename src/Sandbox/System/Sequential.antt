-- ===== src/Sandbox/System/Sequential.antt =====
-- The simplest run of the two processes: all that the parent does, and then all that the child does.
use microbox.Base.{ℕ, String, Bool, [], ◌∷◌, ◌++◌, ◌≡◌, refl, ◌∙◌, ap, inl}
use microbox.Os.{Event, Log, geteuid, new_uuid, write_fd, got, Kernel}
use microbox.Os.Keeps.{Later-refl}
use microbox.Os.Success.{done}
use microbox.Sandbox.Capabilities.{CapLibrary}
use microbox.Sandbox.Cgroup.{CpuShare}
use microbox.Sandbox.Flags.{SandboxOptions}
use microbox.Sandbox.Child.{child_main}
use microbox.Sandbox.Parent.{Networking, new_sandbox}
use microbox.Sandbox.System.{Who, parent, child, History, calls_of, Happened, Together}

abbrev pub tagged : Who → Log → History
tagged w [] = []
tagged w (e ∷ l) = (w, e) ∷ tagged w l

abbrev pub sequential : Log → Log → History
sequential lp lc = tagged child lc ++ tagged parent lp

pub calls_of-tagged : (lp : Log) → calls_of parent (tagged parent lp) ≡ lp
calls_of-tagged [] = refl
calls_of-tagged (e ∷ lp) = ap (λ l. e ∷ l) (calls_of-tagged lp)

pub not-calls_of-tagged : (lp : Log) → calls_of child (tagged parent lp) ≡ []
not-calls_of-tagged [] = refl
not-calls_of-tagged (e ∷ lp) = not-calls_of-tagged lp

calls_of_parent : (lp lc : Log) → calls_of parent (sequential lp lc) ≡ lp
calls_of_parent lp [] = calls_of-tagged lp
calls_of_parent lp (e ∷ lc) = calls_of_parent lp lc

calls_of_child : (lp lc : Log) → calls_of child (sequential lp lc) ≡ lc
calls_of_child lp [] = not-calls_of-tagged lp
calls_of_child lp (e ∷ lc) = ap (λ l. e ∷ l) (calls_of_child lp lc)

pub no_child :
    (lp : Log) (after before : History) (e : Event)
    → tagged parent lp ≡ after ++ (child, e) ∷ before
    → ⊥
no_child [] [] before e p = cc
no_child [] (x ∷ after) before e p = cc
no_child (f ∷ lp) [] before e p = cc
no_child (f ∷ lp) (x ∷ after) before e p = no_child lp after before e cc

-- Before each call of the child stands all that the parent does.
before_child :
    (lp lc : Log) (after before : History) (e : Event)
    → sequential lp lc ≡ after ++ (child, e) ∷ before
    → calls_of parent before ≡ lp
before_child lp [] after before e p = absurd (no_child lp after before e p)
before_child lp (x ∷ lc) [] before e p =
    let same : before ≡ sequential lp lc = cc in ap (calls_of parent) same ∙ calls_of_parent lp lc
before_child lp (x ∷ lc) (y ∷ after) before e p = before_child lp lc after before e cc

module _ (K C : Kernel) (N : Networking) (L : CapLibrary) (known : String → Bool)
    (opts : SandboxOptions) (cpus : CpuShare) (memory rfd wfd : ℕ) where
  abbrev pub whole_run : History
  whole_run =
      sequential (new_sandbox K N opts cpus memory []).1 (child_main C L known opts rfd []).1

  -- It is a run of both, if the parent makes the pipe and writes to it with success.
  pub whole_run-Together :
      (text : String)
      → K.pipe2 (done geteuid ∷ done new_uuid ∷ []) ≡ got (rfd, wfd)
      → Happened (done (write_fd wfd text)) (new_sandbox K N opts cpus memory []).1
      → Together K C N L known opts cpus memory rfd wfd whole_run
  whole_run-Together text ends happened = record {
    ends = ends;
    by_parent = rw (calls_of_parent (new_sandbox K N opts cpus memory []).1 _) (Later-refl _);
    by_child = rw (calls_of_child _ (child_main C L known opts rfd []).1) (Later-refl _);
    pipe = record {
      read_returned = λ after before split.
          inl (parent, text, rw (before_child _ _ after before _ split) happened);
    };
  }
