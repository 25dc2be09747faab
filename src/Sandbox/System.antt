-- ===== src/Sandbox/System.antt =====
-- sandbox/sandbox.go: `NewSandbox` in its two processes, whose calls come in any order that the
-- synchronization pipe allows.
pub mod Logs
pub mod Sides
pub mod Start
pub mod Command
pub mod Released
pub mod Sequential
use microbox.Base.{ℕ, String, Bool, List, [], ◌∷◌, ◌++◌, ◌≡◌, ◌⊎◌}
use microbox.Os.{Event, Log, geteuid, new_uuid, read_fd, write_fd, close_fd, got, Kernel}
use microbox.Os.Keeps.{Later}
use microbox.Os.Called.{Called}
use microbox.Os.Success.{done}
use microbox.Sandbox.Capabilities.{CapLibrary}
use microbox.Sandbox.Cgroup.{CpuShare}
use microbox.Sandbox.Flags.{SandboxOptions}
use microbox.Sandbox.Child.{child_main}
use microbox.Sandbox.Parent.{Networking, new_sandbox}

pub data Who : Type 0 where
  parent child : Who

-- The calls of both, the latest first. A call stands where it takes effect.
abbrev pub History : Type 0
History = List (Who × Event)

abbrev pub calls_of : Who → History → Log
calls_of w [] = []
calls_of parent ((parent, e) ∷ h) = e ∷ calls_of parent h
calls_of parent ((child, e) ∷ h) = calls_of parent h
calls_of child ((parent, e) ∷ h) = calls_of child h
calls_of child ((child, e) ∷ h) = e ∷ calls_of child h

-- The event stands in the log.
abbrev pub Happened : Event → Log → Type 0
Happened e l = (before : Log) × Later (e ∷ before) l

-- What a process has written to a pipe, with success.
abbrev pub Written : ℕ → History → Type 0
Written wfd h = (w : Who) × (text : String) × Happened (done (write_fd wfd text)) (calls_of w h)

-- pipe(7): a read of an empty pipe waits until something is written, or until no process has the
-- write end any more. The child has its own copy of it from clone3 on, under the same number.
pub record PipeLaw (rfd wfd : ℕ) (h : History) : Type 0 where
  pub read_returned :
      (after before : History)
      → h ≡ after ++ (child, done (read_fd rfd)) ∷ before
      → Written wfd before ⊎ Called (close_fd wfd) (calls_of child before)

-- A part of a run: each process has made the first of its calls, as its own code goes on from the
-- answers that it got, in any order of the two that the pipe allows.
pub record Together (K C : Kernel) (N : Networking) (L : CapLibrary) (known : String → Bool)
    (opts : SandboxOptions) (cpus : CpuShare) (memory : ℕ) (rfd wfd : ℕ) (h : History)
    : Type 0 where
  pub ends : K.pipe2 (done geteuid ∷ done new_uuid ∷ []) ≡ got (rfd, wfd)
  pub by_parent : Later (calls_of parent h) (new_sandbox K N opts cpus memory []).1
  pub by_child : Later (calls_of child h) (child_main C L known opts rfd []).1
  pub pipe : PipeLaw rfd wfd h
