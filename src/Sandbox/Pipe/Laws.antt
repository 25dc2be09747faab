-- ===== src/Sandbox/Pipe/Laws.antt =====
-- What the child learns from the pipe.
use microbox.Base.{ℕ, String, ◌∷◌, ◌≡◌, refl, Option, some}
use microbox.Os.{
  Errno, Log, read_fd, close_fd, Result, ok, err, errno, Reply, got, failed, Kernel, pure, lift,
  ◌>>=◌, attempt, ask, ignoring, perform,
}
use microbox.Os.Success.{done}
use microbox.Sandbox.Pipe.{wait_for_parent}

-- What the child makes of the kernel's answer to its read.
abbrev pub ReadOutcome : Reply String → Result (Unit {0}) × Log → ℕ → Log → Type 0
ReadOutcome (got bytes) r rfd l =
    (closed : Option Errno) × (r
      ≡ (ok tt, record { call = close_fd rfd; failure = closed } ∷ done (read_fd rfd) ∷ l))
ReadOutcome (failed e) r rfd l =
    (closed : Option Errno) × (r ≡ (
      err (errno e),
      record { call = close_fd rfd; failure = closed }
          ∷ record { call = read_fd rfd; failure = some e }
          ∷ l,
    ))

read-ReadOutcome :
    (K : Kernel) (rfd : ℕ) (l : Log) (reply : Reply String)
    → K.read_fd l rfd ≡ reply
    → ReadOutcome reply (wait_for_parent K rfd l) rfd l
unfolding wait_for_parent attempt ask ignoring perform lift pure ◌>>=◌
read-ReadOutcome K rfd l (got bytes) h = (K.act (done (read_fd rfd) ∷ l) (close_fd rfd), rw h refl)
read-ReadOutcome K rfd l (failed e) h =
    (K.act (record { call = read_fd rfd; failure = some e } ∷ l) (close_fd rfd), rw h refl)

-- The child goes on after any read that did not fail, whatever came, also if nothing came because the
-- parent's end was closed; after a failed read it gets that error. In both cases its end is closed.
pub wait_for_parent-ReadOutcome :
    (K : Kernel) (rfd : ℕ) (l : Log) → ReadOutcome (K.read_fd l rfd) (wait_for_parent K rfd l) rfd l
wait_for_parent-ReadOutcome K rfd l = read-ReadOutcome K rfd l (K.read_fd l rfd) refl
