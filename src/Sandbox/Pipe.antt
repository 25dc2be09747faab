-- ===== src/Sandbox/Pipe.antt =====
-- sandbox/pipe.go: the pipe on which the child waits for its parent.
pub mod Laws
use microbox.Base.{ℕ, String}
use microbox.Os.{
  pipe2, read_fd, write_fd, close_fd, Result, ok, err, Kernel, Io, pure, raise, lift, ◌>>=◌, ◌>>◌,
  attempt, ignoring, perform, ask,
}

module _ (K : Kernel) where
  -- `MakeSyncPipe`
  unfoldable pub make_sync_pipe : Io (ℕ × ℕ)
  make_sync_pipe = ask pipe2 K.pipe2

  -- `WaitForParent`: the number of bytes that came is not looked at.
  unfoldable pub wait_for_parent : ℕ → Io (Unit {0})
  wait_for_parent rfd = do
    r ← attempt (ask (read_fd rfd) (λ l. K.read_fd l rfd))
    ignoring (perform K (close_fd rfd))
    read ← lift r
    pure tt

  -- `SignalChild`: the error of the write goes before that of the close.
  unfoldable pub signal_child : ℕ → Io (Unit {0})
  signal_child wfd = do
    written ← attempt (perform K (write_fd wfd "\u{1}"))
    closed ← attempt (perform K (close_fd wfd))
    lift written
    lift closed

  -- `ClosePipe`
  unfoldable pub close_pipe : ℕ → ℕ → Io (Unit {0})
  close_pipe rfd wfd = do ignoring (perform K (close_fd rfd)); ignoring (perform K (close_fd wfd))
