-- ===== src/Os/Kinds.antt =====
-- Kinds of calls: those that write to no pipe, those that use no database either, and those of a
-- process that is concerned only with itself and its file system.
use microbox.Os.Calls.{Call, clone3, db, exec, kill, net, pipe2, run, wait4, write_fd}

abbrev pub NoSignal : Call → Type 0
NoSignal (write_fd fd text) = ⊥
NoSignal _ = Unit

abbrev pub Ordinary : Call → Type 0
Ordinary (write_fd fd text) = ⊥
Ordinary (db c) = ⊥
Ordinary _ = Unit

pub Ordinary-NoSignal : (c : Call) → Ordinary c → NoSignal c
Ordinary-NoSignal (write_fd fd text) h = absurd h
Ordinary-NoSignal _ h = tt

-- No pipe is made or written, no process is made, killed or waited for, no helper is run, and neither
-- a database nor the network is touched.
abbrev pub Local : Call → Type 0
Local (write_fd fd text) = ⊥
Local (db c) = ⊥
Local (net c) = ⊥
Local (clone3 args) = ⊥
Local (kill pid signal) = ⊥
Local (wait4 pid) = ⊥
Local (run path args) = ⊥
Local pipe2 = ⊥
Local _ = Unit

-- The same, and no program is run in place of the process.
abbrev pub Preparing : Call → Type 0
Preparing (write_fd fd text) = ⊥
Preparing (db c) = ⊥
Preparing (net c) = ⊥
Preparing (clone3 args) = ⊥
Preparing (kill pid signal) = ⊥
Preparing (wait4 pid) = ⊥
Preparing (run path args) = ⊥
Preparing (exec path args env) = ⊥
Preparing pipe2 = ⊥
Preparing _ = Unit

pub Preparing-Local : (c : Call) → Preparing c → Local c
Preparing-Local (write_fd fd text) h = absurd h
Preparing-Local (db c) h = absurd h
Preparing-Local (net c) h = absurd h
Preparing-Local (clone3 args) h = absurd h
Preparing-Local (kill pid signal) h = absurd h
Preparing-Local (wait4 pid) h = absurd h
Preparing-Local (run path args) h = absurd h
Preparing-Local (exec path args env) h = absurd h
Preparing-Local pipe2 h = absurd h
Preparing-Local _ h = tt
