-- ===== src/Lib.antt =====
-- A verification library for microbox, a Go program that runs a command in a Linux sandbox.
--
-- The program. `NewSandbox` (sandbox/sandbox.go) starts a child with clone3(2) in new namespaces. The
-- parent maps the child's identifiers (sandbox/id.go), puts it into a control group with limits
-- (sandbox/cgroup.go), sets up its network (net/), and then lets it go through a pipe
-- (sandbox/pipe.go). The child sets up its root file system (fs/), gives up its capabilities
-- (sandbox/capabilities.go), loads a filter on its system calls (sandbox/seccomp.go) and runs the
-- command. `Wait` waits for the child and cleans up.
--
-- The model. Code that calls the kernel is an action, `Io A = Log -> Result A x Log`: the log has
-- every call that was made, the latest first, with its arguments and its failure, and an action
-- returns a value or a Go error and the longer log. The kernel is a parameter (`Kernel` of
-- Os/Actions.antt): it answers each call from the whole log before it, so that what is shown holds for
-- every behaviour of it, failures at any point and changes by others included. `defer`, `_ = f()` and
-- `if err := f(); err != nil` are combinators on actions (finally, ignoring, wrapping, tolerating,
-- branching). File modes go through `syscall_mode`, which keeps of a mode what Go's `os` package does.
-- Numbers are natural numbers; the identifiers that strconv reads are integers of 64 bits.
--
-- The files.
--   Base       helpers: Boolean tests, texts (strings.Split, TrimSpace, bytes.Fields, strconv), decimal
--              numbers, sets and sorting.
--   Os         errors, system calls, actions; Keeps: what every call of an action satisfies; Success:
--              what is known of the parts of an action that has returned; Called: that a call is in
--              the log; Preserves: what an action keeps true of the log; Sample: a kernel for tests.
--   Filepath   Go's path/filepath: Clean, Join, Dir and IsAbs on slash-separated paths.
--   Fs         fs/: Mount and Setup (fs/fs.go), Proc (fs/procfs.go), Dev (fs/devfs.go), Tmp (fs/tmp.go),
--              Etc (fs/etc.go); below each, the modules of what is shown of it.
--   Net        net/: the modes here, Interfaces, Rules and Container (net/net.go), Veth (net/veth.go) and
--              Ipam (net/ipam.go); below each, the modules of what is shown of it. Address is what the
--              program uses of Go's own net package.
--   Sandbox    sandbox/: Capabilities, Seccomp, Pipe, Env, Id and Cgroup, each for the file of its name;
--              Flags, Child and Parent for sandbox/sandbox.go. Child is `NewSandbox` from `pid == 0` on,
--              Parent is the rest of it and `Wait`; System is the two of them together.
--   Options    the parsers of single option values in options/, MergeEnv (options/env.go) in Env,
--              options/logging.go in Logging, and options/options.go in Cli.
--   Logger     logger/logger.go.
--   Main       main.go and version/version.go; the network of net/ as the sandbox takes it; and what
--              holds of a whole run.
-- A function keeps its name in snake case (BindMount is bind_mount). A long one is several definitions:
-- what follows a guard, or a loop's body, has a name of its own.
--
-- Bounds. The loop of `Wait` runs on a number of rounds: one more than the interruptions that the
-- kernel makes is enough. The loop of `AllocateIP` has a number of rounds too: it counts through the
-- addresses of a subnet, of which there are at most 2 ^ 32. `waitLinkByName` has 102 rounds for its
-- 5000 milliseconds: it sleeps for 50 of them in each but its last two. All other loops are over lists.
--
-- The two processes. A history (Sandbox/System.antt) is a sequence of the calls of the parent and of the
-- child; the calls of each are the first ones of its own run, with a kernel of its own that answers as
-- the other's calls make it. What the two need of the kernel is that a read of the pipe returns only
-- after something was written to it or no write end is left (`PipeLaw`), of which the child has one.
--
-- The database. A bolt database is its calls (open, begin, get, put, delete, commit, rollback, close);
-- which keys are leased is read off the log (Net/Ipam/Leases.antt). That a transaction sees what was
-- committed is a hypothesis (`Honest`), as is what iptables, the clock and go-cidr answer (`Tables`,
-- `Clock`, `CidrLaws`), each where it is needed. iptables may fail to answer; where it answers, it counts
-- the rules that were there before the program with those that it has inserted.
--
-- Parameters. The capability library's names (`CapLibrary`), the system calls that libseccomp knows
-- (`known`), go-cidr (`CidrLibrary`), what is computed from the floating-point limit of CPUs
-- (`CpuShare`), the sizes that bytesize reads (`ByteSize`), and the handlers and loggers of slog
-- (`Slog`). `NewSandbox` takes the set-up of the network (`Networking`, an interface of
-- Sandbox/Parent.antt); Main.antt gives it the one of net/.
--
-- Not modelled. The cli and slog libraries: what the first makes of the arguments is an argument
-- (`CliRun`); what a logger does with a message is left out, but that it was given one is in the log.
-- The kernel's own semantics (what a mount does, where a link leads) are not modelled: the theorems are
-- on the calls, their order, the texts of their paths and their results. The calls of a process are
-- those of one thread: that a goroutine may move to another thread, which may be in another network
-- namespace, is left out. `strings.ToLower` is modelled on ASCII letters.
pub mod Base
pub mod Os
pub mod Filepath
pub mod Logger
pub mod Fs
pub mod Main
pub mod Net
pub mod Sandbox
pub mod Options
