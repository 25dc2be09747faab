-- ===== src/Main/Exits.antt =====
-- How the program ends.
use microbox.Base.{ℕ, Option, none, some, ◌∷◌, ◌≡◌, refl, inl, inr, ◌⊎◌, Option-cases}
use microbox.Os.{
  Errno, pure, Error, Call, log_failure, Result, exit, print_error, note, Log, ok, err, Kernel,
  ◌>>=◌, ◌>>◌, perform, ignoring, log_error,
}
use microbox.Os.Success.{branching-cases, bind_log, ok≢err}
use microbox.Net.Ipam.{CidrLibrary}
use microbox.Options.Cli.{CliOptions, ByteSize, CliRun, parse_cli}
use microbox.Sandbox.Capabilities.{CapLibrary}
use microbox.Sandbox.Parent.{SandboxProcess, new_sandbox, wait}
use microbox.Main.{
  bridge_networking, finish, exit_with, wait_and_exit, run_sandbox, run_options, main,
}

-- The next call ends the program with this code.
abbrev pub Exits : ℕ → Log → Log → Type 0
Exits code l l' = (r : Option Errno) × (l' ≡ record { call = exit code; failure = r } ∷ l)

abbrev pub IsMessage : Call → Type 0
IsMessage (log_failure message) = Unit
IsMessage (print_error message) = Unit
IsMessage _ = ⊥

-- The program ends with this code next, or after one message.
abbrev pub ExitsFrom : ℕ → Log → Log → Type 0
ExitsFrom code l l' =
    Exits code l l'
    ⊎ ((message : Call) × (r : Option Errno) × IsMessage message
        × Exits code (record { call = message; failure = r } ∷ l) l')

module _ (K : Kernel) where
  finish-Exits : (code : ℕ) (l : Log) → Exits code l (finish K code l).1
  unfolding perform
  finish-Exits code l = (K.act l (exit code), refl)

  after_message :
      (message : Call) (code : ℕ) (l : Log)
      → IsMessage message
      → ExitsFrom code l ((ignoring (perform K message) >> finish K code) l).1
  unfolding ignoring perform ◌>>=◌
  after_message message code l h =
      let l1 = record { call = message; failure = K.act l message } ∷ l in
      inr (message, K.act l message, h, finish-Exits code l1)

module _ (K : Kernel) (C : CapLibrary) (parse_size : ByteSize) (L : CidrLibrary)
    (addresses rounds : ℕ) where
  -- The log once the options have been noted, from which the sandbox is started.
  abbrev pub noted : Log → Log
  noted k = (ignoring (perform K (note "Options")) k).1

  abbrev pub started : CliOptions → Log → Result SandboxProcess × Log
  started o k = new_sandbox K (bridge_networking K L addresses) o.sandbox o.cpus o.memory (noted k)

  -- Why the program ends with a code, and the log with which its last step ended: the parsing, the start
  -- or the wait failed (1); the arguments were answered (0); or the child ended, with that code. Each
  -- step starts where the one before it has ended.
  pub data Reason (r : CliRun) (l : Log) : ℕ → Log → Type 0 where
    parsing_failed :
        (e : Error) (k : Log) → parse_cli K C parse_size r l ≡ (err e, k) → Reason r l 1 k
    was_answered : (k : Log) → parse_cli K C parse_size r l ≡ (ok none, k) → Reason r l 0 k
    not_started :
        (o : CliOptions) (k k' : Log) (e : Error)
        → parse_cli K C parse_size r l ≡ (ok (some o), k)
        → started o k ≡ (err e, k')
        → Reason r l 1 k'
    not_waited :
        (o : CliOptions) (p : SandboxProcess) (k k' k'' : Log) (e : Error)
        → parse_cli K C parse_size r l ≡ (ok (some o), k)
        → started o k ≡ (ok p, k')
        → wait K rounds p k' ≡ (err e, k'')
        → Reason r l 1 k''
    ended :
        (o : CliOptions) (p : SandboxProcess) (code : ℕ) (k k' k'' : Log)
        → parse_cli K C parse_size r l ≡ (ok (some o), k)
        → started o k ≡ (ok p, k')
        → wait K rounds p k' ≡ (ok (some code), k'')
        → Reason r l code k''

  -- The rounds of `Wait` are used up: the program is still waiting for the child that it has started.
  pub record StillWaiting (r : CliRun) (l l' : Log) : Type 0 where
    pub options : CliOptions
    pub box : SandboxProcess
    pub parsed_log : Log
    pub started_log : Log
    pub parsed : parse_cli K C parse_size r l ≡ (ok (some options), parsed_log)
    pub begun : started options parsed_log ≡ (ok box, started_log)
    pub waited : wait K rounds box started_log ≡ (ok none, l')

  -- The program ends, for a reason, with the code that goes with it, and makes at most one call (a
  -- message) between its last step and the exit; or the rounds of `Wait` are used up.
  abbrev pub Ends : CliRun → Log → Log → Type 0
  Ends r l l' =
      ((code : ℕ) × (k : Log) × Reason r l code k × ExitsFrom code k l') ⊎ StillWaiting r l l'

  module _ (r : CliRun) (l : Log) (o : CliOptions) (k : Log)
      (parsed : parse_cli K C parse_size r l ≡ (ok (some o), k)) where
    wait_and_exit-Ends :
        (p : SandboxProcess) (k' : Log)
        → started o k ≡ (ok p, k')
        → Ends r l (wait_and_exit K rounds p k').1
    unfolding wait_and_exit exit_with log_error pure
    wait_and_exit-Ends p k' begun =
        elim (branching-cases (wait K rounds p) (exit_with K)
          (λ _. log_error K "error while executing for sandbox" >> finish K 1) k') [
            | inr (e, k'', failed, q) ↦ rw q (
                inl (
                  1,
                  k'',
                  not_waited o p k k' k'' e parsed begun failed,
                  after_message K (log_failure "error while executing for sandbox") 1 k'' tt,
                ))
            | inl (some_code, k'', waited, q) ↦ elim (Option-cases some_code) [
              | inl n ↦
                  rw (q, n)
                    (inr (record {
                      options = o;
                      box = p;
                      parsed_log = k;
                      started_log = k';
                      parsed = parsed;
                      begun = begun;
                      waited = rw n at waited;
                    }))
              | inr (code, n) ↦
                  rw (q, n)
                    (inl (
                      code,
                      k'',
                      ended o p code k k' k'' parsed begun (rw n at waited),
                      inl (finish-Exits K code k''),
                    ))
            ]
          ]

    run_sandbox-Ends : Ends r l (run_sandbox K (bridge_networking K L addresses) rounds o k).1
    unfolding run_sandbox log_error
    run_sandbox-Ends =
        let note_options = ignoring (perform K (note "Options")) in
        let N = bridge_networking K L addresses in
        bind_log (Ends r l) note_options _ k (λ e p. absurd (unfold ignoring in (ok≢err p)))
          (λ _ _.
            elim (branching-cases (new_sandbox K N o.sandbox o.cpus o.memory)
              (wait_and_exit K rounds)
              (λ _. log_error K "error while creating sandbox" >> finish K 1) (noted k)) [
                | inr (e, k', failed, q) ↦ rw q (
                    inl (
                      1,
                      k',
                      not_started o k k' e parsed failed,
                      after_message K (log_failure "error while creating sandbox") 1 k' tt,
                    ))
                | inl (p, k', begun, q) ↦ rw q (wait_and_exit-Ends p k' begun)
              ])

  -- The program ends by an exit, with the code that goes with the reason: 1 if the parsing, the start
  -- of the sandbox or the wait failed, 0 if the cli library answered, or else the code that `Wait`
  -- returned. Between the step that gives the reason and the exit there is at most one message. The
  -- other case is that the rounds of this run's `Wait` are used up.
  pub main-Ends : (r : CliRun) (l : Log) → Ends r l (main K C parse_size L addresses rounds r l).1
  unfolding main run_options
  main-Ends r l =
      elim (branching-cases (parse_cli K C parse_size r)
        (run_options K (bridge_networking K L addresses) rounds)
        (λ _. ignoring (perform K (print_error "parsing error:")) >> finish K 1) l) [
          | inr (e, k, failed, q) ↦ rw q (
              inl (
                1,
                k,
                parsing_failed e k failed,
                after_message K (print_error "parsing error:") 1 k tt,
              ))
          | inl (parsed, k, p, q) ↦ elim (Option-cases parsed) [
            | inl n ↦ rw (q, n) (inl (0, k, was_answered k (rw n at p), inl (finish-Exits K 0 k)))
            | inr (o, n) ↦ rw (q, n) (run_sandbox-Ends r l o k (rw n at p))
          ]
        ]
