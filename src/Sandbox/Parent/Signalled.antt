-- ===== src/Sandbox/Parent/Signalled.antt =====
-- When the child is let go.
use microbox.Base.{
  ℕ, ◌=ᵇ◌, String, Bool, true, false, [], ◌∷◌, ◌≡◌, refl, ◌∙◌, sym, ap, arith, Option,
  if◌then◌else◌, inl, inr,
}
use microbox.Os.{
  Errno, Event, Error, Log, new_uuid, geteuid, clone3, got, write_fd, close_fd, Result, ok, err,
  Kernel, Io, pure, raise, lift, ◌>>=◌, ◌>>◌, attempt, ignoring, perform, ask, wrapping,
}
use microbox.Os.Success.{
  done, pure-eq-ok, query-eq-ok, answer-eq-ok, wrapping-eq-ok, >>=-eq-err, >>=-eq-ok,
  branching-cases, err≢ok,
}
use microbox.Sandbox.Flags.{SandboxOptions, clone_args}
use microbox.Sandbox.Pipe.{close_pipe, signal_child}
use microbox.Sandbox.Cgroup.{CpuShare, setup_cgroup_limits}
use microbox.Sandbox.Parent.{
  Networking, SandboxProcess, minus_one, written_int, as_int, clone, or_close, map_ids, set_network,
  let_go, start_child, new_sandbox,
}

-- The last two calls: the byte was written to the pipe, and its end closed.
abbrev pub signal_calls : ℕ → Log → Log
signal_calls wfd l = done (close_fd wfd) ∷ done (write_fd wfd "\u{1}") ∷ l

-- The last call closes the write end.
abbrev pub ClosedEnd : ℕ → Log → Type 0
ClosedEnd wfd l =
    (k : Log) × (r : Option Errno) × (l ≡ record { call = close_fd wfd; failure = r } ∷ k)

raised :
    {A : Type 0} (m : Io (Unit {0})) (e : Error) (l : Log) {a : A} {l' : Log}
    → (m >> raise e) l ≡ (ok a, l')
    → ⊥
unfolding raise
raised m e l h = let (_, k, _, q) = >>=-eq-ok m (λ _. raise e) l h in cc (q)

pub else_raise-eq-ok :
    {A : Type 0} (b : Bool) (m : Io A) (e : Error) (l : Log) {a : A} {l' : Log}
    → (if b then m else raise e) l ≡ (ok a, l')
    → (b ≡ true) × (m l ≡ (ok a, l'))
unfolding raise
else_raise-eq-ok true m e l h = (refl, h)
else_raise-eq-ok false m e l h = absurd (err≢ok (ap (λ r. r.0) h))

pub lift_both-log :
    {A : Type 0} {B : Type 0} (r : Result A) (s : Result B) (l : Log) → ((lift r >> lift s) l).1 ≡ l
unfolding lift ◌>>=◌
lift_both-log (ok a) s l = refl
lift_both-log (err e) s l = refl

module _ (K : Kernel) where
  pub signal_child-eq-ok :
      (wfd : ℕ) (l : Log) {l' : Log} → signal_child K wfd l ≡ (ok tt, l') → l' ≡ signal_calls wfd l
  unfolding signal_child attempt perform ◌>>=◌ lift
  signal_child-eq-ok wfd l h = ground arith

  signal_child-ClosedEnd : (wfd : ℕ) (l : Log) → ClosedEnd wfd (signal_child K wfd l).1
  unfolding signal_child attempt perform ◌>>=◌ lift
  signal_child-ClosedEnd wfd l =
      let written : Event = record {
        call = write_fd wfd "\u{1}";
        failure = K.act l (write_fd wfd "\u{1}");
      } in
      (written ∷ l, K.act (written ∷ l) (close_fd wfd), lift_both-log _ _ _)

  pub or_close-eq-ok :
      {A : Type 0} (rfd wfd : ℕ) (m : Io A) (l : Log) {a : A} {l' : Log}
      → or_close K rfd wfd m l ≡ (ok a, l')
      → m l ≡ (ok a, l')
  unfolding or_close
  or_close-eq-ok rfd wfd m l {a} {l'} h =
      elim (branching-cases m pure (λ e. close_pipe K rfd wfd >> raise e) l) [
        | inl (x, k, p, q) ↦ p ∙ (unfold pure in (sym q ∙ h))
        | inr (e, k, p, q) ↦ absurd (raised (close_pipe K rfd wfd) e k (sym q ∙ h))
      ]

  closed_and_raised :
      (A : Type 0) (rfd wfd : ℕ) (e : Error) (l : Log)
      → ClosedEnd wfd ((close_pipe K rfd wfd >> raise {A = A} e) l).1
  unfolding close_pipe ignoring perform raise ◌>>=◌
  closed_and_raised A rfd wfd e l =
      let closed : Event = record { call = close_fd rfd; failure = K.act l (close_fd rfd) } in
      (closed ∷ l, K.act (closed ∷ l) (close_fd wfd), refl)

  or_close-eq-err :
      {A : Type 0} (rfd wfd : ℕ) (m : Io A) (l : Log) {e : Error} {l' : Log}
      → or_close K rfd wfd m l ≡ (err e, l')
      → ClosedEnd wfd l'
  unfolding or_close
  or_close-eq-err {A} rfd wfd m l {e} {l'} h =
      elim (branching-cases m pure (λ e. close_pipe K rfd wfd >> raise {A = A} e) l) [
        | inl (x, k, p, q) ↦ absurd (unfold pure in (err≢ok (ap (λ r. r.0) (sym h ∙ q))))
        | inr (e', k, p, q) ↦ rw (ap (λ r. r.1) (sym h ∙ q)) (closed_and_raised A rfd wfd e' k)
      ]

-- The last call has made the child, with this answer.
abbrev pub Cloned : Kernel → SandboxOptions → ℕ × ℕ → Log → Type 0
Cloned K opts child l =
    (k : Log) × (l ≡ done (clone3 (clone_args opts)) ∷ k) × (K.clone3 k ≡ got child)

-- What was done for the child: it was made, its identifiers were mapped, it was put under its limits
-- and its network was set up, each with success, in this order and with nothing after it.
pub record Prepared (K : Kernel) (N : Networking) (opts : SandboxOptions) (cpus : CpuShare)
    (memory : ℕ) (p : SandboxProcess) (networked : Log) : Type 0 where
  pub fd : ℕ
  pub started : Log
  pub mapped : Log
  pub limited : Log
  pub made : Cloned K opts (p.pid, fd) started
  pub descriptor : p.pidfd ≡ as_int (written_int minus_one fd)
  pub maps : map_ids K opts p.pid started ≡ (ok tt, mapped)
  pub limits : setup_cgroup_limits K p.pid cpus memory mapped ≡ (ok p.cg_path, limited)
  pub network : set_network K N opts cpus memory p.pid limited ≡ (ok p.network, networked)

-- How the child was let go: it was prepared, and then signalled.
pub record LetGo (K : Kernel) (N : Networking) (opts : SandboxOptions) (cpus : CpuShare)
    (memory : ℕ) (p : SandboxProcess) (l : Log) : Type 0 where
  pub wfd : ℕ
  pub networked : Log
  pub prepared : Prepared K N opts cpus memory p networked
  pub signalled : l ≡ signal_calls wfd networked

module _ (K : Kernel) (N : Networking) (opts : SandboxOptions) (cpus : CpuShare) (memory : ℕ) where
  let_go-LetGo :
      (uuid : String) (rfd wfd : ℕ) (child : ℕ × ℕ) (l : Log) {p : SandboxProcess} {l' : Log}
      → Cloned K opts child l
      → let_go K N opts cpus memory uuid rfd wfd child l ≡ (ok p, l')
      → LetGo K N opts cpus memory p l'
  unfolding let_go
  let_go-LetGo uuid rfd wfd child l {p} {l'} c h =
      let (_, l1, e1, h1) = >>=-eq-ok _ _ l h in
      let (cg_path, l2, e2, h2) = >>=-eq-ok _ _ l1 h1 in
      let (network, l3, e3, h3) = >>=-eq-ok _ _ l2 h2 in
      let (_, l4, e4, h4) = >>=-eq-ok _ _ l3 h3 in
      let (built, there) = pure-eq-ok _ l4 h4 in
      rw (← built) (record {
        wfd = wfd;
        networked = l3;
        prepared = record {
          fd = child.1;
          started = l;
          mapped = l1;
          limited = l2;
          made = c;
          descriptor = refl;
          maps = or_close-eq-ok K rfd wfd _ l e1;
          limits = or_close-eq-ok K rfd wfd _ l1 e2;
          network = or_close-eq-ok K rfd wfd _ l2 e3;
        };
        signalled = sym there ∙ signal_child-eq-ok K wfd l3 e4;
      })

  pub clone-Cloned :
      (rfd wfd : ℕ) (l : Log) {child : ℕ × ℕ} {l' : Log}
      → or_close K rfd wfd (wrapping "cannot create sandbox: %w" [] (clone K opts)) l
        ≡ (ok child, l')
      → Cloned K opts child l'
  unfolding clone ask
  clone-Cloned rfd wfd l h =
      let (a, b) = answer-eq-ok _ _ l (wrapping-eq-ok _ _ _ l (or_close-eq-ok K rfd wfd _ l h)) in
      (l, a, b)

  start_child-LetGo :
      (uuid : String) (l : Log) {p : SandboxProcess} {l' : Log}
      → start_child K N opts cpus memory uuid l ≡ (ok p, l')
      → LetGo K N opts cpus memory p l'
  unfolding start_child
  start_child-LetGo uuid l h =
      let (ends, l1, _, h1) = >>=-eq-ok _ _ l h in
      let (child, l2, e2, h2) = >>=-eq-ok _ _ l1 h1 in
      let_go-LetGo uuid ends.0 ends.1 child l2 (clone-Cloned ends.0 ends.1 l1 e2) h2

  -- A sandbox that is returned has the child that clone3 made, which was let go, as the last thing
  -- done, only after its identifiers were mapped (unless its user namespace is the host's), its limits set and its network
  -- set up (if it has one), each with success and in this order; and the caller was root.
  pub new_sandbox-LetGo :
      (l : Log) {p : SandboxProcess} {l' : Log}
      → new_sandbox K N opts cpus memory l ≡ (ok p, l')
      → (K.geteuid (done new_uuid ∷ l) ≡ 0) × LetGo K N opts cpus memory p l'
  unfolding new_sandbox
  new_sandbox-LetGo l h =
      let (uuid, l1, e1, h1) = >>=-eq-ok _ _ l h in
      let (euid, l2, e2, h2) = >>=-eq-ok _ _ l1 h1 in
      let after_uuid = (query-eq-ok new_uuid K.new_uuid l e1).1 in
      let asked = ap K.geteuid after_uuid ∙ (query-eq-ok geteuid K.geteuid l1 e2).0 in
      let (root, h3) =
        else_raise-eq-ok (euid =ᵇ 0) (start_child K N opts cpus memory uuid) _ l2 h2 in
      (asked ∙ (ground arith), start_child-LetGo uuid l2 h3)

  -- Once the child is there, a `NewSandbox` that fails closes the write end of the pipe as the last
  -- thing that it does: the child is neither killed nor waited for at that point.
  let_go_failed :
      (uuid : String) (rfd wfd : ℕ) (child : ℕ × ℕ) (l : Log) {e : Error} {l' : Log}
      → let_go K N opts cpus memory uuid rfd wfd child l ≡ (err e, l')
      → ClosedEnd wfd l'
  unfolding let_go
  let_go_failed uuid rfd wfd child l {e} {l'} h = elim (>>=-eq-err _ _ l h) [
    | inl x ↦ or_close-eq-err K rfd wfd _ l x
    | inr (_, l1, _, h1) ↦ elim (>>=-eq-err _ _ l1 h1) [
      | inl x ↦ or_close-eq-err K rfd wfd _ l1 x
      | inr (_, l2, _, h2) ↦ elim (>>=-eq-err _ _ l2 h2) [
        | inl x ↦ or_close-eq-err K rfd wfd _ l2 x
        | inr (_, l3, _, h3) ↦ elim (>>=-eq-err _ _ l3 h3) [
          | inl x ↦ rw (← ap (λ r. r.1) x) (signal_child-ClosedEnd K wfd l3)
          | inr (_, l4, _, h4) ↦ absurd (unfold pure in (err≢ok (ap (λ r. r.0) (sym h4))))
        ]
      ]
    ]
  ]
