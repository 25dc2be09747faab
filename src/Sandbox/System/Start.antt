-- ===== src/Sandbox/System/Start.antt =====
-- How the child starts.
use microbox.Base.{ℕ, String, Bool, List, Option, some, [], ◌∷◌, ◌≡◌, ◌∙◌, sym, ap, ◌⊎◌, inl, inr}
use microbox.Os.{
  Errno, Call, Event, Log, read_fd, close_fd, exec, exit, Reply, got, failed, Kernel, ◌>>◌,
  ignoring, perform,
}
use microbox.Os.Keeps.{Later, Later-trans, Grows-Later}
use microbox.Os.Success.{done, branching-cases, err≢ok, ok≢err}
use microbox.Sandbox.Capabilities.{CapLibrary}
use microbox.Sandbox.Flags.{SandboxOptions}
use microbox.Sandbox.Pipe.{wait_for_parent}
use microbox.Sandbox.Pipe.Laws.{ReadOutcome, wait_for_parent-ReadOutcome}
use microbox.Sandbox.Child.{exit_with, set_hostname, setup_and_confine, child_main}
use microbox.Sandbox.Child.Local.{after_wait-Local}
use microbox.Sandbox.System.Logs.{Later-uncons, Later-append, not-Later-empty}

-- What a child does that was not let go: it waits, and ends.
abbrev pub Waits : ℕ → Call → Type 0
Waits rfd c = (c ≡ read_fd rfd) ⊎ (c ≡ close_fd rfd) ⊎ (c ≡ exit 1)

pub not-Waits-exec :
    (rfd : ℕ) (path : String) (args env : List String) → Waits rfd (exec path args env) → ⊥
not-Waits-exec rfd path args env (inl p) = cc
not-Waits-exec rfd path args env (inr (inl p)) = cc
not-Waits-exec rfd path args env (inr (inr p)) = cc

-- Either the read was the first call and returned, or there are three calls.
abbrev pub Starts : ℕ → Log → Type 0
Starts rfd l =
    Later (done (read_fd rfd) ∷ []) l
    ⊎ ((left : Option Errno) × (closed : Option Errno) × (e : Errno) × (l
          ≡ record { call = exit 1; failure = left }
            ∷ record { call = close_fd rfd; failure = closed }
            ∷ record { call = read_fd rfd; failure = some e }
            ∷ []))

-- In a log that starts this way, each call is one of waiting and ending, or follows the read.
pub Starts-Waits :
    (rfd : ℕ) (l : Log) {e : Event} {b : Log}
    → Starts rfd l
    → Later (e ∷ b) l
    → Waits rfd e.call ⊎ Later (done (read_fd rfd) ∷ []) b
Starts-Waits rfd l {e} {b} (inl (k, p)) h =
    elim (Later-append k (done (read_fd rfd) ∷ []) (rw p at h)) [
      | inl follows ↦ inr follows
      | inr first ↦ elim (Later-uncons first) [
        | inl (same, _) ↦ inl (inl (ap (λ x. x.call) same))
        | inr none_left ↦ absurd (not-Later-empty e b none_left)
      ]
    ]
Starts-Waits rfd l {e} {b} (inr (left, closed, x, p)) h = elim (Later-uncons (rw p at h)) [
  | inl (same, _) ↦ inl (inr (inr (ap (λ x. x.call) same)))
  | inr h1 ↦ elim (Later-uncons h1) [
    | inl (same, _) ↦ inl (inr (inl (ap (λ x. x.call) same)))
    | inr h2 ↦ elim (Later-uncons h2) [
      | inl (same, _) ↦ inl (inl (ap (λ x. x.call) same))
      | inr none_left ↦ absurd (not-Later-empty e b none_left)
    ]
  ]
]

module _ (K : Kernel) (L : CapLibrary) (known : String → Bool) (opts : SandboxOptions)
    (rfd : ℕ) where
  started :
      (reply : Reply String)
      → ReadOutcome reply (wait_for_parent K rfd []) rfd []
      → Starts rfd (child_main K L known opts rfd []).1
  unfolding child_main exit_with ignoring perform
  started (got bytes) (closed, p) =
      let rest = set_hostname K opts.hostname >> setup_and_confine K L known opts in
      elim (branching-cases (wait_for_parent K rfd) (λ _. rest) (λ _. exit_with K 1) []) [
        | inl (_, k, q, r) ↦
            let read : Later (done (read_fd rfd) ∷ []) k =
              (record { call = close_fd rfd; failure = closed } ∷ [], ap (λ x. x.1) (sym q ∙ p)) in
            let grown = Grows-Later ((after_wait-Local K L known opts).at k) in
            inl (rw r (Later-trans _ read grown))
        | inr (e, k, q, r) ↦ absurd (err≢ok (ap (λ x. x.0) (sym q ∙ p)))
      ]
  started (failed x) (closed, p) =
      let rest = set_hostname K opts.hostname >> setup_and_confine K L known opts in
      elim (branching-cases (wait_for_parent K rfd) (λ _. rest) (λ _. exit_with K 1) []) [
        | inl (_, k, q, r) ↦ absurd (ok≢err (ap (λ x. x.0) (sym q ∙ p)))
        | inr (e, k, q, r) ↦
            let there : k ≡ _ = ap (λ x. x.1) (sym q ∙ p) in
            inr (
              K.act k (exit 1),
              closed,
              x,
              ap (λ x. x.1) r
                  ∙ ap (λ k'. record { call = exit 1; failure = K.act k (exit 1) } ∷ k') there,
            )
      ]

  pub child_main-Starts : Starts rfd (child_main K L known opts rfd []).1
  child_main-Starts = started (K.read_fd [] rfd) (wait_for_parent-ReadOutcome K rfd [])
