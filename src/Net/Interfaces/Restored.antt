-- ===== src/Net/Interfaces/Restored.antt =====
-- The network namespace that was set last, during `configureContainerInterface`.
use microbox.Base.{ℕ, String, Option, none, some, [], ◌∷◌, ◌++◌, ◌≡◌, refl, ◌∙◌, ap}
use microbox.Os.{
  Errno, Call, ns_get, ns_get_pid, ns_set, ns_close, net, Log, ok, got, Kernel, Io, ◌>>◌, ask,
  answer, finally, perform,
}
use microbox.Os.Keeps.{Every, Emits, Emits-ask, Emits-perform}
use microbox.Os.Success.{bind_ok, bind_log, done, perform-eq-err}
use microbox.Net.Interfaces.{
  configure_inside, in_namespace, in_child, configure_container_interface,
}
use microbox.Net.Interfaces.Plain.{Plain}

-- The namespace that a call leaves: only setting one that succeeded changes it.
abbrev pub ns_effect : Call → Option Errno → ℕ → ℕ
ns_effect (net (ns_set n)) none s = n
ns_effect (net (ns_set n)) (some e) s = s
ns_effect _ failure s = s

-- The namespace set last in a log, from the one that it began in.
abbrev pub namespace_after : ℕ → Log → ℕ
namespace_after home [] = home
namespace_after home (e ∷ l) = ns_effect e.call e.failure (namespace_after home l)

ns_effect-Plain : (c : Call) (failure : Option Errno) (s : ℕ) → Plain c → ns_effect c failure s ≡ s
ns_effect-Plain (net (ns_set n)) failure s h = absurd h
ns_effect-Plain (net _) failure s h = refl
ns_effect-Plain _ failure s h = refl

pub namespace_after-append :
    (home : ℕ) (calls l : Log)
    → Every Plain calls
    → namespace_after home (calls ++ l) ≡ namespace_after home l
namespace_after-append home [] l h = refl
namespace_after-append home (e ∷ calls) l h =
    ns_effect-Plain e.call e.failure _ h.0 ∙ namespace_after-append home calls l h.1

stays :
    {A : Type 0} (home : ℕ) (f : Io A)
    → Emits Plain f
    → (l : Log) → namespace_after home (f l).1 ≡ namespace_after home l
stays home f quiet l =
    let g = quiet.at l in
    ap (namespace_after home) g.grown ∙ namespace_after-append home g.calls l g.every

module _ (K : Kernel) (home host_ns : ℕ)
    (back : (k : Log) → K.act k (net (ns_set host_ns)) ≡ none) where
  set_back : (l : Log) → namespace_after home (perform K (net (ns_set host_ns)) l).1 ≡ host_ns
  unfolding perform
  set_back l = rw (back l) refl

  -- Whatever the body does, and whether or not the other namespace could be entered.
  entered :
      (target_ns : ℕ) (body : Io (Unit {0})) (l : Log)
      → namespace_after home l ≡ host_ns
      → namespace_after home
          ((perform K (net (ns_set target_ns)) >> finally body (perform K (net (ns_set host_ns))))
            l).1
        ≡ host_ns
  unfolding finally
  entered target_ns body l h =
      let switch = perform K (net (ns_set target_ns)) in
      bind_log (λ k. namespace_after home k ≡ host_ns) switch _ l
        (λ e p.
          let (x, q) = perform-eq-err K (net (ns_set target_ns)) l (λ i. (p i, (switch l).1)) in
          ap (namespace_after home) q ∙ h)
        (λ _ _. set_back (body (switch l).1).1)

  in_namespace_returns :
      (target_ns : ℕ) (body : Io (Unit {0})) (l : Log)
      → namespace_after home l ≡ host_ns
      → namespace_after home (in_namespace K host_ns target_ns body l).1 ≡ host_ns
  unfolding in_namespace finally
  in_namespace_returns target_ns body l h =
      stays home (perform K (net (ns_close target_ns))) (Emits-perform K _ tt) _
      ∙ entered target_ns body l h

  in_child_returns :
      (child_pid : ℕ) (body : Io (Unit {0})) (l : Log)
      → namespace_after home l ≡ host_ns
      → namespace_after home (in_child K child_pid host_ns body l).1 ≡ host_ns
  unfolding in_child
  in_child_returns child_pid body l h =
      let question = ask (net (ns_get_pid child_pid)) (λ k. K.ns_get_pid k child_pid) in
      let same = stays home question (Emits-ask _ _ tt) l in
      bind_log (λ k. namespace_after home k ≡ host_ns) question _ l (λ _ _. same ∙ h)
        (λ target_ns _. in_namespace_returns target_ns body (question l).1 (same ∙ h))

  -- However it ends, the namespace that was set last is the one that it began in, if that is the one
  -- that netns reports, and setting it does not fail.
  pub configure-returns :
      (child_pid : ℕ) (temp_name final_name addr_cidr gw_cidr : String) (l : Log)
      → namespace_after home l ≡ host_ns
      → K.ns_get l ≡ got host_ns
      → namespace_after home
          (configure_container_interface K child_pid temp_name final_name addr_cidr gw_cidr l).1
        ≡ host_ns
  unfolding configure_container_interface finally
  configure-returns child_pid temp_name final_name addr_cidr gw_cidr l h asked =
      let body = configure_inside K temp_name final_name addr_cidr gw_cidr in
      let question = ask (net ns_get) K.ns_get in
      let same = stays home question (Emits-ask _ _ tt) l in
      let first : question l ≡ (ok host_ns, done (net ns_get) ∷ l) =
        unfold ask in (ap (λ r. answer (net ns_get) r l) asked) in
      ap (λ r. namespace_after home r.1) (bind_ok question _ l first)
      ∙ stays home (perform K (net (ns_close host_ns))) (Emits-perform K _ tt) _
      ∙ in_child_returns child_pid body (done (net ns_get) ∷ l) h
