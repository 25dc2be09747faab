-- ===== src/Net/Interfaces/InPlace.antt =====
-- The routes and the names of interfaces that the configuration of a container's interface changes.
use microbox.Base.{ℕ, String, Bool, true, false, [], ◌∷◌, ◌++◌, ◌≡◌, refl, ◌∙◌, ap}
use microbox.Os.{
  Call, net, ns_get, ns_get_pid, ns_set, ns_close, route_replace, link_set_name, Log, got, Kernel,
  Io, ◌>>◌, ask, answer, finally, perform,
}
use microbox.Os.Keeps.{Every, Emits, Emits-ask, Emits-perform}
use microbox.Os.Preserves.{Preserves, Preserves-Emits, Preserves-bind, Preserves-finally}
use microbox.Os.Success.{bind_log, perform-eq-ok, answer-eq-ok}
use microbox.Net.Interfaces.{in_namespace, in_child, configure_container_interface}
use microbox.Net.Interfaces.Plain.{Plain, configure_inside-Plain}
use microbox.Net.Interfaces.Restored.{namespace_after, namespace_after-append}

-- Whether the call replaces a route or renames an interface.
abbrev pub rewires : Call → Bool
rewires (net (route_replace index gw_ip)) = true
rewires (net (link_set_name link name)) = true
rewires _ = false

-- Each call that does so was made where the namespace set last is this one.
abbrev pub InPlace : ℕ → ℕ → Log → Type 0
InPlace home target [] = Unit
InPlace home target (e ∷ l) =
    (rewires e.call ≡ true → namespace_after home l ≡ target) × InPlace home target l

abbrev pub Unmoved : Call → Type 0
Unmoved c = rewires c ≡ false

module _ (home target : ℕ) where
  InPlace-Unmoved :
      (P : Call → Type 0)
      → ((c : Call) → P c → Unmoved c)
      → (calls l : Log) → Every P calls
      → InPlace home target l
      → InPlace home target (calls ++ l)
  InPlace-Unmoved P f [] l every h = h
  InPlace-Unmoved P f (e ∷ calls) l every h =
      (λ r. let still = f e.call every.0 in absurd cc, InPlace-Unmoved P f calls l every.1 h)

  pub Preserves-Unmoved :
      {A : Type 0} (P : Call → Type 0) (m : Io A)
      → ((c : Call) → P c → Unmoved c)
      → Emits P m
      → Preserves (InPlace home target) m
  Preserves-Unmoved P m f emits =
      Preserves-Emits m emits (λ l l' g h. rw g.grown (InPlace-Unmoved P f g.calls l g.every h))

  -- What is called after the namespace was set and before another one is.
  InPlace-inside :
      (calls l : Log)
      → Every Plain calls
      → namespace_after home l ≡ target
      → InPlace home target l
      → InPlace home target (calls ++ l)
  InPlace-inside [] l every there h = h
  InPlace-inside (e ∷ calls) l every there h = (
    λ r. namespace_after-append home calls l every.1 ∙ there,
    InPlace-inside calls l every.1 there h,
  )

  module _ (K : Kernel) where
    -- From the namespace on that is entered.
    entered-InPlace :
        (host_ns : ℕ) (body : Io (Unit {0}))
        → Emits Plain body
        → Preserves
            (InPlace home target)
            (perform K (net (ns_set target)) >> finally body (perform K (net (ns_set host_ns))))
    unfolding finally
    entered-InPlace host_ns body plain = record {
      at = λ l h.
          let switch = perform K (net (ns_set target)) in
          let k = (switch l).1 in
          let switched =
            (Preserves-Unmoved Unmoved switch (λ c u. u) (Emits-perform K _ refl)).at l h in
          let back =
            Preserves-Unmoved Unmoved (perform K (net (ns_set host_ns))) (λ c u. u)
              (Emits-perform K _ refl) in
          bind_log (InPlace home target) switch _ l (λ _ _. switched)
            λ _ p.
              let there : namespace_after home k ≡ target =
                ap (namespace_after home)
                  (perform-eq-ok K (net (ns_set target)) l (λ i. (p i, k))) in
              let g = plain.at k in
              let done_inside : InPlace home target (body k).1 =
                rw g.grown (InPlace-inside g.calls k g.every there switched) in
              back.at _ done_inside;
    }

    in_namespace-InPlace :
        (host_ns : ℕ) (body : Io (Unit {0}))
        → Emits Plain body
        → Preserves (InPlace home target) (in_namespace K host_ns target body)
    unfolding in_namespace
    in_namespace-InPlace host_ns body plain =
        Preserves-finally _ _ (entered-InPlace host_ns body plain)
          (Preserves-Unmoved Unmoved _ (λ c u. u) (Emits-perform K _ refl))

    module _ (child_pid : ℕ)
        (only : (l : Log) (ns : ℕ) → K.ns_get_pid l child_pid ≡ got ns → ns ≡ target) where
      in_child-InPlace :
          (host_ns : ℕ) (body : Io (Unit {0}))
          → Emits Plain body
          → Preserves (InPlace home target) (in_child K child_pid host_ns body)
      unfolding in_child ask
      in_child-InPlace host_ns body plain = record {
        at = λ l h.
            let question = answer (net (ns_get_pid child_pid)) (K.ns_get_pid l child_pid) in
            let asked =
              (Preserves-Unmoved Unmoved
                  (ask (net (ns_get_pid child_pid)) (λ k. K.ns_get_pid k child_pid)) (λ c u. u)
                  (Emits-ask _ _ refl)).at
                l h in
            bind_log (InPlace home target)
              (ask (net (ns_get_pid child_pid)) (λ k. K.ns_get_pid k child_pid)) _ l (λ _ _. asked)
              λ ns p.
                let there : K.ns_get_pid l child_pid ≡ got ns =
                  (answer-eq-ok (net (ns_get_pid child_pid)) _ l (λ i. (p i, (question l).1))).1 in
                let same = only l ns there in
                rw same ((in_namespace-InPlace host_ns body plain).at _ asked);
      }

      pub configure-InPlace :
          (temp_name final_name addr_cidr gw_cidr : String)
          → Preserves
              (InPlace home target)
              (configure_container_interface K child_pid temp_name final_name addr_cidr gw_cidr)
      unfolding configure_container_interface
      configure-InPlace temp_name final_name addr_cidr gw_cidr =
          let inside = configure_inside-Plain K temp_name final_name addr_cidr gw_cidr in
          let asking =
            Preserves-Unmoved Unmoved _ (λ c u. u) (Emits-ask (net ns_get) K.ns_get refl) in
          let closing = λ (ns : ℕ).
            Preserves-Unmoved Unmoved _ (λ c u. u) (Emits-perform K (net (ns_close ns)) refl) in
          let within = λ (ns : ℕ). in_child-InPlace ns _ inside in
          Preserves-bind _ _ asking (λ ns. Preserves-finally _ _ (within ns) (closing ns))
