-- ===== src/Sandbox/Capabilities/Laws.antt =====
-- Which capabilities the sandboxed process gets.
use microbox.Base.{
  ℕ, String, not, ◌&&◌, ◌||◌, List, [], ◌∷◌, ◌++◌, map, ◌≡◌, refl, ◌∙◌, sym, ap, arith, inl, inr,
}
use mathlib.Core.Path.{ap₂}
use mathlib.Core.List.{append_assoc, append-nil}
use microbox.Base.Keys.{
  nat_eq, member, Distinct, member-insert_all, member-delete_all, insert_all-Distinct,
  delete_all-Distinct,
}
use microbox.Os.{
  Log, bounding, permitted, effective, inheritable, caps, bounds, ambient, caps_open, caps_clear,
  caps_set, caps_apply, Result, ok, err, Kernel, lift,
}
use microbox.Os.Success.{
  done, >>=-eq-ok, perform-eq-ok, wrapping-eq-ok, after_tell, after_wrapping, ok-injective, err≢ok,
  Result-cases,
}
use microbox.Sandbox.Capabilities.{
  CapLibrary, CapabilityOpts, default_caps, CapsByType, all_types, final_caps, and_then_more,
  new_cap_set, cap_set_add, cap_set_remove, from_capability, from_capabilities,
  from_capabilities_loop, build_cap_sets, install_caps, apply_caps,
}

-- A capability is in the final set exactly if it is added, or is a default one that is not dropped:
-- an added one stays also if it is dropped too. No capability is listed twice.
pub member-final_caps :
    (o : CapabilityOpts) (ids : List ℕ) (c : ℕ)
    → (member c (final_caps o ids) ≡ (member c o.add || (not (member c o.drop) && member c ids)))
      × Distinct (final_caps o ids)
unfolding final_caps cap_set_add cap_set_remove new_cap_set
member-final_caps o ids c = (
  member-insert_all c o.add _
      ∙ rw (member-delete_all c o.drop, member-insert_all c ids [])
          (unfold member in (ground arith)),
  insert_all-Distinct o.add _ (delete_all-Distinct o.drop _ (insert_all-Distinct ids [] tt)),
)

-- The calls of `Apply`, the latest first.
abbrev pub apply_calls : CapsByType → Log → Log
apply_calls r l =
    done (caps_apply (caps ∷ bounds ∷ ambient ∷ []))
    ∷ done (caps_clear (ambient ∷ []))
    ∷ done (caps_set inheritable r.inheritable_set)
    ∷ done (caps_set effective r.effective_set)
    ∷ done (caps_set permitted r.permitted_set)
    ∷ done (caps_clear (caps ∷ []))
    ∷ done (caps_set bounding r.bounding_set)
    ∷ done (caps_clear (bounds ∷ []))
    ∷ done (caps_open 0)
    ∷ l

install_caps-eq-ok :
    (K : Kernel) (r : CapsByType) (l : Log) {l' : Log}
    → install_caps K r l ≡ (ok tt, l')
    → l' ≡ apply_calls r l
unfolding install_caps
install_caps-eq-ok K r l h =
    let h1 = after_wrapping K _ _ l "error getting process capabilities" [] h in
    let h2 = after_tell K _ _ _ h1 in
    let h3 = after_tell K _ _ _ h2 in
    let h4 = after_tell K _ _ _ h3 in
    let h5 = after_tell K _ _ _ h4 in
    let h6 = after_tell K _ _ _ h5 in
    let h7 = after_tell K _ _ _ h6 in
    let h8 = after_tell K _ _ _ h7 in perform-eq-ok K _ _ (wrapping-eq-ok _ _ _ _ h8)

module _ (L : CapLibrary) where
  build_cap_sets-eq-ok :
      (o : CapabilityOpts) {r : CapsByType}
      → build_cap_sets L o ≡ ok r
      → (ids : List ℕ) × (from_capabilities L default_caps ≡ ok ids)
        × (r ≡ all_types (final_caps o ids))
  unfolding build_cap_sets
  build_cap_sets-eq-ok o {r} h = elim (Result-cases (from_capabilities L default_caps)) [
    | inl (ids, e) ↦ (ids, e, sym (ok-injective (rw e at h)))
    | inr (x, e) ↦ absurd (err≢ok (rw e at h))
  ]

  and_then_more-eq-ok :
      (rest : List ℕ → Result (List ℕ)) (out : List ℕ) (r : Result ℕ) {ids : List ℕ}
      → and_then_more L rest out r ≡ ok ids
      → (id : ℕ) × (r ≡ ok id) × (rest (out ++ id ∷ []) ≡ ok ids)
  unfolding and_then_more
  and_then_more-eq-ok rest out (ok id) h = (id, refl, h)
  and_then_more-eq-ok rest out (err e) h = cc

  from_capabilities_loop-eq-ok :
      (names : List String) (out : List ℕ) {ids : List ℕ}
      → from_capabilities_loop L names out ≡ ok ids
      → (rest : List ℕ) × (ids ≡ out ++ rest) × (map ok rest ≡ map (from_capability L) names)
  unfolding from_capabilities_loop
  from_capabilities_loop-eq-ok [] out h = ([], sym (ok-injective h) ∙ sym (append-nil out), refl)
  from_capabilities_loop-eq-ok (cap ∷ names) out h =
      let (id, e, k) =
        and_then_more-eq-ok (from_capabilities_loop L names) out (from_capability L cap) h in
      let (rest, p, q) = from_capabilities_loop-eq-ok names (out ++ id ∷ []) k in
      (id ∷ rest, p ∙ append_assoc out (id ∷ []) rest, ap₂ ◌∷◌ (sym e) q)

  -- `FromCapabilities` returns a list only if every name is known: then it is the list of the names'
  -- capabilities, in order.
  from_capabilities-eq-ok :
      (names : List String) {ids : List ℕ}
      → from_capabilities L names ≡ ok ids
      → map ok ids ≡ map (from_capability L) names
  unfolding from_capabilities
  from_capabilities-eq-ok names h =
      let (rest, p, q) = from_capabilities_loop-eq-ok names [] h in rw p q

  -- When `Apply` returns, the four sets that it gave to the process are the one list of
  -- `BuildCapSets`, over cleared sets; the ambient set is cleared; and the library has applied them.
  -- Nothing else was called.
  pub apply_caps-eq-ok :
      (K : Kernel) (o : CapabilityOpts) (l : Log) {l' : Log}
      → apply_caps L K o l ≡ (ok tt, l')
      → (ids : List ℕ) × (from_capabilities L default_caps ≡ ok ids)
        × (l' ≡ apply_calls (all_types (final_caps o ids)) l)
  unfolding apply_caps lift
  apply_caps-eq-ok K o l h =
      let (r, l0, p, h0) = >>=-eq-ok _ _ l h in
      let (ids, e, s) = build_cap_sets-eq-ok o (ap (λ x. x.0) p) in
      let same : l0 ≡ l = sym (ap (λ x. x.1) p) in
      (ids, e, install_caps-eq-ok K r l0 h0 ∙ ap₂ apply_calls s same)
