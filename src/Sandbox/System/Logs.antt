-- ===== src/Sandbox/System/Logs.antt =====
-- The parts of a log, and of a history.
use microbox.Base.{[], ◌∷◌, ◌++◌, ◌≡◌, ◌∙◌, sym, ap, ◌⊎◌, inl, inr}
use mathlib.Core.List.{append_assoc}
use microbox.Os.{Call, Event, Log}
use microbox.Os.Keeps.{Every, Later, Later-refl}
use microbox.Sandbox.System.{Who, parent, child, History, calls_of}

pub not-Later-empty : (e : Event) (b : Log) → Later (e ∷ b) [] → ⊥
not-Later-empty e b ([], p) = cc
not-Later-empty e b (c ∷ cs, p) = cc

pub Later-uncons :
    {e x : Event} {b l : Log} → Later (e ∷ b) (x ∷ l) → ((e ≡ x) × (b ≡ l)) ⊎ Later (e ∷ b) l
Later-uncons ([], p) = inl (cc, cc)
Later-uncons (c ∷ cs, p) = inr (cs, cc)

pub Later-tail : {e : Event} (b : Log) {l : Log} → Later (e ∷ b) l → Later b l
Later-tail {e} b (cs, p) = (cs ++ e ∷ [], p ∙ sym (append_assoc cs (e ∷ []) b))

-- A call of the whole log is one of its later part, which then follows all of the rest, or of the rest.
pub Later-append :
    {e : Event} (k l : Log) {b : Log} → Later (e ∷ b) (k ++ l) → Later l b ⊎ Later (e ∷ b) l
Later-append [] l h = inr h
Later-append (x ∷ k) l h = elim (Later-uncons h) [
  | inl (_, p) ↦ inl (k, p)
  | inr h' ↦ Later-append k l h'
]

pub Every-Later :
    (P : Call → Type 0) (l : Log) {e : Event} {b : Log} → Every P l → Later (e ∷ b) l → P e.call
Every-Later P [] {e} {b} every h = absurd (not-Later-empty e b h)
Every-Later P (x ∷ l) every h = elim (Later-uncons h) [
  | inl (p, _) ↦ rw p every.0
  | inr h' ↦ Every-Later P l every.1 h'
]

pub calls_of-Later :
    (w : Who) (after before : History) → Later (calls_of w before) (calls_of w (after ++ before))
calls_of-Later w [] before = Later-refl (calls_of w before)
calls_of-Later parent ((parent, e) ∷ after) before =
    let (cs, p) = calls_of-Later parent after before in (e ∷ cs, ap (λ l. e ∷ l) p)
calls_of-Later parent ((child, e) ∷ after) before = calls_of-Later parent after before
calls_of-Later child ((parent, e) ∷ after) before = calls_of-Later child after before
calls_of-Later child ((child, e) ∷ after) before =
    let (cs, p) = calls_of-Later child after before in (e ∷ cs, ap (λ l. e ∷ l) p)

-- Where a call of the child stands in the history.
pub split_child :
    (h : History) (cs rest : Log) (e : Event)
    → calls_of child h ≡ cs ++ e ∷ rest
    → (after : History) × (before : History) × (h ≡ after ++ (child, e) ∷ before)
      × (calls_of child before ≡ rest)
split_child [] [] rest e p = cc
split_child [] (c ∷ cs) rest e p = cc
split_child ((parent, f) ∷ h) cs rest e p =
    let (after, before, q, r) = split_child h cs rest e p in
    ((parent, f) ∷ after, before, ap (λ k. (parent, f) ∷ k) q, r)
split_child ((child, f) ∷ h) [] rest e p =
    let same : f ≡ e = cc in ([], h, ap (λ x. (child, x) ∷ h) same, cc)
split_child ((child, f) ∷ h) (c ∷ cs) rest e p =
    let (after, before, q, r) = split_child h cs rest e cc in
    ((child, f) ∷ after, before, ap (λ k. (child, f) ∷ k) q, r)
