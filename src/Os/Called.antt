-- ===== src/Os/Called.antt =====
-- Whether a call stands in a log.
use mathlib.Core.List.{[], ◌∷◌, ◌++◌}
use mathlib.Core.Logic.{◌⊎◌, inr}
use mathlib.Core.Path.{◌≡◌, subst, sym}
use microbox.Os.Calls.{Call, Log}
use microbox.Os.Keeps.{Grows}

abbrev pub Called : Call → Log → Type 0
Called c [] = ⊥
Called c (e ∷ l) = (e.call ≡ c) ⊎ Called c l

Called-append : (c : Call) (k l : Log) → Called c l → Called c (k ++ l)
Called-append c [] l h = h
Called-append c (e ∷ k) l h = inr (Called-append c k l h)

-- What was called stays in the log.
pub Called-Grows :
    {P : Call → Type 0} (c : Call) (l l' : Log) → Grows P l l' → Called c l → Called c l'
Called-Grows c l l' g h = subst (Called c) (sym g.grown) (Called-append c g.calls l h)
