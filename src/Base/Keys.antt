-- ===== src/Base/Keys.antt =====
-- Go's `map[K]struct{}` and `map[K]V`: sets and maps by key. Iteration order is not specified in Go;
-- here it is the order of insertion, and the laws do not mention it.
use mathlib.Core.Bool.{Bool, true, false, not, ◌&&◌, ◌||◌}
use mathlib.Core.List.{List, [], ◌∷◌, ◌++◌}
use mathlib.Core.Logic.{◌↔◌, ◌⊎◌, inl, inr}
use mathlib.Core.Path.{◌≡◌, refl}
use native.Mathlib.Omega.{arith}
use text.Mathlib.Text.{◌==◌ as str_eq}
use text.Mathlib.TextEquality.{eq_iff}
use Prim.Native.Nat.{ℕ}
use Prim.Native.String.{String}
use microbox.Base.Tests.{◌=ᵇ◌, if◌then◌else◌, Bool-cases}

pub record Eq {ℓ} (A : Type ℓ) : Type ℓ where
  pub beq : A → A → Bool
  pub beq_iff : (a b : A) → (beq a b ≡ true) ↔ (a ≡ b)

pub nat_beq_iff : (a b : ℕ) → ((a =ᵇ b) ≡ true) ↔ (a ≡ b)
nat_beq_iff a b = ground arith

instance abbrev pub nat_eq : Eq ℕ
nat_eq = record { beq = ◌=ᵇ◌; beq_iff = nat_beq_iff }

instance abbrev pub string_eq : Eq String
string_eq = record { beq = str_eq; beq_iff = eq_iff }

module _ {ℓ} {A : Type ℓ} ⦃e : Eq A⦄ where
  unfoldable pub member : A → List A → Bool
  member a [] = false
  member a (x ∷ xs) = e.beq a x || member a xs

  -- `set[a] = struct{}{}`
  unfoldable pub insert : A → List A → List A
  insert a xs = if member a xs then xs else xs ++ (a ∷ [])

  -- `delete(set, a)`
  unfoldable pub delete : A → List A → List A
  delete a [] = []
  delete a (x ∷ xs) = let rest = delete a xs in if e.beq a x then rest else x ∷ rest

  -- A loop of insertions, and one of deletions.
  unfoldable pub insert_all : List A → List A → List A
  insert_all [] set = set
  insert_all (x ∷ xs) set = insert_all xs (insert x set)

  unfoldable pub delete_all : List A → List A → List A
  delete_all [] set = set
  delete_all (x ∷ xs) set = delete_all xs (delete x set)

  abbrev pub Distinct : List A → Type 0
  Distinct [] = Unit
  Distinct (x ∷ xs) = (member x xs ≡ false) × Distinct xs

  member-append : (a : A) (xs ys : List A) → member a (xs ++ ys) ≡ (member a xs || member a ys)
  unfolding member
  member-append a [] ys = refl
  member-append a (x ∷ xs) ys = ground (arith, member-append a xs ys)

  pub member-insert : (a b : A) (xs : List A) → member a (insert b xs) ≡ (e.beq a b || member a xs)
  unfolding insert
  member-insert a b xs = elim (Bool-cases (member b xs)) [
    | inl old ↦ elim (Bool-cases (e.beq a b)) [
      | inl same ↦ rw (old, same) (rw ((e.beq_iff a b).0 same) old)
      | inr other ↦ rw (old, other)
    ]
    | inr new ↦ rw (new, member-append a xs (b ∷ [])) (unfold member in (ground arith))
  ]

  pub member-delete :
      (a b : A) (xs : List A) → member a (delete b xs) ≡ (not (e.beq b a) && member a xs)
  unfolding member delete
  member-delete a b [] = ground arith
  member-delete a b (x ∷ xs) =
      ground (arith, member-delete a b xs, e.beq_iff b x, e.beq_iff a x, e.beq_iff b a)

  pub member-insert_all :
      (a : A) (xs set : List A) → member a (insert_all xs set) ≡ (member a xs || member a set)
  unfolding insert_all
  member-insert_all a [] set = unfold member in refl
  member-insert_all a (x ∷ xs) set =
      rw (member-insert_all a xs (insert x set), member-insert) (unfold member in (ground arith))

  pub member-delete_all :
      (a : A) (xs set : List A) → member a (delete_all xs set) ≡ (not (member a xs) && member a set)
  unfolding delete_all
  member-delete_all a [] set = unfold member in refl
  member-delete_all a (x ∷ xs) set =
      rw (member-delete_all a xs (delete x set), member-delete)
        (unfold member in (ground (arith, e.beq_iff a x, e.beq_iff x a)))

  Distinct-append :
      (xs : List A) (a : A) → Distinct xs → member a xs ≡ false → Distinct (xs ++ a ∷ [])
  unfolding member
  Distinct-append [] a d h = (refl, tt)
  Distinct-append (x ∷ xs) a d h = (
    ground (arith, member-append x xs (a ∷ []), d.0, e.beq_iff x a, e.beq_iff a x),
    Distinct-append xs a d.1 (ground arith),
  )

  pub insert-Distinct : (a : A) (xs : List A) → Distinct xs → Distinct (insert a xs)
  unfolding insert
  insert-Distinct a xs d = elim (Bool-cases (member a xs)) [
    | inl old ↦ rw old d
    | inr new ↦ rw new (Distinct-append xs a d new)
  ]

  pub delete-Distinct : (a : A) (xs : List A) → Distinct xs → Distinct (delete a xs)
  unfolding delete
  delete-Distinct a [] d = tt
  delete-Distinct a (x ∷ xs) d = elim (Bool-cases (e.beq a x)) [
    | inl same ↦ rw same (delete-Distinct a xs d.1)
    | inr other ↦ rw other (rw (member-delete x a xs, d.0) (ground arith), delete-Distinct a xs d.1)
  ]

  pub insert_all-Distinct : (xs set : List A) → Distinct set → Distinct (insert_all xs set)
  unfolding insert_all
  insert_all-Distinct [] set d = d
  insert_all-Distinct (x ∷ xs) set d =
      insert_all-Distinct xs (insert x set) (insert-Distinct x set d)

  pub delete_all-Distinct : (xs set : List A) → Distinct set → Distinct (delete_all xs set)
  unfolding delete_all
  delete_all-Distinct [] set d = d
  delete_all-Distinct (x ∷ xs) set d =
      delete_all-Distinct xs (delete x set) (delete-Distinct x set d)

  pub member-insert_all_nil : (a : A) (xs : List A) → member a (insert_all xs []) ≡ member a xs
  member-insert_all_nil a xs = rw (member-insert_all a xs []) (unfold member in (ground arith))

  pub member_self : (a : A) (xs : List A) → member a (a ∷ xs) ≡ true
  unfolding member
  member_self a xs = rw ((e.beq_iff a a).1 refl)

  pub member_tail : (a x : A) (xs : List A) → member a xs ≡ true → member a (x ∷ xs) ≡ true
  unfolding member
  member_tail a x xs h = ground arith

  pub member-cons :
      (a x : A) (xs : List A) → member a (x ∷ xs) ≡ true → (a ≡ x) ⊎ (member a xs ≡ true)
  unfolding member
  member-cons a x xs h = elim (Bool-cases (e.beq a x)) [
    | inl same ↦ inl ((e.beq_iff a x).0 same)
    | inr other ↦ inr (ground arith)
  ]
