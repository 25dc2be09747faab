-- ===== src/Options/Env/Laws.antt =====
-- What the merged environment holds.
use mathlib.Core.List.{List, [], ◌∷◌, ◌++◌}
use microbox.Base.{
  String, Bool, true, false, not, ◌&&◌, Option, none, some, ◌≡◌, refl, ◌∙◌, sym, arith, inl, inr,
  Bool-cases, Option-cases, ◌==◌, if◌then◌else◌, eq_iff,
}
use microbox.Base.Keys.{
  string_eq, member, insert_all, delete_all, member-insert_all_nil, member-delete_all,
}
use microbox.Base.Sort.{sort, member-sort}
use microbox.Sandbox.Env.{EnvVar}
use microbox.Options.Env.{
  or_value, value_of, keys_of, cons_value, collect, default_order, merge_env,
}

value_of-append :
    (k : String) (xs ys : List EnvVar)
    → value_of k (xs ++ ys) ≡ or_value (value_of k ys) (value_of k xs)
unfolding value_of
value_of-append k [] ys = elim (Option-cases (value_of k ys)) [
  | inl p ↦ rw p refl
  | inr (v, p) ↦ rw p refl
]
value_of-append k (x ∷ xs) ys = elim (Option-cases (value_of k ys)) [
  | inl p ↦ rw (value_of-append k xs ys, p) refl
  | inr (v, p) ↦ rw (value_of-append k xs ys, p) refl
]

-- A key that was never written has no value.
value_of_absent :
    (k : String) (env : List EnvVar) → member k (keys_of env) ≡ false → value_of k env ≡ none
unfolding value_of member
value_of_absent k [] h = refl
value_of_absent k (e ∷ env) h =
    let apart : ((k == e.key) ≡ false) × (member k (keys_of env) ≡ false) =
      (ground arith, ground arith) in
    rw (value_of_absent k env apart.1, apart.0) refl

or_value-none : (o : Option String) → or_value o none ≡ o
or_value-none none = refl
or_value-none (some v) = refl

or_value_same : (o : Option String) → or_value o o ≡ o
or_value_same none = refl
or_value_same (some v) = refl

if_none : (b : Bool) → ◌≡◌ {A = Option String} (if b then none else none) none
if_none true = refl
if_none false = refl

value_of-cons_value :
    (k x : String) (o : Option String) (env : List EnvVar)
    → value_of k (cons_value x o env) ≡ or_value (value_of k env) (if k == x then o else none)
unfolding value_of
value_of-cons_value k x (some v) env = refl
value_of-cons_value k x none env = rw if_none (sym (or_value-none (value_of k env)))

value_of-collect :
    (k : String) (merged : List EnvVar) (ks : List String)
    → value_of k (collect merged ks) ≡ (if member k ks then value_of k merged else none)
unfolding collect member
value_of-collect k merged [] = unfold value_of in refl
value_of-collect k merged (x ∷ ks) =
    value_of-cons_value k x (value_of x merged) (collect merged ks)
    ∙ rw (value_of-collect k merged ks) (elim (Bool-cases (k == x)) [
      | inl p ↦ elim (Bool-cases (member k ks)) [
        | inl q ↦ rw (p, q, ← (eq_iff k x).0 p) (or_value_same (value_of k merged))
        | inr q ↦ rw (p, q, ← (eq_iff k x).0 p) refl
      ]
      | inr p ↦ elim (Bool-cases (member k ks)) [
        | inl q ↦ rw (p, q) (or_value-none (value_of k merged))
        | inr q ↦ rw (p, q) refl
      ]
    ])

-- The keys that come after the default ones.
member-extras :
    (k : String) (merged : List EnvVar)
    → member k (sort (delete_all default_order (insert_all (keys_of merged) [])))
      ≡ (not (member k default_order) && member k (keys_of merged))
member-extras k merged =
    member-sort k _
    ∙ member-delete_all k default_order _
    ∙ rw (member-insert_all_nil k (keys_of merged)) refl

value_of_both :
    (merged : List EnvVar) (k : String)
    → or_value
        (if not (member k default_order) && member k (keys_of merged)
          then value_of k merged
          else none)
        (if member k default_order then value_of k merged else none)
      ≡ value_of k merged
value_of_both merged k = elim (Bool-cases (member k default_order)) [
  | inl p ↦ rw p refl
  | inr p ↦ elim (Bool-cases (member k (keys_of merged))) [
    | inl q ↦ rw (p, q) (or_value-none (value_of k merged))
    | inr q ↦ rw (p, q) (sym (value_of_absent k merged q))
  ]
]

-- The merged environment has for each key the last value that the user gives to it, or else the
-- default one, and no other key has a value in it.
pub value_of-merge_env :
    (defaults user : List EnvVar) (k : String)
    → value_of k (merge_env defaults user) ≡ or_value (value_of k user) (value_of k defaults)
unfolding merge_env
value_of-merge_env defaults user k =
    value_of-append k (collect (defaults ++ user) default_order) _
    ∙ rw
        (
          value_of-collect k (defaults ++ user)
              (sort (delete_all default_order (insert_all (keys_of (defaults ++ user)) []))),
          value_of-collect k (defaults ++ user) default_order,
          member-extras k (defaults ++ user),
        )
        (value_of_both (defaults ++ user) k)
    ∙ value_of-append k defaults user
