-- ===== src/Sandbox/Seccomp/Laws.antt =====
-- Which system calls are denied.
use mathlib.Core.Bool.{false≢true}
use microbox.Base.{
  String, Bool, true, false, not, ◌&&◌, ◌||◌, List, [], ◌∷◌, ◌≡◌, refl, ◌∙◌, sym, ap, arith, Option,
  inl, inr,
}
use microbox.Base.Keys.{
  string_eq, member, Distinct, member-insert_all, member-insert_all_nil, member_self, member_tail,
  member-cons, member-delete_all, insert_all-Distinct, delete_all-Distinct,
}
use microbox.Base.Sort.{IsSorted, sort-IsSorted, member-sort, sort-Distinct}
use microbox.Os.{
  Errno, enosys, Log, Call, filter_add_rule, filter_load, filter_release, Kernel, ok, perform,
  ignoring, pure, for_each,
}
use microbox.Os.Keeps.{Emits, Emits-bind, emits_rules}
use microbox.Os.Called.{Called, Called-Grows}
use microbox.Os.Success.{
  done, >>=-eq-ok, perform-eq-ok, wrapping-eq-ok, finally-eq-ok, bind_returned,
}
use microbox.Sandbox.Seccomp.{
  default_deny_syscalls, merge_syscall_lists, deny, deny_if, fill_filter, setup_seccomp,
}

-- The deny list: a system call is in it exactly if it is a default one or one that the user denies,
-- and the user does not allow it; an allowed one is left out even if the user denies it too. The
-- list is sorted and names no call twice.
pub member-merge_syscall_lists :
    (user_allow user_deny : List String) (s : String)
    → (member s (merge_syscall_lists user_allow user_deny)
        ≡ (not (member s user_allow) && (member s user_deny || member s default_deny_syscalls)))
      × IsSorted (merge_syscall_lists user_allow user_deny)
      × Distinct (merge_syscall_lists user_allow user_deny)
unfolding merge_syscall_lists
member-merge_syscall_lists user_allow user_deny s = (
  member-sort s _
      ∙ member-delete_all s user_allow _
      ∙ rw (member-insert_all s user_deny, member-insert_all_nil s default_deny_syscalls),
  sort-IsSorted _,
  sort-Distinct _ (
      delete_all-Distinct user_allow _
        (insert_all-Distinct user_deny _ (insert_all-Distinct default_deny_syscalls [] tt))),
)

-- The calls of the loop are rules, each for a name of the list, and each answers ENOSYS.
abbrev pub DeniesIn : List String → Call → Type 0
DeniesIn names (filter_add_rule name e) = (member name names ≡ true) × (e ≡ enosys)
DeniesIn names _ = ⊥

module _ (K : Kernel) (known : String → Bool) where
  deny_if-DeniesIn :
      (names : List String) (name : String) (b : Bool)
      → member name names ≡ true
      → Emits (DeniesIn names) (deny_if K known name b)
  unfolding deny_if
  deny_if-DeniesIn names name true h = search emits_rules
  deny_if-DeniesIn names name false h = search emits_rules

  deny_all-DeniesIn :
      (names all : List String)
      → ((s : String) → member s names ≡ true → member s all ≡ true)
      → Emits (DeniesIn all) (for_each names (deny K known))
  unfolding for_each deny
  deny_all-DeniesIn [] all h = search emits_rules
  deny_all-DeniesIn (name ∷ names) all h =
      Emits-bind _ _ (deny_if-DeniesIn all name (known name) (h name (member_self name names)))
        λ _. deny_all-DeniesIn names all (λ s m. h s (member_tail s name names m))

  deny-Called :
      (name : String) (l : Log)
      → known name ≡ true
      → Called (filter_add_rule name enosys) (deny K known name l).1
  unfolding deny deny_if ignoring perform
  deny-Called name l h = rw h (inl refl)

  deny-ok : (name : String) (l : Log) → (deny K known name l).0 ≡ ok tt
  unfolding deny deny_if ignoring pure
  deny-ok name l = ground arith

  -- `AddRule` is called for every name of the list that libseccomp knows.
  deny_all-Called :
      (names : List String) (name : String) (l : Log)
      → member name names ≡ true
      → known name ≡ true
      → Called (filter_add_rule name enosys) (for_each names (deny K known) l).1
  unfolding for_each
  deny_all-Called [] name l m k = absurd (false≢true (unfold member in m))
  deny_all-Called (n ∷ names) name l m k =
      rw (bind_returned (deny K known n) (λ _. for_each names (deny K known)) l (deny-ok n l))
        (elim (member-cons name n names m) [
          | inl e ↦
              Called-Grows _ _ _ ((deny_all-DeniesIn names names (λ s p. p)).at _)
                (rw (← e) (deny-Called name l k))
          | inr p ↦ deny_all-Called names name _ p k
        ])

  fill_filter-eq-ok :
      (allow_sys deny_sys : List String) (l : Log) {l' : Log}
      → fill_filter K known allow_sys deny_sys l ≡ (ok tt, l')
      → l'
        ≡ done filter_load ∷ (for_each (merge_syscall_lists allow_sys deny_sys) (deny K known) l).1
  unfolding fill_filter
  fill_filter-eq-ok allow_sys deny_sys l h =
      let (_, k, p, q) = >>=-eq-ok _ _ l h in
      perform-eq-ok K _ k (wrapping-eq-ok _ _ _ k q) ∙ ap (λ r. done filter_load ∷ r.1) (sym p)

  -- When `SetupSeccomp` returns, the filter was loaded with success, and then only released; before
  -- that, `AddRule` was called with the answer ENOSYS for every name of the deny list that libseccomp
  -- knows. Whether it added the rule is not said: where it fails, the code goes on.
  pub setup_seccomp-eq-ok :
      (allow_sys deny_sys : List String) (l : Log) {l' : Log}
      → setup_seccomp K known allow_sys deny_sys l ≡ (ok tt, l')
      → (k : Log) × (r : Option Errno) × (l'
          ≡ record { call = filter_release; failure = r } ∷ done filter_load ∷ k)
        × ((name : String)
            → member name (merge_syscall_lists allow_sys deny_sys) ≡ true
            → known name ≡ true
            → Called (filter_add_rule name enosys) k)
  unfolding setup_seccomp
  setup_seccomp-eq-ok allow_sys deny_sys l h =
      let (_, l1, _, h1) = >>=-eq-ok _ _ l h in
      let (_, l2, _, h2) = >>=-eq-ok _ _ l1 h1 in
      let loop = (for_each (merge_syscall_lists allow_sys deny_sys) (deny K known) l2).1 in
      let (k, e, s) =
        finally-eq-ok (fill_filter K known allow_sys deny_sys) (perform K filter_release) l2 h2 in
      let loaded = fill_filter-eq-ok allow_sys deny_sys l2 e in
      (
        loop,
        K.act k filter_release,
        s
            ∙ (unfold perform in
                ap (λ x. record { call = filter_release; failure = K.act k filter_release } ∷ x)
                  loaded),
        λ name m known'. deny_all-Called _ name l2 m known',
      )
