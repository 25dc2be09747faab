-- ===== src/Net/Rules/Ensured.antt =====
-- What the rules of iptables are after the program has ensured its own.
use microbox.Base.{
  ℕ, ◌+◌, ◌<◌, ◌≤◌, String, Bool, true, false, ◌&&◌, ◌==◌, ltb, Option, none, some, List, [], ◌∷◌,
  ◌++◌, if◌then◌else◌, ◌≡◌, refl, ◌∙◌, sym, ap, arith, inl, inr, ◌⊎◌, Bool-cases, eq_iff,
}
use microbox.Os.{
  Errno, Call, ipt_new, ipt_exists, ipt_insert, net, Log, ok, err, got, failed, Kernel, Io, pure,
  ask, wrapping, perform,
}
use microbox.Os.Keeps.{Emits, emits_rules, Every, Grows, Emits-perform}
use microbox.Os.Preserves.{Preserves, Preserves-Emits, preserves_rules}
use microbox.Os.Success.{bind_log, >>=-eq-ok, done, pure-eq-ok, perform-eq-ok, wrapping-eq-ok}
use microbox.Net.Interfaces.{default_interface}
use microbox.Net.Interfaces.Plain.{Plain, default_interface-Plain}
use microbox.Net.Rules.{insert_unless, ensure_ipt_rule, add_forwarding_rules, add_masquerade_rule}

abbrev pub same_rule : List String → List String → Bool
same_rule [] [] = true
same_rule (x ∷ xs) (y ∷ ys) = (x == y) && same_rule xs ys
same_rule _ _ = false

abbrev pub Rules : Type 0
Rules = String → String → List String → ℕ

module _ (before : Rules) (table chain : String) (rule : List String) where
  -- The rules that a call adds.
  abbrev pub added : Call → Option Errno → ℕ
  added (net (ipt_insert t c r)) none =
      if (t == table) && (c == chain) && same_rule r rule then 1 else 0
  added (net (ipt_insert t c r)) (some e) = 0
  added _ failure = 0

  -- How often a rule is in its chain after a log, where it was there `before` times at its start.
  abbrev pub times : Log → ℕ
  times [] = before table chain rule
  times (e ∷ l) = added e.call e.failure + times l

  added-Plain : (c : Call) (failure : Option Errno) → Plain c → added c failure ≡ 0
  added-Plain (net (ipt_insert t c r)) failure h = absurd h
  added-Plain (net _) failure h = refl
  added-Plain _ failure h = refl

  times-append : (calls l : Log) → Every Plain calls → times (calls ++ l) ≡ times l
  times-append [] l h = refl
  times-append (e ∷ calls) l h =
      let first = added-Plain e.call e.failure h.0 in
      let rest = times-append calls l h.1 in omega (arith, first, rest)

same_rule-eq : (xs ys : List String) → same_rule xs ys ≡ true → xs ≡ ys
same_rule-eq [] [] h = refl
same_rule-eq [] (y ∷ ys) h = cc
same_rule-eq (x ∷ xs) [] h = cc
same_rule-eq (x ∷ xs) (y ∷ ys) h =
    let first : x ≡ y = (eq_iff x y).0 (ground arith) in
    let rest : xs ≡ ys = same_rule-eq xs ys (ground arith) in λ i. first i ∷ rest i

same_rule_self : (xs : List String) → same_rule xs xs ≡ true
same_rule_self [] = refl
same_rule_self (x ∷ xs) = rw ((eq_iff x x).1 refl) (same_rule_self xs)

module _ (before : Rules) where
  -- No rule is there twice.
  abbrev pub OnlyOnce : Log → Type 0
  OnlyOnce l = (table chain : String) (rule : List String) → times before table chain rule l ≤ 1

  -- What iptables answers: whether the rule is in the chain, or that it cannot say.
  pub record Tables (K : Kernel) : Type 0 where
    pub knows :
        (l : Log) (table chain : String) (rule : List String)
        → (K.ipt_exists l table chain rule ≡ got (ltb 0 (times before table chain rule l)))
          ⊎ ((e : Errno) × (K.ipt_exists l table chain rule ≡ failed e))

  OnlyOnce-Plain : (l l' : Log) → Grows Plain l l' → OnlyOnce l → OnlyOnce l'
  OnlyOnce-Plain l l' g h table chain rule =
      let same =
        ap (times before table chain rule) g.grown
        ∙ times-append before table chain rule g.calls l g.every in
      rw same (h table chain rule)

  inserted_once :
      (table chain : String) (rule : List String) (failure : Option Errno) (l : Log)
      → times before table chain rule l ≡ 0
      → OnlyOnce l
      → OnlyOnce (record { call = net (ipt_insert table chain rule); failure = failure } ∷ l)
  inserted_once table chain rule (some e) l zero_times h t c r = ground (arith, h t c r)
  inserted_once table chain rule none l zero_times h t c r =
      elim (Bool-cases ((table == t) && (chain == c) && same_rule rule r)) [
        | inr other ↦ rw other (ground (arith, h t c r))
        | inl same ↦
            let e1 : table ≡ t = (eq_iff table t).0 (ground arith) in
            let e2 : chain ≡ c = (eq_iff chain c).0 (ground arith) in
            let e3 : rule ≡ r = same_rule-eq rule r (ground arith) in
            let zero_here : times before t c r l ≡ 0 =
              (λ i. times before (sym e1 i) (sym e2 i) (sym e3 i) l) ∙ zero_times in
            rw (same, zero_here) (omega arith)
      ]

module _ (before : Rules) (K : Kernel) (tables : Tables before K) where
  asked : String → String → List String → Io Bool
  asked table chain rule =
      wrapping "iptables exists %s/%s: %w" (table ∷ chain ∷ [])
        (ask (net (ipt_exists table chain rule)) (λ l. K.ipt_exists l table chain rule))

  asked-OnlyOnce :
      (table chain : String) (rule : List String) (l : Log)
      → OnlyOnce before l
      → OnlyOnce before (asked table chain rule l).1
  unfolding asked
  asked-OnlyOnce table chain rule l h =
      let question : Emits Plain (asked table chain rule) = search emits_rules in
      OnlyOnce-Plain before l _ (question.at l) h

  -- An answer is the right one.
  asked-eq-ok :
      (table chain : String) (rule : List String) (l : Log) {exists : Bool} {l' : Log}
      → asked table chain rule l ≡ (ok exists, l')
      → ltb 0 (times before table chain rule l') ≡ exists
  unfolding asked ask wrapping
  asked-eq-ok table chain rule l {exists} {l'} h = elim (tables.knows l table chain rule) [
    | inl q ↦
        let l1 = done (net (ipt_exists table chain rule)) ∷ l in
        let p : (ok (ltb 0 (times before table chain rule l)), l1) ≡ (ok exists, l') = rw q at h in
        let same : l' ≡ l1 = cc in
        let answered : ltb 0 (times before table chain rule l) ≡ exists = cc in
        let unchanged : times before table chain rule l1 ≡ times before table chain rule l =
          omega arith in
        rw (same, unchanged) answered
    | inr (e, q) ↦ let p : (err _, _) ≡ (ok exists, l') = rw q at h in absurd cc
  ]

  insert_unless-OnlyOnce :
      (table chain : String) (rule : List String) (l : Log) (exists : Bool)
      → ltb 0 (times before table chain rule l) ≡ exists
      → OnlyOnce before l
      → OnlyOnce before (insert_unless K table chain rule exists l).1
  unfolding insert_unless pure wrapping perform
  insert_unless-OnlyOnce table chain rule l true known h = h
  insert_unless-OnlyOnce table chain rule l false known h =
      inserted_once before table chain rule _ l (ground arith) h

  ensure-OnlyOnce :
      (table chain : String) (rule : List String)
      → Preserves (OnlyOnce before) (ensure_ipt_rule K table chain rule)
  unfolding ensure_ipt_rule asked
  ensure-OnlyOnce table chain rule = record {
    at = λ l h.
        let once = asked-OnlyOnce table chain rule l h in
        bind_log (OnlyOnce before) (asked table chain rule) (insert_unless K table chain rule) l
          (λ _ _. once)
          (λ exists p.
            insert_unless-OnlyOnce table chain rule _ exists
              (asked-eq-ok table chain rule l (λ i. (p i, (asked table chain rule l).1))) once);
  }

  insert_unless_there :
      (table chain : String) (rule : List String) (l : Log) (exists : Bool) {l' : Log}
      → ltb 0 (times before table chain rule l) ≡ exists
      → insert_unless K table chain rule exists l ≡ (ok tt, l')
      → 0 < times before table chain rule l'
  unfolding insert_unless
  insert_unless_there table chain rule l true known h =
      let same : l ≡ _ = (pure-eq-ok tt l h).1 in rw (← same) (ground arith)
  insert_unless_there table chain rule l false {l'} known h =
      let first : (table == table) ≡ true = (eq_iff table table).1 refl in
      let second : (chain == chain) ≡ true = (eq_iff chain chain).1 refl in
      rw (perform-eq-ok K _ l (wrapping-eq-ok _ _ _ l h))
        (rw (first, second, same_rule_self rule) (omega arith))

  -- If it succeeds, the rule is there.
  ensure_there :
      (table chain : String) (rule : List String) (l : Log) {l' : Log}
      → ensure_ipt_rule K table chain rule l ≡ (ok tt, l')
      → 0 < times before table chain rule l'
  unfolding ensure_ipt_rule asked
  ensure_there table chain rule l h =
      let (exists, l1, p, q) = >>=-eq-ok (asked table chain rule) _ l h in
      insert_unless_there table chain rule l1 exists (asked-eq-ok table chain rule l p) q

  -- Where iptables, if it answers, answers by the rules that were there before and those that were
  -- inserted since: if no rule is in its chain twice, none is after `AddForwardingRules`, however
  -- it ends.
  pub add_forwarding-OnlyOnce :
      (iface subnet_cidr : String)
      → Preserves (OnlyOnce before) (add_forwarding_rules K iface subnet_cidr)
  unfolding add_forwarding_rules
  add_forwarding-OnlyOnce iface subnet_cidr =
      let new =
        Preserves-Emits (perform K (net ipt_new)) (Emits-perform {P = Plain} K (net ipt_new) tt)
          (OnlyOnce-Plain before) in
      let found =
        Preserves-Emits (default_interface K) (default_interface-Plain K) (OnlyOnce-Plain before) in
      search (preserves_rules, ensure-OnlyOnce) depth 12

  -- The same of `AddMasqueradeRule`.
  add_masquerade-OnlyOnce :
      (iface subnet_cidr : String)
      → Preserves (OnlyOnce before) (add_masquerade_rule K iface subnet_cidr)
  unfolding add_masquerade_rule
  add_masquerade-OnlyOnce iface subnet_cidr =
      let new =
        Preserves-Emits (perform K (net ipt_new)) (Emits-perform {P = Plain} K (net ipt_new) tt)
          (OnlyOnce-Plain before) in
      search (preserves_rules, ensure-OnlyOnce) depth 12
