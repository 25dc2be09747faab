-- ===== src/Net/Interfaces/Waited.antt =====
-- How many rounds the loop of `waitLinkByName` makes.
use microbox.Base.{
  ℕ, zero, suc, ◌+◌, ◌*◌, ◌<◌, ◌≤◌, String, [], ◌∷◌, ltb, ◌≡◌, refl, sym, arith, inl, inr,
  Bool-cases,
}
use microbox.Os.{
  Link, net, now, sleep, link_by_name, Log, Kernel, Io, pure, ◌>>=◌, ask, query, tell,
}
use microbox.Os.Keeps.{Later, Grows-Later, Emits-ask}
use microbox.Os.Success.{done, branching_same}
use microbox.Net.Interfaces.{wait_round, wait_until, wait_link_by_name, milliseconds, wait_rounds}

-- The clock does not go back, and a sleep takes at least as long as it is asked to.
pub record Clock (K : Kernel) : Type 0 where
  pub forward : (l l' : Log) → Later l l' → K.now l ≤ K.now l'
  pub slept : (l : Log) (d : ℕ) → K.now l + d ≤ K.now (done (sleep d) ∷ l)

module _ (K : Kernel) (clock : Clock K) (name : String) (deadline : ℕ) where
  -- A round depends on the rounds to come only if the deadline has not passed, and then these begin at
  -- least 50 milliseconds later.
  round_same :
      (l : Log) (f g : Io Link)
      → ((k : Log) → K.now l + milliseconds 50 ≤ K.now k → K.now l ≤ deadline → f k ≡ g k)
      → wait_round K name deadline f l ≡ wait_round K name deadline g l
  unfolding wait_round
  round_same l f g h =
      let asked : Io Link = ask (net (link_by_name name)) (λ k. K.link_by_name k name) in
      let l1 = (asked l).1 in
      let before : K.now l ≤ K.now l1 = clock.forward l l1 (
        Grows-Later (
          (Emits-ask {P = λ _. Unit} (net (link_by_name name)) (λ k. K.link_by_name k name) tt).at
            l)) in
      branching_same asked pure _ _ l (λ _. elim (Bool-cases (ltb deadline (K.now l1))) [
        | inl passed ↦ unfold ◌>>=◌ query in (rw passed refl)
        | inr left ↦
            let k1 = done now ∷ l1 in
            let k2 = done (sleep (milliseconds 50)) ∷ k1 in
            let asleep : K.now k1 + milliseconds 50 ≤ K.now k2 = clock.slept k1 (milliseconds 50) in
            let on : K.now l1 ≤ K.now k1 = clock.forward l1 k1 (done now ∷ [], refl) in
            let due : K.now l ≤ deadline = ground (arith, before, left) in
            unfold ◌>>=◌ query tell in (rw left (h k2 (omega (arith, before, asleep, on)) due))
      ])

  more_rounds :
      (enough more : ℕ) (l : Log)
      → enough ≤ more
      → deadline < K.now l + milliseconds 50 * enough
      → wait_until K (suc enough) name deadline l ≡ wait_until K (suc more) name deadline l
  unfolding wait_until
  more_rounds zero more l k h = round_same l _ _ (λ _ _ left. absurd (omega arith))
  more_rounds (suc enough) zero l k h = absurd (omega arith)
  more_rounds (suc enough) (suc more) l k h =
      round_same l _ _ (λ l' later left. more_rounds enough more l' (omega arith) (omega arith))

module _ (K : Kernel) (clock : Clock K) (name : String) where
  -- With a clock that goes on, a wait of 5000 milliseconds does the same with any number of rounds from
  -- 102 on: it has ended before they are used up.
  pub wait_ends :
      (rounds : ℕ) (l : Log)
      → wait_rounds ≤ rounds
      → wait_link_by_name K rounds name (milliseconds 5000) l
        ≡ wait_link_by_name K wait_rounds name (milliseconds 5000) l
  unfolding wait_link_by_name ◌>>=◌ query
  wait_ends zero l h = absurd (omega arith)
  wait_ends (suc rounds) l h =
      let k = done now ∷ l in
      let on : K.now l ≤ K.now k = clock.forward l k (done now ∷ [], refl) in
      sym (
        more_rounds K clock name (K.now l + milliseconds 5000) 101 rounds k (omega arith)
          (omega arith))
