-- ===== src/Phylo/Progress.antt =====
-- Whatever the order of the steps, some philosopher has one to make: the table never locks up.
use bizcocho_os.Prelude.{
  ℕ, ◌+◌, ◌≤◌, ◌<◌, ◌≡◌, refl, Bool, true, false, ◌&&◌, some, ◌==◌, Bool-cases, ◌⊎◌, inl, inr,
  arith,
}
use bizcocho_os.Phylo.{
  Pc, hungry, waits_first, waits_second, eating, half, Table, right_of, first_fork, second_fork,
  go_to, take_fork, between, behind_second, sit_down, move, step, Reach,
}
use bizcocho_os.Phylo.Forks.{
  has_first, has_second, has_left, has_right, first_place, second_place, AreIds,
  first_fork-first_place, second_fork-second_place, IsShared, right_of-next, right_account,
}
use bizcocho_os.Phylo.Safety.{Reach-Inv}

-- A seat has a step, or waits for a fork that is taken.
abbrev Moves : (ℕ → ℕ) → ℕ → Table → ℕ → Type 0
Moves ids n t seat = (u : Table) × (step ids n seat t ≡ some u)

abbrev WaitsFirst : (ℕ → ℕ) → ℕ → Table → ℕ → Type 0
WaitsFirst ids n t seat = (t.pc seat ≡ waits_first) × (t.forks (ids (first_place n seat)) ≡ 0)

abbrev WaitsSecond : (ℕ → ℕ) → ℕ → Table → ℕ → Type 0
WaitsSecond ids n t seat = (t.pc seat ≡ waits_second) × (t.forks (ids (second_place n seat)) ≡ 0)

no_fork : (b : Bool) (v : ℕ) → (b && v == 0) ≡ true → v ≡ 0
no_fork true v h = ground arith
no_fork false v h = absurd (cc)

module _ (ids : ℕ → ℕ) (n : ℕ) (are : AreIds ids n) (t : Table) (seat : ℕ) (lt : seat < n) where
  move-cases :
      (p : Pc)
      → t.pc seat ≡ p
      → ((u : Table) × (move p ids n seat t ≡ some u))
        ⊎ (WaitsFirst ids n t seat ⊎ WaitsSecond ids n t seat)
  unfolding move
  move-cases hungry e = inl (_, refl)
  move-cases waits_first e =
      let f = first_fork ids n seat in
      let is = (first_fork-first_place ids n are seat lt).1 in
      elim (Bool-cases (t.there f && t.forks f == 0)) [
        | inl taken ↦ inr (inl (e, rw is at (no_fork (t.there f) (t.forks f) taken)))
        | inr there ↦ inl (go_to seat waits_second (between n seat (take_fork f t)), rw there refl)
      ]
  move-cases waits_second e =
      let f = second_fork ids n seat in
      let is = (second_fork-second_place ids n are seat lt).1 in
      elim (Bool-cases (t.there f && t.forks f == 0)) [
        | inl taken ↦ inr (inr (e, rw is at (no_fork (t.there f) (t.forks f) taken)))
        | inr there ↦ inl (sit_down n seat (behind_second n seat (take_fork f t)), rw there refl)
      ]
  move-cases eating e = inl (_, refl)
  move-cases half e = inl (_, refl)

  step-cases : Moves ids n t seat ⊎ (WaitsFirst ids n t seat ⊎ WaitsSecond ids n t seat)
  unfolding step
  step-cases = move-cases (t.pc seat) refl

module _ (ids : ℕ → ℕ) (n : ℕ) (three : 3 ≤ n) (are : AreIds ids n) (t : Table)
    (shared : IsShared n (λ f. t.forks (ids f)) t.pc) where
  abbrev Goes : Type 0
  Goes = (seat : ℕ) × (seat < n) × Moves ids n t seat

  -- A seat that holds its second fork has a step.
  second-Goes : (seat : ℕ) → seat < n → has_second (t.pc seat) ≡ 1 → Goes
  second-Goes seat lt has = elim (step-cases ids n are t seat lt) [
    | inl goes ↦ (seat, lt, goes)
    | inr (inl (here, _)) ↦ absurd (omega (arith, rw here at has))
    | inr (inr (here, _)) ↦ absurd (omega (arith, rw here at has))
  ]

  next_seat : (seat : ℕ) → seat + 1 < n → right_of n seat ≡ seat + 1
  next_seat seat lt = ground (arith, right_of-next n seat (omega (arith, lt)))

  account_at :
      (seat r : ℕ)
      → seat < n
      → right_of n seat ≡ r
      → t.forks (ids r) + has_left r (t.pc r) + has_right seat (t.pc seat) ≡ 1
  account_at seat r lt e =
      rw e at (right_account n (omega (arith, three)) seat lt (λ f. t.forks (ids f)) t.pc shared)

  -- The first seat, when its neighbour holds no fork.
  first_seat-Goes : has_first (t.pc 0) ≡ 1 → t.pc 1 ≡ waits_first → Goes
  unfolding has_left has_right second_place
  first_seat-Goes has next = elim (step-cases ids n are t 0 (omega (arith, three))) [
    | inl goes ↦ (0, omega (arith, three), goes)
    | inr (inl (here, _)) ↦ absurd (omega (arith, rw here at has))
    | inr (inr (here, taken)) ↦
        let e : right_of n 0 ≡ 1 = next_seat 0 (omega (arith, three)) in
        let free : t.forks (ids 1) ≡ 0 = rw e at taken in
        let account = rw (here, next) at (account_at 0 1 (omega (arith, three)) e) in
        absurd (omega (arith, account, free))
  ]

  third_seat-Goes : t.pc 1 ≡ waits_first → has_first (t.pc 2) ≡ 1 → Goes
  unfolding has_left has_right second_place
  third_seat-Goes next has = elim (step-cases ids n are t 2 (omega (arith, three))) [
    | inl goes ↦ (2, omega (arith, three), goes)
    | inr (inl (here, _)) ↦ absurd (omega (arith, rw here at has))
    | inr (inr (here, taken)) ↦ elim (Bool-cases (n == 3)) [
      | inl small ↦
          let e : right_of n 2 ≡ 0 = ground (arith, right_of-next n 2 (omega (arith, three))) in
          let free : t.forks (ids 0) ≡ 0 = rw e at taken in
          let account = rw here at (account_at 2 0 (omega (arith, three)) e) in
          first_seat-Goes (omega (arith, account, free)) next
      | inr large ↦
          let four : 3 < n = ground arith in
          let e : right_of n 2 ≡ 3 = next_seat 2 four in
          let free : t.forks (ids 3) ≡ 0 = rw e at taken in
          let account = rw here at (account_at 2 3 (omega (arith, three)) e) in
          second-Goes 3 four (omega (arith, account, free))
    ]
  ]

  somebody-Goes : Goes
  unfolding has_left has_right first_place second_place
  somebody-Goes = elim (step-cases ids n are t 1 (omega (arith, three))) [
    | inl goes ↦ (1, omega (arith, three), goes)
    | inr (inl (here, taken)) ↦
        let e : right_of n 1 ≡ 2 = next_seat 1 (omega (arith, three)) in
        let free : t.forks (ids 2) ≡ 0 = rw e at taken in
        let account = rw here at (account_at 1 2 (omega (arith, three)) e) in
        third_seat-Goes here (omega (arith, account, free))
    | inr (inr (here, taken)) ↦
        let e : right_of n 0 ≡ 1 = next_seat 0 (omega (arith, three)) in
        let account = rw here at (account_at 0 1 (omega (arith, three)) e) in
        second-Goes 0 (omega (arith, three)) (omega (arith, account, taken))
  ]

-- At a table of three or more seats that nobody joins or leaves, whose forks have distinct ids below
-- 2^8, whatever the order of the steps so far: some seat has a step to make.
pub table-NeverStuck :
    (ids : ℕ → ℕ) (n : ℕ) (t : Table)
    → 3 ≤ n
    → AreIds ids n
    → Reach ids n t
    → (seat : ℕ) × (seat < n) × ((u : Table) × (step ids n seat t ≡ some u))
table-NeverStuck ids n t three are r =
    somebody-Goes ids n three are t (Reach-Inv ids n (omega (arith, three)) are t r).shared
