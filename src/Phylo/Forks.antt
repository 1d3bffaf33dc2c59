-- ===== src/Phylo/Forks.antt =====
-- The account of the forks, which every step keeps.
use bizcocho_os.Prelude.{
  ℕ, ◌+◌, ◌-◌, ◌≤◌, ◌<◌, ◌≡◌, ◌%◌, ◌^◌, refl, true, false, ◌==◌, if◌then◌else◌, update, Bool-cases,
  inl, inr, arith,
}
use native.Mathlib.Nat.{mod_self, mod-eq_of_lt}
use bizcocho_os.Phylo.{
  Pc, hungry, waits_first, waits_second, eating, half, Table, is_even, right_of, first_fork,
  second_fork,
}

-- Whether a philosopher there holds the fork that it took first, and the other one.
abbrev pub has_first : Pc → ℕ
has_first hungry = 0
has_first waits_first = 0
has_first waits_second = 1
has_first eating = 1
has_first half = 0

abbrev pub has_second : Pc → ℕ
has_second hungry = 0
has_second waits_first = 0
has_second waits_second = 0
has_second eating = 1
has_second half = 1

-- The same for the forks at its left and right.
unfoldable pub has_left : ℕ → Pc → ℕ
has_left seat p = if is_even seat then has_first p else has_second p

unfoldable pub has_right : ℕ → Pc → ℕ
has_right seat p = if is_even seat then has_second p else has_first p

-- The seat whose right fork it is.
abbrev pub before : ℕ → ℕ → ℕ
before n f = if f == 0 then n - 1 else f - 1

-- The seat whose left fork is the first one, and the other one's.
unfoldable pub first_place : ℕ → ℕ → ℕ
first_place n seat = if is_even seat then seat else right_of n seat

unfoldable pub second_place : ℕ → ℕ → ℕ
second_place n seat = if is_even seat then right_of n seat else seat

-- A fork is on the table or in one hand.
abbrev pub IsShared : ℕ → (ℕ → ℕ) → (ℕ → Pc) → Type 0
IsShared n forks pc =
    (f : ℕ) → f < n → forks f + has_left f (pc f) + has_right (before n f) (pc (before n f)) ≡ 1

abbrev pub plate : Pc → ℕ
plate eating = b'E'
plate _ = b'-'

-- The ids of the forks' semaphores are distinct and have 8 bits.
pub record AreIds (ids : ℕ → ℕ) (n : ℕ) : Type 0 where
  pub small : (f : ℕ) → f < n → ids f < 2 ^ 8
  pub distinct : (f g : ℕ) → f < n → g < n → ids f ≡ ids g → f ≡ g

pub record Inv (ids : ℕ → ℕ) (n : ℕ) (t : Table) : Type 0 where
  pub shared : IsShared n (λ f. t.forks (ids f)) t.pc
  pub semaphores : (f : ℕ) → f < n → t.there (ids f) ≡ true
  pub plates : (seat : ℕ) → t.table seat ≡ plate (t.pc seat)
  pub nobody_skips : t.must_skip ≡ false

pub right_of-next :
    (n seat : ℕ) → seat < n → right_of n seat ≡ (if seat + 1 == n then 0 else seat + 1)
unfolding right_of
right_of-next n seat h = elim (Bool-cases (seat + 1 == n)) [
  | inl last ↦ let e : seat + 1 ≡ n = ground arith in rw last (rw e (mod_self n))
  | inr inside ↦ rw inside (mod-eq_of_lt (ground arith))
]

-- The forks by seat, of which one has another value.
pub IsShared-update :
    (ids : ℕ → ℕ) (n a v : ℕ) (forks : ℕ → ℕ) (pc : ℕ → Pc)
    → AreIds ids n
    → a < n
    → IsShared n (update (λ (f : ℕ). forks (ids f)) a v) pc
    → IsShared n (λ f. update forks (ids a) v (ids f)) pc
IsShared-update ids n a v forks pc are inside shared f lt = elim (Bool-cases (f == a)) [
  | inl here ↦
      let same : f ≡ a = ground arith in
      let self : (ids a == ids a) ≡ true = ground arith in
      let self' : (a == a) ≡ true = ground arith in
      rw (same, self) (rw (same, self') at (shared f lt))
  | inr other ↦
      let apart : (ids f == ids a) ≡ false = ground (arith, are.distinct f a lt inside) in
      rw apart (rw other at (shared f lt))
]

pub right_of-inside : (n seat : ℕ) → seat < n → right_of n seat < n
right_of-inside n seat lt = ground (arith, right_of-next n seat lt)

-- Ids of 8 bits are those that are waited for.
module _ (ids : ℕ → ℕ) (n : ℕ) (are : AreIds ids n) (seat : ℕ) (lt : seat < n) where
  not_cut : (f : ℕ) → f < n → ids f % 2 ^ 8 ≡ ids f
  not_cut f inside = omega (arith, are.small f inside)

  pub first_fork-first_place :
      (first_place n seat < n) × (first_fork ids n seat ≡ ids (first_place n seat))
  unfolding first_fork first_place
  first_fork-first_place = elim (Bool-cases (is_even seat)) [
    | inl even ↦ rw even (lt, not_cut seat lt)
    | inr odd ↦ rw odd (right_of-inside n seat lt, not_cut _ (right_of-inside n seat lt))
  ]

  pub second_fork-second_place :
      (second_place n seat < n) × (second_fork ids n seat ≡ ids (second_place n seat))
  unfolding second_fork second_place
  second_fork-second_place = elim (Bool-cases (is_even seat)) [
    | inl even ↦ rw even (right_of-inside n seat lt, not_cut _ (right_of-inside n seat lt))
    | inr odd ↦ rw odd (lt, not_cut seat lt)
  ]

-- A change of one philosopher and of its two forks.
IsShared-step :
    (n seat : ℕ) (p : Pc) (forks forks' : ℕ → ℕ) (pc : ℕ → Pc)
    → 2 ≤ n
    → seat < n
    → forks' seat + has_left seat p ≡ forks seat + has_left seat (pc seat)
    → forks' (right_of n seat) + has_right seat p
      ≡ forks (right_of n seat) + has_right seat (pc seat)
    → ((f : ℕ) → (f == seat) ≡ false → (f == right_of n seat) ≡ false → forks' f ≡ forks f)
    → IsShared n forks pc
    → IsShared n forks' (update pc seat p)
IsShared-step n seat p forks forks' pc two lt left right others b f small =
    elim (Bool-cases (f == seat)) [
      | inl here ↦
          let same : f ≡ seat = ground arith in
          let self : (seat == seat) ≡ true = ground arith in
          let not_before : (before n seat == seat) ≡ false = ground arith in
          rw (same, self, not_before) (omega (arith, left, b seat lt))
      | inr other ↦ elim (Bool-cases (f == right_of n seat)) [
        | inl next ↦
            let r = right_of n seat in
            let same : f ≡ r = ground arith in
            let not_seat : (r == seat) ≡ false = ground (arith, same, other) in
            let back : before n r ≡ seat = ground (arith, right_of-next n seat lt) in
            let self : (seat == seat) ≡ true = ground arith in
            let inside : r < n = ground (arith, right_of-next n seat lt) in
            let account : forks r + has_left r (pc r) + has_right seat (pc seat) ≡ 1 =
              rw back at (b r inside) in
            rw (same, not_seat, back, self) (omega (arith, right, account))
        | inr far ↦
            let not_before : (before n f == seat) ≡ false =
              ground (arith, right_of-next n seat lt) in
            rw (other, not_before) (omega (arith, others f other far, b f small))
      ]
    ]

module _ (n : ℕ) (two : 2 ≤ n) (seat : ℕ) (lt : seat < n) where
  pub distinct_forks : (right_of n seat == seat) ≡ false
  distinct_forks = ground (arith, right_of-next n seat lt)

  -- The fork at the left has another value, or the one at the right.
  IsShared-left :
      (forks : ℕ → ℕ) (pc : ℕ → Pc) (p : Pc) (v : ℕ)
      → v + has_left seat p ≡ forks seat + has_left seat (pc seat)
      → has_right seat p ≡ has_right seat (pc seat)
      → IsShared n forks pc
      → IsShared n (update forks seat v) (update pc seat p)
  IsShared-left forks pc p v left right b =
      let self : (seat == seat) ≡ true = ground arith in
      IsShared-step n seat p forks (update forks seat v) pc two lt (rw self left)
        (rw distinct_forks (omega (arith, right))) (λ f ne far. rw ne) b

  IsShared-right :
      (forks : ℕ → ℕ) (pc : ℕ → Pc) (p : Pc) (v : ℕ)
      → has_left seat p ≡ has_left seat (pc seat)
      → v + has_right seat p ≡ forks (right_of n seat) + has_right seat (pc seat)
      → IsShared n forks pc
      → IsShared n (update forks (right_of n seat) v) (update pc seat p)
  IsShared-right forks pc p v left right b =
      let r = right_of n seat in
      let self : (r == r) ≡ true = ground arith in
      let other : (seat == r) ≡ false = ground (arith, distinct_forks) in
      IsShared-step n seat p forks (update forks r v) pc two lt (rw other (omega (arith, left)))
        (rw self right) (λ f ne far. rw far) b

  -- The forks behind a change of the first or the second one by the philosopher's step.
  pub IsShared-first :
      (forks : ℕ → ℕ) (pc : ℕ → Pc) (p : Pc) (v : ℕ)
      → v + has_first p ≡ forks (first_place n seat) + has_first (pc seat)
      → has_second p ≡ has_second (pc seat)
      → IsShared n forks pc
      → IsShared n (update forks (first_place n seat) v) (update pc seat p)
  unfolding first_place has_left has_right
  IsShared-first forks pc p v one other b = elim (Bool-cases (is_even seat)) [
    | inl even ↦
        let e : v + has_first p ≡ forks seat + has_first (pc seat) = rw even at one in
        rw even (IsShared-left forks pc p v (rw even e) (rw even other) b)
    | inr odd ↦
        let e : v + has_first p ≡ forks (right_of n seat) + has_first (pc seat) = rw odd at one in
        rw odd (IsShared-right forks pc p v (rw odd other) (rw odd e) b)
  ]

  pub IsShared-second :
      (forks : ℕ → ℕ) (pc : ℕ → Pc) (p : Pc) (v : ℕ)
      → v + has_second p ≡ forks (second_place n seat) + has_second (pc seat)
      → has_first p ≡ has_first (pc seat)
      → IsShared n forks pc
      → IsShared n (update forks (second_place n seat) v) (update pc seat p)
  unfolding second_place has_left has_right
  IsShared-second forks pc p v one other b = elim (Bool-cases (is_even seat)) [
    | inl even ↦
        let e : v + has_second p ≡ forks (right_of n seat) + has_second (pc seat) =
          rw even at one in
        rw even (IsShared-right forks pc p v (rw even other) (rw even e) b)
    | inr odd ↦
        let e : v + has_second p ≡ forks seat + has_second (pc seat) = rw odd at one in
        rw odd (IsShared-left forks pc p v (rw odd e) (rw odd other) b)
  ]

  -- A step that touches no fork.
  pub IsShared-none :
      (forks : ℕ → ℕ) (pc : ℕ → Pc) (p : Pc)
      → has_first p ≡ has_first (pc seat)
      → has_second p ≡ has_second (pc seat)
      → IsShared n forks pc
      → IsShared n forks (update pc seat p)
  unfolding has_left has_right
  IsShared-none forks pc p one other b = elim (Bool-cases (is_even seat)) [
    | inl even ↦
        IsShared-step n seat p forks forks pc two lt (rw even (omega (arith, one)))
          (rw even (omega (arith, other))) (λ f ne far. refl) b
    | inr odd ↦
        IsShared-step n seat p forks forks pc two lt (rw odd (omega (arith, other)))
          (rw odd (omega (arith, one))) (λ f ne far. refl) b
  ]

  -- The account of the fork at the right, which the next seat has at its left.
  pub right_account :
      (forks : ℕ → ℕ) (pc : ℕ → Pc)
      → IsShared n forks pc
      → forks (right_of n seat)
          + has_left (right_of n seat) (pc (right_of n seat))
          + has_right seat (pc seat)
        ≡ 1
  right_account forks pc b =
      let r = right_of n seat in
      let back : before n r ≡ seat = ground (arith, right_of-next n seat lt) in
      rw back at (b r (ground (arith, right_of-next n seat lt)))

  -- A fork in a hand is not on the table.
  pub first_place-taken :
      (forks : ℕ → ℕ) (pc : ℕ → Pc)
      → IsShared n forks pc
      → forks (first_place n seat) + has_first (pc seat) ≤ 1
  unfolding first_place has_left has_right
  first_place-taken forks pc b = elim (Bool-cases (is_even seat)) [
    | inl even ↦ rw even (omega (arith, rw even at (b seat lt)))
    | inr odd ↦ rw odd (omega (arith, rw odd at (right_account forks pc b)))
  ]

  pub second_place-taken :
      (forks : ℕ → ℕ) (pc : ℕ → Pc)
      → IsShared n forks pc
      → forks (second_place n seat) + has_second (pc seat) ≤ 1
  unfolding second_place has_left has_right
  second_place-taken forks pc b = elim (Bool-cases (is_even seat)) [
    | inl even ↦ rw even (omega (arith, rw even at (right_account forks pc b)))
    | inr odd ↦ rw odd (omega (arith, rw odd at (b seat lt)))
  ]
