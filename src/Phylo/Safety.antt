-- ===== src/Phylo/Safety.antt =====
-- Every step keeps the account of the forks, so two neighbours never eat together.
use bizcocho_os.Prelude.{
  ℕ, ◌+◌, ◌-◌, ◌%◌, ◌^◌, ◌≤◌, ◌<◌, ◌≡◌, ◌≢◌, refl, sym, ◌∙◌, Bool, true, false, ◌&&◌, some, ◌==◌,
  update, Bool-cases, inl, inr, arith,
}
use mathlib.Core.Path.{subst}
use mathlib.Core.Option.{some-injective, none-ne-some}
use bizcocho_os.Phylo.{
  Pc, hungry, waits_first, waits_second, eating, half, Table, start_table, is_even, right_of,
  first_fork, second_fork, go_to, take_fork, put_fork, before_first, between, behind_second, lay,
  sit_down, move, step, Reach, laid, later,
}
use bizcocho_os.Phylo.Forks.{
  has_left, has_right, first_place, second_place, plate, Inv, AreIds, IsShared-update,
  first_fork-first_place, second_fork-second_place, right_account, IsShared-first, IsShared-second,
  IsShared-none, first_place-taken, second_place-taken,
}

plates-keep :
    (seat : ℕ) (p : Pc) (table : ℕ → ℕ) (pc : ℕ → Pc)
    → plate p ≡ plate (pc seat)
    → ((s : ℕ) → table s ≡ plate (pc s))
    → (s : ℕ) → table s ≡ plate (update pc seat p s)
plates-keep seat p table pc e h s = elim (Bool-cases (s == seat)) [
  | inl here ↦ let same : s ≡ seat = ground arith in rw here (rw same (h seat ∙ sym e))
  | inr other ↦ rw other (h s)
]

plates-lay :
    (seat : ℕ) (p : Pc) (c : ℕ) (table : ℕ → ℕ) (pc : ℕ → Pc)
    → c ≡ plate p
    → ((s : ℕ) → table s ≡ plate (pc s))
    → (s : ℕ) → update table seat c s ≡ plate (update pc seat p s)
plates-lay seat p c table pc e h s = elim (Bool-cases (s == seat)) [
  | inl here ↦ rw here e
  | inr other ↦ rw other (h s)
]

-- A fork that is posted again: the value does not wrap.
one_more : (v h : ℕ) → h ≡ 1 → v + h ≤ 1 → (v + 1) % 2 ^ 64 ≡ v + h
one_more v h e b = omega (arith, e, b)

module _ (ids : ℕ → ℕ) (n : ℕ) (two : 2 ≤ n) (are : AreIds ids n) (seat : ℕ) (lt : seat < n) where
  hungry-Inv :
      (t : Table)
      → t.pc seat ≡ hungry
      → Inv ids n t
      → Inv ids n (go_to seat waits_first (before_first n seat t))
  hungry-Inv t here inv = record {
    shared =
        IsShared-none n two seat lt (λ f. t.forks (ids f)) t.pc waits_first (rw here refl)
          (rw here refl) inv.shared;
    plates = plates-keep seat waits_first t.table t.pc (rw here refl) inv.plates;
    semaphores = inv.semaphores;
    nobody_skips = inv.nobody_skips;
  }

  taken-Inv :
      (t : Table)
      → t.pc seat ≡ waits_first
      → (t.there (first_fork ids n seat) && t.forks (first_fork ids n seat) == 0) ≡ false
      → Inv ids n t
      → Inv ids n (go_to seat waits_second (between n seat (take_fork (first_fork ids n seat) t)))
  taken-Inv t here there inv =
      let place = first_place n seat in
      let is = first_fork-first_place ids n are seat lt in
      let up = inv.semaphores place is.0 in
      let some_left : (t.forks (ids place) == 0) ≡ false = rw (is.1, up) at there in
      record {
        shared =
            rw (is.1, up)
              (IsShared-update ids n place (t.forks (ids place) - 1) t.forks _ are is.0 (
                IsShared-first n two seat lt (λ f. t.forks (ids f)) t.pc waits_second
                  (t.forks (ids place) - 1) (rw here (ground arith)) (rw here refl) inv.shared));
        plates = plates-keep seat waits_second t.table t.pc (rw here refl) inv.plates;
        semaphores = inv.semaphores;
        nobody_skips = inv.nobody_skips;
      }

  eating-Inv :
      (t : Table)
      → t.pc seat ≡ waits_second
      → (t.there (second_fork ids n seat) && t.forks (second_fork ids n seat) == 0) ≡ false
      → Inv ids n t
      → Inv ids n (sit_down n seat (behind_second n seat (take_fork (second_fork ids n seat) t)))
  unfolding sit_down
  eating-Inv t here there inv =
      let place = second_place n seat in
      let is = second_fork-second_place ids n are seat lt in
      let up = inv.semaphores place is.0 in
      let some_left : (t.forks (ids place) == 0) ≡ false = rw (is.1, up) at there in
      rw inv.nobody_skips (record {
        shared =
            rw (is.1, up)
              (IsShared-update ids n place (t.forks (ids place) - 1) t.forks _ are is.0 (
                IsShared-second n two seat lt (λ f. t.forks (ids f)) t.pc eating
                  (t.forks (ids place) - 1) (rw here (ground arith)) (rw here refl) inv.shared));
        plates = plates-lay seat eating b'E' t.table t.pc refl inv.plates;
        semaphores = inv.semaphores;
        nobody_skips = refl;
      })

  half-Inv :
      (t : Table) (last : Bool)
      → t.pc seat ≡ eating
      → Inv ids n t
      → Inv ids n (
          go_to seat half (record (put_fork (first_fork ids n seat) (lay seat b'-' t)) {
            last_one_waiting_in_first_sem = last;
          }))
  half-Inv t last here inv =
      let place = first_place n seat in
      let is = first_fork-first_place ids n are seat lt in
      let up = inv.semaphores place is.0 in
      let most = first_place-taken n two seat lt (λ f. t.forks (ids f)) t.pc inv.shared in
      record {
        shared =
            rw (is.1, up)
              (IsShared-update ids n place ((t.forks (ids place) + 1) % 2 ^ 64) t.forks _ are is.0 (
                IsShared-first n two seat lt (λ f. t.forks (ids f)) t.pc half
                  ((t.forks (ids place) + 1) % 2 ^ 64) (rw here (omega (arith, rw here at most)))
                  (rw here refl) inv.shared));
        plates = plates-lay seat half b'-' t.table t.pc refl inv.plates;
        semaphores = inv.semaphores;
        nobody_skips = inv.nobody_skips;
      }

  hungry_again-Inv :
      (t : Table)
      → t.pc seat ≡ half
      → Inv ids n t
      → Inv ids n (go_to seat hungry (put_fork (second_fork ids n seat) t))
  hungry_again-Inv t here inv =
      let place = second_place n seat in
      let is = second_fork-second_place ids n are seat lt in
      let up = inv.semaphores place is.0 in
      let most = second_place-taken n two seat lt (λ f. t.forks (ids f)) t.pc inv.shared in
      record {
        shared =
            rw (is.1, up)
              (IsShared-update ids n place ((t.forks (ids place) + 1) % 2 ^ 64) t.forks _ are is.0 (
                IsShared-second n two seat lt (λ f. t.forks (ids f)) t.pc hungry
                  ((t.forks (ids place) + 1) % 2 ^ 64) (rw here (omega (arith, rw here at most)))
                  (rw here refl) inv.shared));
        plates = plates-keep seat hungry t.table t.pc (rw here refl) inv.plates;
        semaphores = inv.semaphores;
        nobody_skips = inv.nobody_skips;
      }

  move-Inv :
      (p : Pc) (t u : Table)
      → t.pc seat ≡ p
      → Inv ids n t
      → move p ids n seat t ≡ some u
      → Inv ids n u
  unfolding move
  move-Inv hungry t u here inv e = subst (Inv ids n) (some-injective _ _ e) (hungry-Inv t here inv)
  move-Inv waits_first t u here inv e =
      elim (Bool-cases (t.there (first_fork ids n seat) && t.forks (first_fork ids n seat) == 0)) [
        | inl taken ↦ absurd (none-ne-some _ (rw taken at e))
        | inr there ↦
            subst (Inv ids n) (some-injective _ _ (rw there at e)) (taken-Inv t here there inv)
      ]
  move-Inv waits_second t u here inv e =
      elim (Bool-cases
        (t.there (second_fork ids n seat) && t.forks (second_fork ids n seat) == 0)) [
          | inl taken ↦ absurd (none-ne-some _ (rw taken at e))
          | inr there ↦
              subst (Inv ids n) (some-injective _ _ (rw there at e)) (eating-Inv t here there inv)
        ]
  move-Inv eating t u here inv e = subst (Inv ids n) (some-injective _ _ e) (half-Inv t _ here inv)
  move-Inv half t u here inv e =
      subst (Inv ids n) (some-injective _ _ e) (hungry_again-Inv t here inv)

start-Inv :
    (ids : ℕ → ℕ) (n : ℕ) (forks : ℕ → ℕ) (there : ℕ → Bool)
    → 2 ≤ n
    → ((f : ℕ) → f < n → there (ids f) ≡ true)
    → ((f : ℕ) → f < n → forks (ids f) ≡ 1)
    → Inv ids n (start_table forks there)
unfolding has_left has_right
start-Inv ids n forks there two up one = record {
  shared = λ f inside. elim (Bool-cases (is_even f)) [
    | inl even ↦ rw (one f inside) (ground arith)
    | inr odd ↦ rw (one f inside) (ground arith)
  ];
  semaphores = up;
  plates = λ s. refl;
  nobody_skips = refl;
}

pub Reach-Inv :
    (ids : ℕ → ℕ) (n : ℕ) → 2 ≤ n → AreIds ids n → (t : Table) → Reach ids n t → Inv ids n t
unfolding step
Reach-Inv ids n two are t (laid forks there up one) = start-Inv ids n forks there two up one
Reach-Inv ids n two are u (later {t} r seat lt e) =
    move-Inv ids n two are seat lt (t.pc seat) t u refl (Reach-Inv ids n two are t r) e

plate-eats : (p : Pc) → plate p ≡ b'E' → p ≡ eating
plate-eats eating e = refl
plate-eats hungry e = absurd (omega (arith, e))
plate-eats waits_first e = absurd (omega (arith, e))
plate-eats waits_second e = absurd (omega (arith, e))
plate-eats half e = absurd (omega (arith, e))

has_left-eating : (seat : ℕ) → has_left seat eating ≡ 1
unfolding has_left
has_left-eating seat = ground arith

has_right-eating : (seat : ℕ) → has_right seat eating ≡ 1
unfolding has_right
has_right-eating seat = ground arith

-- At a table of two or more seats whose forks have distinct ids below 2^8, whatever the order of
-- the steps: where the table shows a seat that eats, it does not show the seat at its right as one
-- that eats.
pub table-KeepsApart :
    (ids : ℕ → ℕ) (n : ℕ) (t : Table)
    → 2 ≤ n
    → AreIds ids n
    → Reach ids n t
    → (seat : ℕ) → seat < n
    → t.table seat ≡ b'E'
    → t.table (right_of n seat) ≢ b'E'
table-KeepsApart ids n t two are r seat lt eats next_eats =
    let inv = Reach-Inv ids n two are t r in
    let here : t.pc seat ≡ eating = plate-eats _ (sym (inv.plates seat) ∙ eats) in
    let next : t.pc (right_of n seat) ≡ eating =
      plate-eats _ (sym (inv.plates (right_of n seat)) ∙ next_eats) in
    let account =
      rw (here, next) at (right_account n two seat lt (λ f. t.forks (ids f)) t.pc inv.shared) in
    omega (arith, account, has_left-eating (right_of n seat), has_right-eating seat)
