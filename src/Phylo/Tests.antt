-- ===== src/Phylo/Tests.antt =====
-- A table of three: the first philosopher eats while the second waits for its first fork.
use bizcocho_os.Prelude.{ℕ, ◌+◌, ltb, ◌<◌, ◌≡◌, ◌≢◌, refl, none, some, arith}
use bizcocho_os.Phylo.{
  Table, start_table, right_of, first_fork, second_fork, sit_down, move, step, Reach, laid, later,
}
use bizcocho_os.Phylo.Forks.{AreIds}
use bizcocho_os.Phylo.Safety.{table-KeepsApart}
use bizcocho_os.Phylo.Progress.{table-NeverStuck}

-- The forks are the semaphores 7, 8 and 9.
abbrev ids : ℕ → ℕ
ids seat = seat + 7

ids-AreIds : AreIds ids 3
ids-AreIds = record { small = λ f h. omega (arith, h); distinct = λ f g h k e. omega (arith, e) }

abbrev laid_table : Table
laid_table = start_table (λ _. 1) (λ i. ltb i 10)

abbrev run : ℕ → Table → Table
run seat t = elim (step ids 3 seat t) [ none ↦ t | some u ↦ u ]

abbrev first_waits : Table
first_waits = run 0 laid_table

abbrev second_waits : Table
second_waits = run 1 first_waits

abbrev first_has_left : Table
first_has_left = run 0 second_waits

abbrev first_eats : Table
first_eats = run 0 first_has_left

abbrev third_waits : Table
third_waits = run 2 first_eats

Reach-first_eats : Reach ids 3 third_waits
unfolding step move first_fork second_fork sit_down right_of
Reach-first_eats =
    later
      (later
        (later
          (later
            (later (laid (λ _. 1) (λ i. ltb i 10) (λ f h. ground (arith, h)) (λ f h. refl)) 0
              (omega arith) refl)
            1 (omega arith) refl)
          0 (omega arith) refl)
        0 (omega arith) refl)
      2 (omega arith) refl

table-KeepsApart_example : third_waits.table (right_of 3 0) ≢ b'E'
unfolding step move first_fork second_fork sit_down right_of
table-KeepsApart_example =
    table-KeepsApart ids 3 third_waits (omega arith) ids-AreIds Reach-first_eats 0 (omega arith)
      refl

table-NeverStuck_example :
    (seat : ℕ) × (seat < 3) × ((u : Table) × (step ids 3 seat third_waits ≡ some u))
table-NeverStuck_example =
    table-NeverStuck ids 3 third_waits (omega arith) ids-AreIds Reach-first_eats
