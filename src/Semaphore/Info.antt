-- ===== src/Semaphore/Info.antt =====
-- `initSemaphoreHub`, `getSemCount` and `getSemaphoreInfo` of Kernel/c/ipc/semaphore.c, the last where there is memory for
-- its answer.
use bizcocho_os.Prelude.{ℕ, Bool, true, Option, none, some, List, [], ◌∷◌, ◌++◌, if◌then◌else◌}
use bizcocho_os.Semaphore.{Semaphore, Hub}

-- `initSemaphoreHub`, with `initialized` and where there is memory for the list.
unfoldable pub init_semaphore_hub : Bool → Hub → Bool × Hub
init_semaphore_hub initialized h =
    if initialized then (true, h) else (true, record h { global_id = 1; semaphores = [] })

-- `getSemCount`
unfoldable pub get_sem_count : Hub → ℕ
get_sem_count h = h.sem_count

-- `semInfo`
pub record SemInfo : Type 0 where
  pub name : List ℕ
  pub id : ℕ
  pub value : ℕ
  pub blocked : List ℕ

-- The inner loop: the pids, in the order of the list, and 0 behind them.
unfoldable pub sem_info : Semaphore → SemInfo
sem_info c = record { name = c.name; id = c.id; value = c.value; blocked = c.waiting ++ (0 ∷ []) }

-- The outer loop; `none` is a lock on which it spins.
unfoldable pub sem_infos : List Semaphore → Option (List SemInfo)
unfolding sem_info
sem_infos [] = some []
sem_infos (c ∷ cs) =
    let rest = sem_infos cs in
    if c.locked then none else elim rest [ none ↦ none | some is ↦ some (sem_info c ∷ is) ]

-- `getSemaphoreInfo`, which changes nothing but the locks that it gives back.
unfoldable pub get_semaphore_info : Hub → Option (List SemInfo)
unfolding sem_infos
get_semaphore_info h = sem_infos h.semaphores
