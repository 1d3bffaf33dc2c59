-- ===== src/Semaphore.antt =====
-- The semaphores of Kernel/c/ipc/semaphore.c: `initializeSemaphore`, `waitSem`, `postSem`, `closeSem`.
-- `semBlockList` is a list of semaphores, its first the first, and `blockedProcessList` the pids in
-- its order, the last that came the first. A lock is a Boolean; `acquire` of a taken one spins. The
-- locks `lockList` and `lockListPid` are free between two calls, since each call gives them back.
-- Names are shorter than 32 characters. The Boolean arguments say of the allocations whether they succeed.
pub mod Tokens
pub mod Order
pub mod Info
mod Tests
use bizcocho_os.Prelude.{
  ℕ, ◌+◌, ◌-◌, ◌%◌, ◌^◌, Bool, true, false, not, ◌&&◌, Option, none, some, List, [], ◌∷◌, ◌==◌,
  if◌then◌else◌,
}
use bizcocho_os.Process.{wait_sem, Reason, Schedule}
use bizcocho_os.Blocking.{block_process_with_reason, unblock_process_with_reason}

-- `semBlock`, less `next`, which nothing uses.
pub record Semaphore : Type 0 where
  pub name : List ℕ
  pub id : ℕ
  pub value : ℕ
  pub locked : Bool
  pub waiting : List ℕ
  pub amount_blocked : ℕ

-- `hub`, `semCount` and `lock`, with the schedule.
pub record Hub : Type 0 where
  pub semaphores : List Semaphore
  pub global_id : ℕ
  pub sem_count : ℕ
  pub locked : Bool
  pub schedule : Schedule

-- `find` by `cmpById`.
unfoldable pub find_sem : ℕ → List Semaphore → Option Semaphore
find_sem id [] = none
find_sem id (c ∷ cs) = let rest = find_sem id cs in if c.id == id then some c else rest

-- `strcmp`, as the test for 0.
unfoldable pub same_name : List ℕ → List ℕ → Bool
same_name [] [] = true
same_name [] (y ∷ ys) = false
same_name (x ∷ xs) [] = false
same_name (x ∷ xs) (y ∷ ys) = x == y && same_name xs ys

-- `find` by `cmpByName`.
unfoldable pub find_name : List ℕ → List Semaphore → Option Semaphore
unfolding same_name
find_name name [] = none
find_name name (c ∷ cs) =
    let rest = find_name name cs in if same_name c.name name then some c else rest

-- Writes through the pointer that `find` gave.
abbrev pub change_sem : ℕ → (Semaphore → Semaphore) → List Semaphore → List Semaphore
change_sem id f [] = []
change_sem id f (c ∷ cs) =
    let rest = c ∷ change_sem id f cs in if c.id == id then f c ∷ cs else rest

abbrev pub change_hub : ℕ → (Semaphore → Semaphore) → Hub → Hub
change_hub id f h = record h { semaphores = change_sem id f h.semaphores }

-- `initializeSemaphore`: the id, 0 where memory runs out, `none` where it spins. Where `add` fails,
-- the list is lost and `lock` stays taken.
unfoldable pub initialize_semaphore :
    (for_block for_list for_node : Bool) → List ℕ → ℕ → Hub → Option ℕ × Hub
unfolding find_name
initialize_semaphore for_block for_list for_node name value h =
    let c : Semaphore = record {
      name = name;
      id = h.global_id;
      value = value;
      locked = false;
      waiting = [];
      amount_blocked = 0;
    } in
    let numbered = record h { global_id = (h.global_id + 1) % 2 ^ 32 } in
    let counted = record numbered { sem_count = (h.sem_count + 1) % 2 ^ 32 } in
    elim (find_name name h.semaphores) [
      | some known ↦ (some known.id, h)
      | none ↦
          if not for_block
          then (some 0, h)
          else (if not for_list
              then (some 0, numbered)
              else (if h.locked
                  then (none, numbered)
                  else (if for_node
                      then (some h.global_id, record counted { semaphores = c ∷ h.semaphores })
                      else (some 0, record counted { semaphores = []; locked = true }))))
    ]

-- What `waitSem` comes to: -1, the value that is left, or the block in which the process waits.
pub data Waited : Type 0 where
  spins : Waited
  failed : Waited
  passed : ℕ → Waited
  sleeps : Waited

abbrev pub wait_reason : ℕ → Reason
wait_reason id = record { source = wait_sem; id = id }

-- `waitSem` of a semaphore that is there. Where memory runs out, `semLock` stays taken, and where it
-- is `add` that fails the list of waiting processes is lost.
unfoldable pub wait_on : (for_pid for_node : Bool) → ℕ → Hub → Semaphore → Waited × Hub
wait_on for_pid for_node id h c =
    let pid = h.schedule.running in
    let queue = λ (q : Semaphore). record q {
      amount_blocked = (q.amount_blocked + 1) % 2 ^ 32;
      waiting = pid ∷ q.waiting;
    } in
    let lose = λ (q : Semaphore). record q {
      amount_blocked = (q.amount_blocked + 1) % 2 ^ 32;
      waiting = [];
      locked = true;
    } in
    if c.locked
    then (spins, h)
    else (if not (c.value == 0)
        then (passed (c.value - 1), change_hub id (λ q. record q { value = q.value - 1 }) h)
        else (if not for_pid
            then (failed, change_hub id (λ q. record q { locked = true }) h)
            else (if not for_node then (failed, change_hub id lose h) else (
              sleeps,
              record (change_hub id queue h) {
                schedule = (block_process_with_reason true pid (wait_reason id) h.schedule).1;
              },
            ))))

-- `waitSem`, up to the interrupt of the block.
unfoldable pub wait_for : (for_pid for_node : Bool) → ℕ → Hub → Waited × Hub
unfolding find_sem wait_on
wait_for for_pid for_node id h = elim (find_sem id h.semaphores) [
  | none ↦ (failed, h)
  | some c ↦ wait_on for_pid for_node id h c
]

-- The last pid of the list, to which the `while` of `postSem` goes, and the list without it.
unfoldable pub split_last : List ℕ → Option (List ℕ × ℕ)
split_last [] = none
split_last (x ∷ xs) = elim (split_last xs) [
  | none ↦ some ([], x)
  | some (front, last) ↦ some (x ∷ front, last)
]

pub data Posted : Type 0 where
  spins : Posted
  no_semaphore : Posted
  woke : ℕ → Posted
  raised : Posted

-- `postSem` of a semaphore that is there and not locked.
unfoldable pub post_on : ℕ → Hub → Semaphore → Posted × Hub
unfolding split_last
post_on id h c =
    let up = change_hub id (λ q. record q { value = (q.value + 1) % 2 ^ 64 }) h in
    let hand = λ (front : List ℕ) (q : Semaphore). record q {
      waiting = front;
      amount_blocked = (q.amount_blocked + 2 ^ 32 - 1) % 2 ^ 32;
    } in
    if c.value == 0
    then elim (split_last c.waiting) [
      | none ↦ (raised, up)
      | some (front, pid) ↦ (
        woke pid,
        record (change_hub id (hand front) h) {
          schedule = (unblock_process_with_reason pid (wait_reason id) h.schedule).1;
        },
      )
    ]
    else (raised, up)

-- `postSem`
unfoldable pub post : ℕ → Hub → Posted × Hub
unfolding find_sem post_on
post id h = elim (find_sem id h.semaphores) [
  | none ↦ (no_semaphore, h)
  | some c ↦ if c.locked then (spins, h) else post_on id h c
]

-- The loop of `closeSem`.
unfoldable pub remove_sem : ℕ → List Semaphore → List Semaphore
remove_sem id [] = []
remove_sem id (c ∷ cs) = let rest = c ∷ remove_sem id cs in if c.id == id then cs else rest

-- `closeSem`: whether it closed one; `none` where it spins, with the semaphore off the list.
unfoldable pub close_sem : ℕ → Hub → Option Bool × Hub
unfolding find_sem remove_sem
close_sem id h =
    let gone = record h { semaphores = remove_sem id h.semaphores } in
    elim (find_sem id h.semaphores) [
      | none ↦ (some false, h)
      | some _ ↦
          if h.locked
          then (none, gone)
          else (some true, record gone { sem_count = (h.sem_count + 2 ^ 32 - 1) % 2 ^ 32 })
    ]
