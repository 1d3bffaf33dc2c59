-- ===== src/Scheduler.antt =====
-- `findNextProcess`, `scheduler`, `yield` and `changePriority` of Kernel/c/main/scheduler.c.
pub mod Choice
pub mod Round
pub mod Tick
pub mod Queues
mod Tests
use bizcocho_os.Prelude.{
  ℕ, zero, suc, ◌+◌, ◌-◌, ◌%◌, ◌^◌, Bool, true, false, ◌&&◌, ◌||◌, Option, none, some, List, [],
  ◌∷◌, ltb, leb, ◌==◌, if◌then◌else◌, update, get_elem?, set,
}
use bizcocho_os.Process.{
  State, blocked, ready, finished, Source, no_block, asked_to, pipe_read, pipe_write, wait_child,
  wait_sem, source_code, is_ready, is_blocked, is_finished, Reason, same_reason, Fd, Lost, Process,
  Schedule, change, is_ready_pid, max_fd_count, priority_count, no_file, mem, in_queues,
  find_by_pid, remove_pid,
}

-- The inner steps of `findNextProcess`: the first ready process of what is left of a list.
unfoldable pub first_ready : Schedule → List ℕ → Option ℕ
first_ready s [] = none
first_ready s (p ∷ ps) = let rest = first_ready s ps in if is_ready_pid s p then some p else rest

-- What follows `pid` in its list: the `next` of its node.
unfoldable pub after : ℕ → List ℕ → List ℕ
after pid [] = []
after pid (p ∷ ps) = let rest = after pid ps in if p == pid then ps else rest

-- The loop of `findNextProcess` from `head` on, with fuel for each move to another list; `none` is a
-- loop that does not end.
unfoldable pub search_from : ℕ → Schedule → ℕ → List ℕ → Option ℕ
search_from zero s priority head = first_ready s head
search_from (suc fuel) s priority head = elim (first_ready s head) [
  | some p ↦ some p
  | none ↦
      search_from fuel s ((priority + 1) % priority_count)
        (s.queues ((priority + 1) % priority_count))
]

-- `findNextProcess`: a round of all the lists and the rest of the first is enough.
unfoldable pub find_next_process : Schedule → Option ℕ
unfolding after
find_next_process s =
    let priority = (s.process s.running).priority in
    search_from priority_count s priority (after s.running (s.queues priority))

-- What the assembly routines are asked to do at the end of `scheduler`.
pub data Switch : Type 0 where
  stay : Switch
  initialize_task : ℕ → Switch
  swap_tasks : ℕ → Switch

-- The last part of `scheduler`, once the next process is known; `rsp` is what `saveStackPointer` finds.
unfoldable pub switch_to : ℕ → Schedule → Option ℕ → Option (Schedule × Switch)
switch_to rsp s none = none
switch_to rsp s (some pid) =
    let s' = record (change s s.running (λ p. record p { stack_pointer = rsp })) {
      running = pid;
    } in
    some (
      s',
      if (s'.process pid).stack_pointer == 0
          then initialize_task pid
          else swap_tasks (s'.process pid).stack_pointer,
    )

-- `scheduler` for a process that runs, from the computation of `canContinue` on.
unfoldable pub run_or_switch : ℕ → Schedule → Option (Schedule × Switch)
run_or_switch rsp s =
    let p = s.process s.running in
    let can_continue = ltb 0 p.remaining_quantum in
    let quantum = p.remaining_quantum + (if can_continue then 0 else priority_count - p.priority) in
    let left = change s s.running (λ q. record q { remaining_quantum = quantum }) in
    if is_ready p.state && can_continue
    then some
        (change s s.running (λ q. record q { remaining_quantum = q.remaining_quantum - 1 }), stay)
    else switch_to rsp left (find_next_process left)

-- `scheduler`; `none` where `findNextProcess` does not return.
unfoldable pub scheduler : ℕ → Schedule → Option (Schedule × Switch)
scheduler rsp s =
    if s.started
    then (if s.running == 0
        then some (record s { running = s.init }, initialize_task s.init)
        else run_or_switch rsp s)
    else some (s, stay)

-- `yield`, up to the interrupt that it raises.
unfoldable pub yield_now : Schedule → Schedule
yield_now s = change s s.running (λ p. record p { remaining_quantum = 0 })

-- `changePriority`
unfoldable pub change_priority : ℕ → ℕ → Schedule → Bool × Schedule
unfolding remove_pid
change_priority pid new s =
    let old = (s.process pid).priority in
    let unlinked = update s.queues old (remove_pid pid (s.queues old)) in
    if leb priority_count new
    then (false, s)
    else (if find_by_pid s pid
        then (
          true,
          record (change s pid
              (λ p. record p { priority = new; remaining_quantum = priority_count - new })) {
                queues = update unlinked new (pid ∷ unlinked new);
              },
        )
        else (false, s))
