-- ===== src/Life.antt =====
-- The start and the end of a process in Kernel/c/main/scheduler.c: `startProcess`, `initializeScheduler`,
-- `startParentProcess`, `startChildProcess`, `waitchild` with `removeFromList` and `inheritChildren`, `exit`, and
-- `killAllInDeathList`.
-- What `initializeTask` gets (the arguments, the code, the stack's address) is not part of a
-- process here. A node's priority is one of the five.
pub mod Starting
pub mod Failing
mod Tests
use bizcocho_os.Prelude.{
  ℕ, zero, suc, ◌+◌, ◌-◌, ◌%◌, ◌^◌, Bool, true, false, not, ◌&&◌, ◌||◌, Option, none, some, List,
  [], ◌∷◌, ◌++◌, ltb, ◌==◌, if◌then◌else◌, update, take,
}
use bizcocho_os.Process.{
  ready, no_block, wait_child, is_finished, Reason, Fd, Process, Schedule, change, max_fd_count,
  priority_count, no_file, mem, find_by_pid, remove_pid,
}
use bizcocho_os.Blocking.{block_process_with_reason}
use bizcocho_os.Pipe.{Pipe}
use bizcocho_os.Kernel.{Kernel, one_more, modify_open_count, holds_pipe, kill_node}

-- Which of the allocations of `startProcess` succeed, in their order.
pub record Memory : Type 0 where
  pub for_pcb : Bool
  pub for_stack : Bool
  pub for_replacements : Bool
  pub for_node : Bool
  pub for_death_list : Bool

-- The descriptors of a process that copies none: `n` entries from `i` on.
unfoldable pub default_fds : ℕ → ℕ → List Fd
default_fds zero i = []
default_fds (suc n) i =
    record {
      file_id = (if ltb i 3 then i else no_file);
      mode = (if i == 0 then b'R' else (if ltb i 3 then b'W' else b'N'));
    }
    ∷ default_fds n (i + 1)

-- The calls of `modifyOpenCount` for the copied descriptors.
unfoldable pub count_fds : List Fd → List Pipe → List Pipe
count_fds [] ps = ps
count_fds (f ∷ fs) ps =
    count_fds fs (if holds_pipe f then modify_open_count f.file_id one_more f.mode ps else ps)

-- The descriptors that a process starts with, and the pipes.
unfoldable pub copied_fds : Option (List Fd) → List Pipe → List Fd × List Pipe
unfolding default_fds count_fds
copied_fds none ps = (default_fds max_fd_count 0, ps)
copied_fds (some fds) ps = (fds, count_fds fds ps)

-- `NAME_MAX`
abbrev pub name_max : ℕ
name_max = 64

-- The `PCB_t` and the node that `startProcess` fills in; the parent's pid is cut to 8 bits.
abbrev pub new_process : List ℕ → ℕ → ℕ → List Fd → Bool → Process
new_process name priority ppid fds dies = record {
  ppid = ppid % 2 ^ 8;
  name = take name_max name;
  stack_pointer = 0;
  state = ready;
  status_code = 2 ^ 8 - 1;
  fds = fds;
  replacements = [];
  priority = priority;
  reason = record { source = no_block; id = 0 };
  in_death_list = dies;
  remaining_quantum = priority_count - priority;
  children = [];
}

-- The last child of the parent, if there is one to be given to.
abbrev pub add_child : Option ℕ → ℕ → Schedule → Schedule
add_child none pid s = s
add_child (some parent) pid s =
    change s parent (λ p. record p { children = p.children ++ (pid ∷ []) })

-- The schedule with the new node on its lists, less the count and the death list.
abbrev pub enlist : Option ℕ → ℕ → Process → Schedule → Schedule
enlist parent pid p s = add_child parent pid (record s {
  process = update s.process pid p;
  queues = update s.queues p.priority (pid ∷ s.queues p.priority);
})

-- `startProcess`: the pid, or `none` where memory runs out; what was done by then stays.
unfoldable pub start_process :
    Memory → List ℕ → ℕ → ℕ → Option (List Fd) → Option ℕ → Bool → Kernel → Option ℕ × Kernel
unfolding copied_fds
start_process memory name priority ppid fds parent dies k =
    let s = k.schedule in
    let pid = s.next_pid in
    let numbered = record k { schedule = record s { next_pid = (pid + 1) % 2 ^ 32 } } in
    let (own, pipes) = copied_fds fds k.pipes in
    let copied = record numbered { pipes = pipes } in
    let listed = enlist parent pid (new_process name priority ppid own dies) copied.schedule in
    let counted = λ (t : Schedule). record t { count = (t.count + 1) % 2 ^ 32 } in
    if not memory.for_pcb
    then (none, k)
    else (if not memory.for_stack
        then (none, numbered)
        else (if not (memory.for_replacements && memory.for_node)
            then (none, copied)
            else (if not dies
                then (some pid, record copied { schedule = counted listed })
                else (if memory.for_death_list
                    then (
                      some pid,
                      record copied {
                        schedule = counted (record listed { death_list = pid ∷ listed.death_list });
                      },
                    )
                    else (none, record copied { schedule = record listed { death_list = [] } })))))

-- `initializeScheduler`: the first process is made, and none runs. Where memory runs out there is no first
-- process, and its pid here is 0.
unfoldable pub initialize_scheduler : Memory → Kernel → Kernel
unfolding start_process
initialize_scheduler memory k =
    let empty = record (k.schedule) { blocked_lists = λ _. []; count = 0 } in
    let name = b'i' ∷ b'n' ∷ b'i' ∷ b't' ∷ [] in
    let (started, k') =
      start_process memory name (priority_count - 1) 0 none none false
        (record k { schedule = empty }) in
    let first : ℕ = elim started [ none ↦ 0 | some pid ↦ pid ] in
    record k' { schedule = record (k'.schedule) { init = first; running = 0; death_list = [] } }

-- `startParentProcess`: the pid, 0 where it fails.
unfoldable pub start_parent_process : Memory → List ℕ → ℕ → ℕ → Kernel → ℕ × Kernel
unfolding start_process
start_parent_process memory name priority from k =
    let s = k.schedule in
    let fds = if find_by_pid s from && not (from == 0) then some (s.process from).fds else none in
    let (started, k') = start_process memory name priority s.init fds (some s.init) false k in
    elim started [
      | none ↦ (0, k')
      | some pid ↦ (pid, record k' { schedule = record (k'.schedule) { started = true } })
    ]

-- `startChildProcess`
unfoldable pub start_child_process : Memory → List ℕ → Bool → Kernel → ℕ × Kernel
unfolding start_process
start_child_process memory name dies k =
    let me = k.schedule.running in
    let p = k.schedule.process me in
    let (started, k') = start_process memory name p.priority me (some p.fds) (some me) dies k in
    elim started [ none ↦ (0, k') | some pid ↦ (pid, k') ]

-- The second loop of `inheritChildren`.
unfoldable pub set_parents : List ℕ → ℕ → (ℕ → Process) → ℕ → Process
set_parents [] ppid f = f
set_parents (c ∷ cs) ppid f = set_parents cs ppid (update f c (record (f c) { ppid = ppid }))

-- `inheritChildren`, from a process to the first one. It also writes through the pointer to the first
-- child where there is none, which no field here shows.
unfoldable pub inherit_children : ℕ → Schedule → Schedule
unfolding set_parents
inherit_children pid s =
    let given = (s.process pid).children in
    let taken = change s s.init (λ p. record p { children = p.children ++ given }) in
    record taken { process = set_parents given s.init taken.process }

-- `removeFromList` with `freeNode`: the pid is of no node from here on.
unfoldable pub remove_from_list : ℕ → Schedule → Schedule
unfolding inherit_children
remove_from_list pid s =
    let i = (s.process pid).priority in
    let unlinked = record s { queues = update s.queues i (remove_pid pid (s.queues i)) } in
    let left = inherit_children pid unlinked in
    record left { count = (left.count + 2 ^ 32 - 1) % 2 ^ 32 }

-- What `waitchild` comes to: -2, a status, or the block in which it waits for the child to end.
pub data Child : Type 0 where
  no_child : Child
  status : ℕ → Child
  waits_for : ℕ → Child

-- The end of `waitchild`, at once or when it is woken.
unfoldable pub reap : ℕ → Schedule → Child × Schedule
unfolding remove_from_list
reap child s = (
  status (s.process child).status_code,
  remove_from_list child
      (change s s.running (λ p. record p { children = remove_pid child p.children })),
)

-- The child that `waitchild` chooses.
unfoldable pub chosen_child : ℕ → List ℕ → Option ℕ
chosen_child wanted [] = none
chosen_child wanted (c ∷ cs) =
    if wanted == 0 then some c else (if mem wanted (c ∷ cs) then some wanted else none)

-- `waitchild`, up to the interrupt of the block.
unfoldable pub waitchild : ℕ → Schedule → Child × Schedule
unfolding chosen_child reap
waitchild wanted s =
    let reason : Reason = record { source = wait_child; id = wanted } in
    elim (chosen_child wanted (s.process s.running).children) [
      | none ↦ (no_child, s)
      | some child ↦
          if is_finished (s.process child).state
          then reap child s
          else (waits_for child, (block_process_with_reason true s.running reason s).1)
    ]

-- `exit`, up to its interrupt.
unfoldable pub exit : ℕ → Kernel → Kernel
exit code k =
    let s = k.schedule in
    (kill_node s.running
      (record k { schedule = change s s.running (λ p. record p { status_code = code }) })).1

-- The loop of `killAllInDeathList` over the list.
unfoldable pub kill_listed : List ℕ → Kernel → Kernel
kill_listed [] k = k
kill_listed (pid ∷ ps) k =
    let s = k.schedule in
    kill_listed ps
      (kill_node pid (record k {
        schedule = record (change s pid (λ p. record p { in_death_list = false })) {
          death_list = remove_pid pid s.death_list;
        };
      })).1

-- `killAllInDeathList`
unfoldable pub kill_all_in_death_list : Kernel → Kernel
unfolding kill_listed
kill_all_in_death_list k = kill_listed k.schedule.death_list k
