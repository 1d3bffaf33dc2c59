-- ===== src/Process.antt =====
-- The processes and the schedule of Kernel/include/scheduler.h and Kernel/c/main/scheduler.c, with
-- `findByPid` and the unlinking of a node.
-- A process and its list node are known by the pid; the node's list is the list of pids of its
-- priority, its siblings the `children` of its parent. `NULL` as `nowRunning` is 0, which is no pid.
use bizcocho_os.Prelude.{
  ℕ, zero, suc, ◌+◌, ◌-◌, ◌^◌, Bool, true, false, ◌&&◌, ◌||◌, List, [], ◌∷◌, ◌==◌, if◌then◌else◌,
  update,
}

abbrev pub max_fd_count : ℕ
max_fd_count = 64

abbrev pub priority_count : ℕ
priority_count = 5

-- `State_t`
pub data State : Type 0 where
  blocked ready finished : State

-- `BlockedSource_t`
pub data Source : Type 0 where
  no_block asked_to pipe_read pipe_write wait_child wait_sem : Source

-- The value of the enumerator.
abbrev pub source_code : Source → ℕ
source_code no_block = 0
source_code asked_to = 1
source_code pipe_read = 2
source_code pipe_write = 3
source_code wait_child = 4
source_code wait_sem = 5

abbrev pub is_ready : State → Bool
is_ready ready = true
is_ready _ = false

abbrev pub is_blocked : State → Bool
is_blocked blocked = true
is_blocked _ = false

abbrev pub is_finished : State → Bool
is_finished finished = true
is_finished _ = false

-- `BlockedReason_t`; the id is the bit pattern of its `int32_t`.
pub record Reason : Type 0 where
  pub source : Source
  pub id : ℕ

abbrev pub same_reason : Reason → Reason → Bool
same_reason r q = source_code r.source == source_code q.source && r.id == q.id

-- -1 as an `int16_t`, the id of no file.
abbrev pub no_file : ℕ
no_file = 2 ^ 16 - 1

-- `fileDescriptor_t`; the id is the bit pattern of its `int16_t`, the mode a character.
pub record Fd : Type 0 where
  pub file_id : ℕ
  pub mode : ℕ

-- `lostFd_t`
pub record Lost : Type 0 where
  pub lost_id : ℕ
  pub lost_mode : ℕ
  pub index : ℕ

-- `PCB_t` with the `remainingQuantum` and the children of its node. The status code is the bit pattern of its `int8_t`.
pub record Process : Type 0 where
  pub ppid : ℕ
  pub name : List ℕ
  pub stack_pointer : ℕ
  pub state : State
  pub status_code : ℕ
  pub fds : List Fd
  pub replacements : List Lost
  pub priority : ℕ
  pub reason : Reason
  pub in_death_list : Bool
  pub remaining_quantum : ℕ
  pub children : List ℕ

-- `schedule` and the other variables of the file.
pub record Schedule : Type 0 where
  pub queues : ℕ → List ℕ
  pub process : ℕ → Process
  pub running : ℕ
  pub count : ℕ
  pub started : Bool
  pub next_pid : ℕ
  pub init : ℕ
  pub blocked_lists : ℕ → List ℕ
  pub death_list : List ℕ

abbrev pub change : Schedule → ℕ → (Process → Process) → Schedule
change s pid f = record s { process = update s.process pid (f (s.process pid)) }

abbrev pub is_ready_pid : Schedule → ℕ → Bool
is_ready_pid s p = is_ready (s.process p).state

unfoldable pub mem : ℕ → List ℕ → Bool
mem a [] = false
mem a (x ∷ xs) = x == a || mem a xs

-- The loop of `findByPid` over the lists from `i` on, `n` of them.
unfoldable pub in_queues : ℕ → ℕ → Schedule → ℕ → Bool
in_queues zero i s pid = false
in_queues (suc n) i s pid = mem pid (s.queues i) || in_queues n (i + 1) s pid

-- `findByPid`, as the test whether it finds a node.
unfoldable pub find_by_pid : Schedule → ℕ → Bool
unfolding in_queues mem
find_by_pid s pid = pid == s.running || in_queues priority_count 0 s pid

-- The pid leaves the list: what unlinking its node does.
unfoldable pub remove_pid : ℕ → List ℕ → List ℕ
remove_pid a [] = []
remove_pid a (x ∷ xs) = let rest = x ∷ remove_pid a xs in if x == a then xs else rest
