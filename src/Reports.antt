-- ===== src/Reports.antt =====
-- What the kernel tells of its pipes and processes: `getPipeInfo` of Kernel/c/ipc/files.c and
-- `getProcessInfo` of Kernel/c/main/scheduler.c, where there is memory for the answers.
pub mod Pipes
mod Tests
use bizcocho_os.Prelude.{
  ℕ, zero, suc, ◌+◌, ◌%◌, ◌^◌, ◌==◌, if◌then◌else◌, List, [], ◌∷◌, ◌++◌, map, length,
}
use bizcocho_os.Process.{
  State, blocked, ready, finished, Source, no_block, asked_to, pipe_read, pipe_write, wait_child,
  wait_sem, source_code, Process, Schedule, priority_count,
}
use bizcocho_os.Pipe.{Pipe, characters_left}
use bizcocho_os.Kernel.{Kernel}

-- `pipeInfo`; the amounts are the lengths of the lists.
pub record PipeInfo : Type 0 where
  pub name : List ℕ
  pub characters_left_to_read : ℕ
  pub blocked_by_reading : List ℕ
  pub blocked_by_writing : List ℕ

-- The processes of a list of blocked ones whose reason has the id.
unfoldable pub blocked_on : ℕ → (ℕ → Process) → List ℕ → List ℕ
blocked_on id f [] = []
blocked_on id f (p ∷ ps) =
    let rest = blocked_on id f ps in if (f p).reason.id == id then p ∷ rest else rest

-- What `getPipeInfo` says of one pipe.
unfoldable pub pipe_info : Schedule → Pipe → PipeInfo
unfolding blocked_on
pipe_info s p =
    let waiting =
      λ (source : Source). blocked_on p.file_id s.process (s.blocked_lists (source_code source)) in
    record {
      name = p.name;
      characters_left_to_read = characters_left p;
      blocked_by_reading = waiting pipe_read;
      blocked_by_writing = waiting pipe_write;
    }

-- `getPipeInfo`: what it writes behind one another into its array, and `*pipeAmount`, which is also the place that
-- the array has. `garbage` is what stood in the memory where `newList` put the list, which sets no size.
unfoldable pub get_pipe_info : (garbage : ℕ) → Kernel → List PipeInfo × ℕ
unfolding pipe_info
get_pipe_info garbage k = (map (pipe_info k.schedule) k.pipes, (garbage + length k.pipes) % 2 ^ 32)

-- `processInfo`, less the address of its memory.
pub record ProcessInfo : Type 0 where
  pub name : List ℕ
  pub pid : ℕ
  pub ppid : ℕ
  pub status : ℕ
  pub priority : ℕ
  pub stack_pointer : ℕ

abbrev pub blocked_reason_char : Source → ℕ
blocked_reason_char no_block = b'?'
blocked_reason_char asked_to = b'B'
blocked_reason_char pipe_read = b'P'
blocked_reason_char pipe_write = b'p'
blocked_reason_char wait_child = b'C'
blocked_reason_char wait_sem = b'S'

-- `getStateChar`
unfoldable pub get_state_char : State → Source → ℕ
get_state_char blocked source = blocked_reason_char source
get_state_char ready source = b'R'
get_state_char finished source = b'F'

abbrev pub process_info : Schedule → ℕ → ProcessInfo
process_info s pid =
    let p = s.process pid in
    record {
      name = p.name;
      pid = pid;
      ppid = p.ppid;
      status = get_state_char p.state p.reason.source;
      priority = p.priority;
      stack_pointer = p.stack_pointer;
    }

-- The loop of `getProcessInfo` over `n` lists from `i` on.
unfoldable pub info_from : ℕ → ℕ → Schedule → List ProcessInfo
info_from zero i s = []
info_from (suc n) i s = map (process_info s) (s.queues i) ++ info_from n (i + 1) s

-- `getProcessInfo`: the array and the amount.
unfoldable pub get_process_info : Schedule → List ProcessInfo × ℕ
unfolding info_from
get_process_info s = (info_from priority_count 0 s, s.count)
