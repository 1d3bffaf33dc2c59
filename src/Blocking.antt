-- ===== src/Blocking.antt =====
-- Blocking and unblocking of processes in Kernel/c/main/scheduler.c.
pub mod Laws
mod Tests
use bizcocho_os.Prelude.{
  ℕ, zero, suc, ◌+◌, ◌-◌, ◌%◌, ◌^◌, Bool, true, false, ◌&&◌, ◌||◌, Option, none, some, List, [],
  ◌∷◌, ltb, leb, ◌==◌, if◌then◌else◌, update, get_elem?, set,
}
use bizcocho_os.Process.{
  State, blocked, ready, finished, Source, no_block, asked_to, pipe_read, pipe_write, wait_child,
  wait_sem, source_code, is_ready, is_blocked, is_finished, Reason, same_reason, Fd, Lost, Process,
  Schedule, change, is_ready_pid, max_fd_count, priority_count, no_file, mem, in_queues,
  find_by_pid, remove_pid,
}

-- `setProcessReady`
abbrev pub set_ready : Process → Process
set_ready p = record p { state = ready; reason = record { source = no_block; id = 0 } }

-- `blockProcessWithReason`, up to the interrupt that it raises where it returns 1. `for_node` says whether `add`
-- gets memory for its node; where it does not, the list is lost and the process blocked all the same.
unfoldable pub block_process_with_reason :
    (for_node : Bool) → ℕ → Reason → Schedule → Bool × Schedule
block_process_with_reason for_node pid reason s =
    let code = source_code reason.source in
    if find_by_pid s pid && is_ready_pid s pid
    then (
      true,
      record (change s pid (λ p. record p { state = blocked; reason = reason })) {
        blocked_lists =
            update s.blocked_lists code (if for_node then pid ∷ s.blocked_lists code else []);
      },
    )
    else (false, s)

-- `_unblockProcessWithReason` for a node that is there.
unfoldable pub unblock_node : ℕ → Reason → Schedule → Schedule
unfolding remove_pid
unblock_node pid reason s =
    let code = source_code reason.source in
    record (change s pid set_ready) {
      blocked_lists = update s.blocked_lists code (remove_pid pid (s.blocked_lists code));
    }

-- `unblockProcessWithReason`
unfoldable pub unblock_process_with_reason : ℕ → Reason → Schedule → Bool × Schedule
unfolding unblock_node
unblock_process_with_reason pid reason s =
    if find_by_pid s pid
      && same_reason (s.process pid).reason reason
      && is_blocked (s.process pid).state
    then (true, unblock_node pid reason s)
    else (false, s)

-- The loop of `unblockAllProcessesBecauseReason` over the rest of the list: the processes, and what
-- stays on the list.
unfoldable pub unblock_loop : Reason → List ℕ → (ℕ → Process) → (ℕ → Process) × List ℕ
unblock_loop reason [] f = (f, [])
unblock_loop reason (p ∷ ps) f =
    let woken = unblock_loop reason ps (update f p (set_ready (f p))) in
    let passed = unblock_loop reason ps f in
    if (f p).reason.id == reason.id then woken else (passed.0, p ∷ passed.1)

-- `unblockAllProcessesBecauseReason`
unfoldable pub unblock_all : Reason → Schedule → Schedule
unfolding unblock_loop
unblock_all reason s =
    let code = source_code reason.source in
    let (f, left) = unblock_loop reason (s.blocked_lists code) s.process in
    record s { process = f; blocked_lists = update s.blocked_lists code left }

-- `blockProcess`, the system call that blocks or unblocks, up to its interrupt, with memory for the list's node.
unfoldable pub block_process : ℕ → Schedule → Bool × Schedule
unfolding block_process_with_reason unblock_process_with_reason
block_process pid s =
    let reason : Reason = record { source = asked_to; id = 0 } in
    let (could, s') = block_process_with_reason true pid reason s in
    if pid == s.init
    then (false, s)
    else (if could then (true, s') else unblock_process_with_reason pid reason s')
