-- ===== src/Blocking/Tests.antt =====
-- The theorems on blocking at a schedule with a process that waits to read.
use bizcocho_os.Prelude.{true, false, [], update, ℕ, ◌≡◌, ◌&&◌, ◌==◌, if◌then◌else◌, arith}
use bizcocho_os.Process.{
  blocked, source_code, pipe_read, wait_sem, Reason, same_reason, is_blocked, is_ready_pid,
  find_by_pid,
}
use bizcocho_os.Blocking.{set_ready, block_process_with_reason, unblock_all}
use bizcocho_os.Blocking.Laws.{IsListed, unblock_all_lem, block_process_with_reason_lem}
use bizcocho_os.Samples.{three}

abbrev wants_pipe : Reason
wants_pipe = record { source = pipe_read; id = 7 }

abbrev wants_semaphore : Reason
wants_semaphore = record { source = wait_sem; id = 5 }

three-IsListed : IsListed three
three-IsListed p code = ground arith

unblock_all_lem_example :
    IsListed (unblock_all wants_pipe three)
    × ((p : ℕ)
        → (unblock_all wants_pipe three).process p ≡ (
            if is_blocked (three.process p).state && same_reason (three.process p).reason wants_pipe
            then set_ready (three.process p)
            else three.process p))
unblock_all_lem_example = unblock_all_lem wants_pipe three three-IsListed

block_process_with_reason_lem_example :
    IsListed (block_process_with_reason true 2 wants_semaphore three).1
    × ((block_process_with_reason true 2 wants_semaphore three).0
        ≡ (find_by_pid three 2 && is_ready_pid three 2))
    × ((p : ℕ)
        → (block_process_with_reason true 2 wants_semaphore three).1.process p ≡ (
            if (block_process_with_reason true 2 wants_semaphore three).0 && p == 2
            then record (three.process p) { state = blocked; reason = wants_semaphore }
            else three.process p))
    × (block_process_with_reason false 2 wants_semaphore three ≡ (
      (block_process_with_reason true 2 wants_semaphore three).0,
      record ((block_process_with_reason true 2 wants_semaphore three).1) {
        blocked_lists =
            (if (block_process_with_reason true 2 wants_semaphore three).0
              then update three.blocked_lists (source_code wait_sem) []
              else three.blocked_lists);
      },
    ))
block_process_with_reason_lem_example =
    block_process_with_reason_lem 2 wants_semaphore three three-IsListed
