-- ===== src/Descriptors.antt =====
-- The file descriptors of the running process in Kernel/c/main/scheduler.c.
pub mod Laws
mod Tests
use bizcocho_os.Prelude.{
  ℕ, zero, suc, ◌+◌, ◌-◌, ◌%◌, ◌^◌, Bool, not, true, false, ◌&&◌, ◌||◌, Option, none, some, List,
  [], ◌∷◌, not, ltb, leb, ◌==◌, if◌then◌else◌, update, get_elem?, set,
}
use bizcocho_os.Process.{
  State, blocked, ready, finished, Source, no_block, asked_to, pipe_read, pipe_write, wait_child,
  wait_sem, source_code, is_ready, is_blocked, is_finished, Reason, same_reason, Fd, Lost, Process,
  Schedule, change, is_ready_pid, max_fd_count, priority_count, no_file, mem, in_queues,
  find_by_pid, remove_pid,
}

-- An entry of no open file, and the mode that marks it.
abbrev pub closed_fd : Fd
closed_fd = record { file_id = no_file; mode = b'N' }

-- `fds[fd]`; the lists have 64 entries, so the default is never read.
abbrev pub fd_at : List Fd → ℕ → Fd
fd_at [] i = closed_fd
fd_at (f ∷ fs) zero = f
fd_at (f ∷ fs) (suc i) = fd_at fs i

abbrev pub running_fd : Schedule → ℕ → Fd
running_fd s fd = fd_at (s.process s.running).fds fd

abbrev pub set_fd : Schedule → ℕ → Fd → Schedule
set_fd s fd f = change s s.running (λ p. record p { fds = set p.fds fd f })

-- `fdToFileId` with a `mode` pointer: the id, and the mode that it leaves there.
unfoldable pub fd_to_file_id : ℕ → ℕ → Schedule → ℕ × ℕ
fd_to_file_id fd mode s =
    if leb max_fd_count fd
    then (no_file, mode)
    else (if mode == 0
        then ((running_fd s fd).file_id, (running_fd s fd).mode)
        else (if mode == (running_fd s fd).mode
            then ((running_fd s fd).file_id, mode)
            else (no_file, mode)))

-- The `while` of `openFile` from `ans` on; `fuel` is the number of entries that are left.
unfoldable pub free_fd : ℕ → ℕ → List Fd → Option ℕ
free_fd zero ans fds = none
free_fd (suc fuel) ans fds =
    let further = free_fd fuel (ans + 1) fds in
    if (fd_at fds ans).file_id == no_file then some ans else further

-- `openFile`: the descriptor, from 4 on.
unfoldable pub open_file : ℕ → ℕ → Schedule → Option ℕ × Schedule
unfolding free_fd
open_file file_id mode s = elim (free_fd (max_fd_count - 4) 4 (s.process s.running).fds) [
  | none ↦ (none, s)
  | some fd ↦ (some fd, set_fd s fd (record { file_id = file_id; mode = mode }))
]

-- `closeFile`: whether it closed an entry.
unfoldable pub close_file : ℕ → Schedule → Bool × Schedule
close_file fd s =
    if leb max_fd_count fd || (running_fd s fd).mode == b'N'
    then (false, s)
    else (true, set_fd s fd closed_fd)

-- The entry that `dup2` saves, and the table with the copy.
unfoldable pub save_lost : ℕ → Process → Process
save_lost to p = record p {
  replacements =
      record { index = to; lost_id = (fd_at p.fds to).file_id; lost_mode = (fd_at p.fds to).mode }
      ∷ p.replacements;
}

unfoldable pub copy_fd : ℕ → ℕ → Process → Process
copy_fd from to p = record p { fds = set p.fds to (fd_at p.fds from) }

-- `dup2` up to its call of `modifyOpenCount`. The first two arguments say of its two allocations whether
-- they succeed; `add` loses the list where its own fails.
unfoldable pub dup2_entries : (for_lost for_node : Bool) → ℕ → ℕ → Schedule → Bool × Schedule
dup2_entries for_lost for_node from to s =
    if leb max_fd_count from || leb max_fd_count to || not for_lost
    then (false, s)
    else (if for_node
        then (true, change s s.running (λ p. copy_fd from to (save_lost to p)))
        else (false, change s s.running (λ p. record p { replacements = [] })))

-- The loop of `revertFdReplacements` over the entries of the process: each `toFd` gets its own
-- number for a file, and the mode that `dup2` saved.
unfoldable pub revert_loop : List Lost → List Fd → List Fd
revert_loop [] fds = fds
revert_loop (l ∷ ls) fds =
    revert_loop ls (set fds l.index (record { file_id = l.index; mode = l.lost_mode }))

unfoldable pub revert_process : Process → Process
unfolding revert_loop
revert_process p = record p { fds = revert_loop p.replacements p.fds; replacements = [] }

-- `revertFdReplacements`, less its calls of `modifyOpenCount`.
unfoldable pub revert_entries : Schedule → Schedule
revert_entries s = change s s.running revert_process
