-- ===== src/Kernel.antt =====
-- Where Kernel/c/main/scheduler.c and Kernel/c/ipc/files.c meet: the pipes that processes have open,
-- `close`, `closeForKilling`, `_killProcess` and `killProcess`.
-- A `pipeFile_t` that is on `pipeFilesList` is an entry of `pipes`, the list's first the first. What a
-- call does up to the interrupt that it raises is the function here; the interrupt is a tick of
-- Scheduler.
pub mod Counts
pub mod Redirects
mod Tests
use bizcocho_os.Prelude.{
  ℕ, ◌+◌, ◌-◌, ◌%◌, ◌^◌, Bool, not, true, false, ◌&&◌, ◌||◌, Option, none, some, List, [], ◌∷◌,
  ◌++◌, ltb, leb, ◌==◌, if◌then◌else◌, update,
}
use bizcocho_os.Process.{
  finished, Source, pipe_read, wait_child, source_code, Reason, is_blocked, is_finished, Fd, Lost,
  Process, Schedule, change, no_file, find_by_pid, remove_pid, mem,
}
use bizcocho_os.Blocking.{
  unblock_node, unblock_process_with_reason, unblock_all, block_process_with_reason,
}
use bizcocho_os.Descriptors.{
  fd_at, running_fd, fd_to_file_id, open_file, close_file, dup2_entries, revert_entries,
}
use bizcocho_os.Pipe.{Pipe, size_mod}

pub record Kernel : Type 0 where
  pub schedule : Schedule
  pub pipes : List Pipe
  pub next_file_id : ℕ

-- The units of `modifyOpenCount`: 1 or -1, added in `size_t`.
pub data Units : Type 0 where
  one_more one_less : Units

abbrev pub add_units : Units → ℕ → ℕ
add_units one_more n = (n + 1) % size_mod
add_units one_less n = (n + size_mod - 1) % size_mod

abbrev pub counted : Units → ℕ → Pipe → Pipe
counted u mode p = record p {
  current_open_count = add_units u p.current_open_count;
  write_open_count = (if mode == b'W' then add_units u p.write_open_count else p.write_open_count);
}

-- `modifyOpenCount`: the first pipe with the id.
unfoldable pub modify_open_count : ℕ → Units → ℕ → List Pipe → List Pipe
modify_open_count id u mode [] = []
modify_open_count id u mode (p ∷ ps) =
    let rest = p ∷ modify_open_count id u mode ps in
    if p.file_id == id then counted u mode p ∷ ps else rest

-- `find` on the pipes by `cmpFileID`.
unfoldable pub find_pipe : ℕ → List Pipe → Option Pipe
find_pipe id [] = none
find_pipe id (p ∷ ps) = let rest = find_pipe id ps in if p.file_id == id then some p else rest

-- The loop of `closeForKilling`, which `close` has too, over the pipes: the list with the pipe's
-- counts lowered, and without it once nobody has it open; `none` where no pipe has the id. The Boolean
-- says whether the last writer is gone, so that the readers are to be woken.
unfoldable pub release_pipe : ℕ → ℕ → List Pipe → Option (List Pipe × Bool)
release_pipe id mode [] = none
release_pipe id mode (p ∷ ps) =
    let rest : Option (List Pipe × Bool) = elim (release_pipe id mode ps) [
      | none ↦ none
      | some (qs, w) ↦ some (p ∷ qs, w)
    ] in
    let q = counted one_less mode p in
    if p.file_id == id
    then some
        (if q.current_open_count == 0 then ps else q ∷ ps, mode == b'W' && q.write_open_count == 0)
    else rest

abbrev pub read_reason : ℕ → Reason
read_reason id = record { source = pipe_read; id = id }

-- The wake-up in `closeForKilling` and `close`. A file id is positive, so as an `int32_t` it has the
-- same bits.
unfoldable pub wake_readers : ℕ → Kernel → Option (List Pipe × Bool) → Bool × Kernel
wake_readers id k none = (false, k)
wake_readers id k (some (ps, last)) = (
  true,
  record k {
    pipes = ps;
    schedule = (if last then unblock_all (read_reason id) k.schedule else k.schedule);
  },
)

-- `closeForKilling`: whether it found the pipe.
unfoldable pub close_for_killing : ℕ → ℕ → Kernel → Bool × Kernel
unfolding wake_readers
close_for_killing id mode k = wake_readers id k (release_pipe id mode k.pipes)

-- `close`: the descriptor's entry is closed too, before the counts are lowered.
unfoldable pub close : ℕ → Kernel → Bool × Kernel
unfolding wake_readers
close fd k =
    let (id, mode) = fd_to_file_id fd 0 k.schedule in
    let (closed, s) = close_file fd k.schedule in
    let released = wake_readers id (record k { schedule = s }) (release_pipe id mode k.pipes) in
    elim (find_pipe id k.pipes) [
      | none ↦ (false, k)
      | some _ ↦ if id == no_file || not closed then (false, k) else released
    ]

-- The entries that `_killProcess` closes: in use, and of no standard file.
abbrev pub holds_pipe : Fd → Bool
holds_pipe f = not (f.mode == b'N') && (ltb 2 f.file_id && ltb f.file_id (2 ^ 15))

-- The first loop of `_killProcess`.
unfoldable pub close_all : List Fd → Kernel → Kernel
unfolding close_for_killing
close_all [] k = k
close_all (f ∷ fs) k =
    close_all fs (if holds_pipe f then (close_for_killing f.file_id f.mode k).1 else k)

-- The loop of `_killProcess` over the death list: every entry of the process leaves it.
unfoldable pub remove_all : ℕ → List ℕ → List ℕ
remove_all a [] = []
remove_all a (x ∷ xs) = if x == a then remove_all a xs else x ∷ remove_all a xs

-- The end of `_killProcess`, once the process is off every list: the parent's wake-up and the state.
unfoldable pub wake_parent : ℕ → Kernel → Bool × Kernel
wake_parent pid k =
    let s = k.schedule in
    let parent = (s.process pid).ppid in
    let r = (s.process parent).reason in
    let waits = source_code r.source == source_code wait_child && (r.id == pid || r.id == 0) in
    let woken = if waits then unblock_node parent r s else s in
    if find_by_pid s parent
    then (true, record k { schedule = change woken pid (λ p. record p { state = finished }) })
    else (false, k)

-- `_killProcess` of a process that is there.
unfoldable pub kill_node : ℕ → Kernel → Bool × Kernel
unfolding close_all remove_all wake_parent
kill_node pid k =
    let k₁ = close_all (k.schedule.process pid).fds k in
    let s₁ = k₁.schedule in
    let s₂ =
      if (s₁.process pid).in_death_list
      then record s₁ { death_list = remove_all pid s₁.death_list }
      else s₁ in
    let s₃ =
      if is_blocked (s₂.process pid).state
      then (unblock_process_with_reason pid (s₂.process pid).reason s₂).1
      else s₂ in
    wake_parent pid (record k₁ { schedule = s₃ })

-- `killProcess`, up to its interrupt.
unfoldable pub kill_process : ℕ → Kernel → Bool × Kernel
unfolding kill_node
kill_process pid k =
    if pid == k.schedule.init
    then (false, k)
    else (if find_by_pid k.schedule pid then kill_node pid k else (false, k))
