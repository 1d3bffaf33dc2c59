-- ===== src/Shell/Jobs/Handover.antt =====
-- The end of a pipe goes from the shell to the program that `executeNonBuiltIn` starts.
use bizcocho_os.Prelude.{
  ℕ, ◌+◌, ◌≡◌, ◌≢◌, refl, ap, sym, ◌∙◌, Bool, true, false, none, some, List, [], ◌∷◌, ◌==◌,
  if◌then◌else◌, update_self, set, Bool-cases, inl, inr, arith,
}
use bizcocho_os.Process.{Fd, Lost, Process}
use bizcocho_os.Scheduler.{change_priority}
use bizcocho_os.Descriptors.{
  closed_fd, fd_at, running_fd, revert_entries, revert_process, revert_loop,
}
use bizcocho_os.Descriptors.Laws.{fd_at-set, length-set}
use bizcocho_os.Kernel.{Kernel, one_less, modify_open_count}
use bizcocho_os.Kernel.Counts.{open_count, entries_of}
use bizcocho_os.Kernel.Redirects.{revert_counts, revert_fd_replacements}
use bizcocho_os.Life.{start_child_process}
use bizcocho_os.Life.Starting.{all_memory, CanCopy, Starts, start_child_process-Starts}
use bizcocho_os.Shell.Jobs.{Luck, change_fd, execute_non_built_in}
use bizcocho_os.Shell.Jobs.Steps.{
  SameFiles, change_priority-SameFiles, one_less-open_count, Parent, start_child_process-Parent,
}
use bizcocho_os.Shell.Jobs.Moving.{
  my_fds, CanHand, handed, saved, pipe_there, entries_of-handed, Moves, moved, moved-Moves,
  change_fd-moved,
}

-- What the start of a program with the end of a pipe promises.
pub record Hands (fd to : ℕ) (k : Kernel) (r : ℕ × Kernel) : Type 0 where
  pub pid : r.0 ≡ k.schedule.next_pid
  pub program :
      (j : ℕ)
      → fd_at (r.1.schedule.process r.0).fds j ≡ (
          if j == fd
          then closed_fd
          else (if j == to then fd_at (my_fds k) fd else fd_at (my_fds k) j))
  pub shell :
      (j : ℕ) → running_fd r.1.schedule j ≡ (if j == fd then closed_fd else running_fd k.schedule j)
  pub nothing_saved : (r.1.schedule.process r.1.schedule.running).replacements ≡ []
  pub counts :
      (id : ℕ)
      → open_count id r.1.pipes + (if (fd_at (my_fds k) fd).file_id == id then 1 else 0)
        ≡ open_count id k.pipes + entries_of id (my_fds k)

-- `revertFdReplacements` where one entry is saved.
revert-one :
    (k : Kernel) (l : Lost) (fds : List Fd)
    → my_fds k ≡ fds
    → (k.schedule.process k.schedule.running).replacements ≡ l ∷ []
    → (my_fds (revert_fd_replacements k)
        ≡ set fds l.index (record { file_id = l.index; mode = l.lost_mode }))
      × ((revert_fd_replacements k).pipes
          ≡ modify_open_count (fd_at fds l.index).file_id one_less (fd_at fds l.index).mode k.pipes)
      × (((revert_fd_replacements k).schedule.process k.schedule.running).replacements ≡ [])
unfolding revert_fd_replacements revert_entries revert_process revert_loop revert_counts
revert-one k l fds at saved_one =
    let now =
      update_self k.schedule.process k.schedule.running
        (revert_process (k.schedule.process k.schedule.running)) in
    let back : revert_loop (k.schedule.process k.schedule.running).replacements (my_fds k)
        ≡ set fds l.index (record { file_id = l.index; mode = l.lost_mode }) =
      ap (λ (ls : List Lost). revert_loop ls (my_fds k)) saved_one
      ∙ ap (λ (fs : List Fd). revert_loop (l ∷ []) fs) at in
    let less : revert_counts (k.schedule.process k.schedule.running).replacements (my_fds k) k.pipes
        ≡ modify_open_count (fd_at fds l.index).file_id one_less (fd_at fds l.index).mode k.pipes =
      ap (λ (ls : List Lost). revert_counts ls (my_fds k) k.pipes) saved_one
      ∙ ap (λ (fs : List Fd). revert_counts (l ∷ []) fs k.pipes) at in
    (ap (λ (q : Process). q.fds) now ∙ back, less, ap (λ (q : Process). q.replacements) now)

-- It changes no other process.
revert-other :
    (k : Kernel) (x : ℕ)
    → x ≢ k.schedule.running
    → (revert_fd_replacements k).schedule.process x ≡ k.schedule.process x
unfolding revert_fd_replacements revert_entries
revert-other k x ne = let other : (x == k.schedule.running) ≡ false = ground arith in rw other refl

revert-running : (k : Kernel) → (revert_fd_replacements k).schedule.running ≡ k.schedule.running
unfolding revert_fd_replacements revert_entries
revert-running k = refl

module _ (fd to : ℕ) (k : Kernel) (h : CanHand fd to k) where
  handed_at :
      (j : ℕ)
      → fd_at (handed fd to k h) j ≡ (
          if j == fd
          then closed_fd
          else (if j == to then fd_at (my_fds k) fd else fd_at (my_fds k) j))
  handed_at j =
      let long = length-set (my_fds k) to (fd_at (my_fds k) fd) in
      fd_at-set (set (my_fds k) to (fd_at (my_fds k) fd)) fd j closed_fd
        (omega (arith, long, h.entries, h.inside))
      ∙ ap (λ (x : Fd). if j == fd then closed_fd else x)
          (fd_at-set (my_fds k) to j (fd_at (my_fds k) fd) (omega (arith, h.entries, h.standard)))

  -- The start behind the change.
  module _ (k₁ : Kernel) (m : Moves fd to k h k₁) (name : List ℕ) where
    abbrev child : ℕ × Kernel
    child = start_child_process all_memory name true k₁

    new : k₁.schedule.next_pid ≢ k₁.schedule.running
    new e = h.new (sym m.next_pid ∙ e ∙ m.running)

    can_copy : CanCopy (my_fds k₁) k₁.pipes
    can_copy =
        let held : (i : ℕ) → entries_of i (my_fds k₁) ≡ entries_of i (my_fds k) =
          λ i. ap (entries_of i) m.fds ∙ entries_of-handed fd to k h i in
        record {
          there = λ i some_now.
              omega (arith, m.counts i, h.can_copy.there i (omega (arith, some_now, held i)));
          room = λ i. omega (arith, m.counts i, held i, h.can_copy.room i);
        }

    starts : Starts k₁ child
    starts = start_child_process-Starts name true k₁ new m.unique can_copy

    abbrev behind_start : Kernel
    behind_start = record (child.1) { schedule = (change_priority child.0 2 child.1.schedule).1 }

    parent : Parent k₁ child.1
    parent = start_child_process-Parent name k₁ new

    same : SameFiles child.1.schedule behind_start.schedule
    same = change_priority-SameFiles child.0 2 child.1.schedule

    fds_now : my_fds behind_start ≡ handed fd to k h
    fds_now =
        ap (λ (x : ℕ). (behind_start.schedule.process x).fds) (same.running ∙ parent.running)
        ∙ same.fds k₁.schedule.running
        ∙ parent.fds
        ∙ m.fds

    replacements_now :
        (behind_start.schedule.process behind_start.schedule.running).replacements
        ≡ saved fd to k h ∷ []
    replacements_now =
        ap (λ (x : ℕ). (behind_start.schedule.process x).replacements)
          (same.running ∙ parent.running)
        ∙ same.replacements k₁.schedule.running
        ∙ parent.replacements
        ∙ m.replacements

    -- The child is not the process that runs.
    apart : child.0 ≢ behind_start.schedule.running
    apart e = new (sym starts.pid ∙ e ∙ same.running ∙ parent.running)

    child-fds : (behind_start.schedule.process child.0).fds ≡ handed fd to k h
    child-fds = same.fds child.0 ∙ starts.fds ∙ m.fds

    -- The standard file has its own number, so the entry is whole again.
    own_entry :
        (j : ℕ)
        → fd_at (my_fds (revert_fd_replacements behind_start)) j
          ≡ (if j == fd then closed_fd else fd_at (my_fds k) j)
    own_entry j =
        let f : Fd = record { file_id = to; mode = (fd_at (my_fds k) to).mode } in
        let long = length-set (set (my_fds k) to (fd_at (my_fds k) fd)) fd closed_fd in
        let long' = length-set (my_fds k) to (fd_at (my_fds k) fd) in
        let whole : f ≡ fd_at (my_fds k) to =
          ap (λ (i : ℕ). record { file_id = i; mode = (fd_at (my_fds k) to).mode }) (sym h.own) in
        let back =
          revert-one behind_start (saved fd to k h) (handed fd to k h) fds_now replacements_now in
        let at_j =
          ap (λ (l : List Fd). fd_at l j) back.0
          ∙ fd_at-set (handed fd to k h) to j f (omega (arith, long, long', h.entries, h.standard))
          ∙ ap (λ (x : Fd). if j == to then f else x) (handed_at j) in
        let near : (to == fd) ≡ false = ground (arith, h.behind, h.standard) in
        at_j ∙ elim (Bool-cases (j == to)) [
          | inl here ↦
              let e : j ≡ to = ground arith in
              let apart_now : (j == fd) ≡ false = ground (arith, e, near) in
              rw (here, apart_now) (whole ∙ ap (fd_at (my_fds k)) (sym e))
          | inr other ↦ rw other refl
        ]

    counts_now :
        (id : ℕ)
        → open_count id (revert_fd_replacements behind_start).pipes
            + (if (fd_at (my_fds k) fd).file_id == id then 1 else 0)
          ≡ open_count id k.pipes + entries_of id (my_fds k)
    counts_now id =
        let e = fd_at (my_fds k) fd in
        let back =
          revert-one behind_start (saved fd to k h) (handed fd to k h) fds_now replacements_now in
        let near : (to == fd) ≡ false = ground (arith, h.behind, h.standard) in
        let self : (to == to) ≡ true = ground arith in
        let at_to : fd_at (handed fd to k h) to ≡ e = handed_at to ∙ rw (near, self) refl in
        let pipes : (revert_fd_replacements behind_start).pipes
            ≡ modify_open_count e.file_id one_less e.mode child.1.pipes =
          back.1
          ∙ ap (λ (x : Fd). modify_open_count x.file_id one_less x.mode child.1.pipes) at_to in
        let held : (i : ℕ) → entries_of i (my_fds k₁) ≡ entries_of i (my_fds k) =
          λ i. ap (entries_of i) m.fds ∙ entries_of-handed fd to k h i in
        let there = pipe_there fd to k h in
        let less =
          one_less-open_count id e.file_id e.mode child.1.pipes
            (omega (arith, starts.counts e.file_id, m.counts e.file_id, there.0))
            (omega (arith, starts.counts e.file_id, can_copy.room e.file_id)) in
        let now = ap (open_count id) pipes in
        omega (arith, now, less, starts.counts id, m.counts id, held id)

    start-Hands : Hands fd to k (child.0, revert_fd_replacements behind_start)
    start-Hands = record {
      pid = starts.pid ∙ m.next_pid;
      program = λ j.
          ap (λ (q : Process). fd_at q.fds j) (revert-other behind_start child.0 apart)
          ∙ ap (λ (l : List Fd). fd_at l j) child-fds
          ∙ handed_at j;
      shell = own_entry;
      nothing_saved =
          ap (λ (x : ℕ). ((revert_fd_replacements behind_start).schedule.process x).replacements)
            (revert-running behind_start)
          ∙ (revert-one behind_start (saved fd to k h) (handed fd to k h) fds_now
              replacements_now).2;
      counts = counts_now;
    }

abbrev all_luck : Luck
all_luck = record {
  in_lost = true;
  in_node = true;
  out_lost = true;
  out_node = true;
  start = all_memory;
}

-- The two calls of a pipe: the writing end for the screen, and the reading end for the keyboard.
abbrev pub standard_of : Bool → ℕ
standard_of writes = if writes then 1 else 0

abbrev pub execute : Bool → ℕ → ℕ → List ℕ → Kernel → ℕ × Kernel
execute writes shell_pid fd name k =
    execute_non_built_in all_luck shell_pid name (if writes then none else some fd)
      (if writes then some fd else none) false k

-- `executeNonBuiltIn` in the foreground with the end of a pipe for one of the standard files, where there is memory and
-- the shell holds that end (`CanHand`): the program gets the next pid, and has that end in the place of the
-- standard file and else what the shell has; the shell has its own files as before, less that end, and no replacement
-- is left; and each pipe is counted once more for each entry of the shell that holds it, less the
-- one that it gave away.
pub execute_non_built_in-Hands :
    (writes : Bool) (shell_pid fd : ℕ) (name : List ℕ) (k : Kernel)
    → CanHand fd (standard_of writes) k
    → Hands fd (standard_of writes) k (execute writes shell_pid fd name k)
unfolding execute_non_built_in change_fd
execute_non_built_in-Hands true shell_pid fd name k h =
    rw (change_fd-moved fd 1 k h)
      (start-Hands fd 1 k h (moved fd 1 k h) (moved-Moves fd 1 k h) name)
execute_non_built_in-Hands false shell_pid fd name k h =
    rw (change_fd-moved fd 0 k h)
      (start-Hands fd 0 k h (moved fd 0 k h) (moved-Moves fd 0 k h) name)
