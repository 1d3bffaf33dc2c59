-- ===== src/Shell/Jobs/Moving.antt =====
-- One end of a pipe in the place of a standard file of the shell: the changes of `executeNonBuiltIn` before its start.
use bizcocho_os.Prelude.{
  ℕ, zero, suc, ◌+◌, ◌≤◌, ◌<◌, ◌≡◌, ◌≢◌, refl, ap, ◌∙◌, true, false, ◌||◌, some, List, [], ◌∷◌,
  ◌==◌, leb, if◌then◌else◌, update_self, set, arith,
}
use bizcocho_os.Process.{Fd, Lost, Process, Schedule, change, max_fd_count, no_file}
use bizcocho_os.Descriptors.{closed_fd, fd_at, running_fd, set_fd, copy_fd, save_lost, dup2_entries}
use bizcocho_os.Descriptors.Laws.{HasEntries, fd_at-set, length-set}
use bizcocho_os.Pipe.{size_mod}
use bizcocho_os.Kernel.{Kernel, one_more, modify_open_count, holds_pipe, close}
use bizcocho_os.Kernel.Counts.{pipes_with, open_count, entries_of}
use bizcocho_os.Kernel.Redirects.{dup2}
use bizcocho_os.Files.Opening.{entries_of-set, one_entry}
use bizcocho_os.Life.Starting.{CanCopy, modify_open_count-open_count, modify_open_count-pipes_with}
use bizcocho_os.Shell.Jobs.{change_fd}
use bizcocho_os.Shell.Jobs.Steps.{Closes, close-Closes}

abbrev pub my_fds : Kernel → List Fd
my_fds k = (k.schedule.process k.schedule.running).fds

-- The shell holds the end of a pipe at `fd`, and the standard file with its own number at `to`; it has no replacements,
-- the next pid is new, and the counts of the pipes that it holds have room for a copy.
pub record CanHand (fd to : ℕ) (k : Kernel) : Type 0 where
  pub entries : HasEntries k.schedule
  pub none_yet : (k.schedule.process k.schedule.running).replacements ≡ []
  pub new : k.schedule.next_pid ≢ k.schedule.running
  pub unique : (i : ℕ) → pipes_with i k.pipes ≤ 1
  pub can_copy : CanCopy (my_fds k) k.pipes
  pub inside : fd < max_fd_count
  pub behind : 2 < fd
  pub standard : to ≤ 2
  pub own : (fd_at (my_fds k) to).file_id ≡ to
  pub held : holds_pipe (fd_at (my_fds k) fd) ≡ true

entries_of-fd_at : (id : ℕ) (fds : List Fd) (i : ℕ) → one_entry id (fd_at fds i) ≤ entries_of id fds
entries_of-fd_at id [] i = omega arith
entries_of-fd_at id (f ∷ fds) zero = omega arith
entries_of-fd_at id (f ∷ fds) (suc i) = omega (arith, entries_of-fd_at id fds i)

module _ (fd to : ℕ) (k : Kernel) (h : CanHand fd to k) where
  abbrev pub end_of : Fd
  end_of = fd_at (my_fds k) fd

  abbrev p : Process
  p = k.schedule.process k.schedule.running

  abbrev pub handed : List Fd
  handed = set (set (my_fds k) to end_of) fd closed_fd

  -- The pipe of the entry is there, with room for one more.
  pub pipe_there :
      (0 < open_count end_of.file_id k.pipes) × (open_count end_of.file_id k.pipes + 1 < size_mod)
  pipe_there =
      let one = entries_of-fd_at end_of.file_id (my_fds k) fd in
      let held = h.held in
      let self : (end_of.file_id == end_of.file_id) ≡ true = ground arith in
      let some_now : 0 < entries_of end_of.file_id (my_fds k) =
        omega (arith, rw (held, self) at one) in
      (
        h.can_copy.there end_of.file_id some_now,
        omega (arith, h.can_copy.room end_of.file_id, some_now),
      )

  pub entries_of-handed : (id : ℕ) → entries_of id handed ≡ entries_of id (my_fds k)
  entries_of-handed id =
      let long = h.entries in
      let moved = set (my_fds k) to end_of in
      let first = entries_of-set id (my_fds k) to end_of (omega (arith, long, h.standard)) in
      let second =
        entries_of-set id moved fd closed_fd
          (omega (arith, long, h.inside, length-set (my_fds k) to end_of)) in
      let at : fd_at moved fd ≡ end_of =
        fd_at-set (my_fds k) to fd end_of (omega (arith, long, h.standard)) ∙ ground arith in
      let std : one_entry id (fd_at (my_fds k) to) ≡ 0 = ground (arith, h.own, h.standard) in
      let none_now : one_entry id closed_fd ≡ 0 = refl in
      omega (arith, first, rw at at second, std, none_now)

  abbrev pub replaced : Schedule
  replaced = change k.schedule k.schedule.running (λ p. copy_fd fd to (save_lost to p))

  abbrev shell : Process
  shell = copy_fd fd to (save_lost to p)

  replaced-shell : replaced.process k.schedule.running ≡ shell
  replaced-shell = update_self k.schedule.process k.schedule.running shell

  shell-fds : shell.fds ≡ set (my_fds k) to end_of
  unfolding copy_fd save_lost
  shell-fds = refl

  replaced_at : (j : ℕ) → running_fd replaced j ≡ (if j == to then end_of else fd_at (my_fds k) j)
  replaced_at j =
      ap (λ (q : Process). fd_at q.fds j) replaced-shell
      ∙ ap (λ (l : List Fd). fd_at l j) shell-fds
      ∙ fd_at-set (my_fds k) to j end_of (omega (arith, h.entries, h.standard))

  dup2-step : dup2 true true fd to k ≡ (
    true,
    record k {
      schedule = replaced;
      pipes = modify_open_count end_of.file_id one_more end_of.mode k.pipes;
    },
  )
  unfolding dup2 dup2_entries
  dup2-step =
      let ok : (leb max_fd_count fd || leb max_fd_count to || false) ≡ false =
        ground (arith, h.inside, h.standard) in
      let self : (to == to) ≡ true = ground arith in
      let at : running_fd replaced to ≡ end_of = replaced_at to ∙ rw self refl in rw (ok, at) refl

  abbrev pub counted_once : Kernel
  counted_once = record k {
    schedule = replaced;
    pipes = modify_open_count end_of.file_id one_more end_of.mode k.pipes;
  }

  abbrev pub saved : Lost
  saved = record {
    index = to;
    lost_id = (fd_at (my_fds k) to).file_id;
    lost_mode = (fd_at (my_fds k) to).mode;
  }

  closes : Closes fd end_of.file_id counted_once (close fd counted_once).1
  closes =
      let here : running_fd replaced fd ≡ end_of =
        replaced_at fd ∙ ground (arith, h.behind, h.standard) in
      let mode : (end_of.mode == b'N') ≡ false = ground (arith, h.held) in
      let id : (end_of.file_id == no_file) ≡ false = ground (arith, h.held) in
      let now =
        modify_open_count-open_count end_of.file_id end_of.file_id end_of.mode k.pipes pipe_there.0
          pipe_there.1 in
      let self : (end_of.file_id == end_of.file_id) ≡ true = ground arith in
      let count : open_count end_of.file_id counted_once.pipes
          ≡ open_count end_of.file_id k.pipes + 1 =
        rw self at now in
      close-Closes fd end_of counted_once here h.inside mode id
        (λ i. rw (modify_open_count-pipes_with i end_of.file_id end_of.mode k.pipes) (h.unique i))
        (omega (arith, count)) (omega (arith, count, pipe_there.1))

  -- The change as a whole: the entry has moved, the old one is saved, and the counts are as before.
  pub record Moves (k' : Kernel) : Type 0 where
    pub running : k'.schedule.running ≡ k.schedule.running
    pub next_pid : k'.schedule.next_pid ≡ k.schedule.next_pid
    pub fds : my_fds k' ≡ handed
    pub replacements : (k'.schedule.process k'.schedule.running).replacements ≡ saved ∷ []
    pub counts : (i : ℕ) → open_count i k'.pipes ≡ open_count i k.pipes
    pub unique : (i : ℕ) → pipes_with i k'.pipes ≤ 1

  closed_shell :
      (set_fd replaced fd closed_fd).process k.schedule.running
      ≡ record shell { fds = set shell.fds fd closed_fd }
  closed_shell =
      let close_entry = λ (q : Process). record q { fds = set q.fds fd closed_fd } in
      update_self replaced.process k.schedule.running
        (close_entry (replaced.process k.schedule.running))
      ∙ ap close_entry replaced-shell

  shell-replacements : shell.replacements ≡ saved ∷ []
  unfolding copy_fd save_lost
  shell-replacements = ap (λ (l : List Lost). saved ∷ l) h.none_yet

  closed-Moves : (k' : Kernel) → Closes fd end_of.file_id counted_once k' → Moves k'
  closed-Moves k' c =
      let me = k.schedule.running in
      record {
        running = c.files.running;
        next_pid = c.files.next_pid;
        fds =
            ap (λ (x : ℕ). (k'.schedule.process x).fds) c.files.running
            ∙ c.files.fds me
            ∙ ap (λ (q : Process). q.fds) closed_shell
            ∙ ap (λ (l : List Fd). set l fd closed_fd) shell-fds;
        replacements =
            ap (λ (x : ℕ). (k'.schedule.process x).replacements) c.files.running
            ∙ c.files.replacements me
            ∙ ap (λ (q : Process). q.replacements) closed_shell
            ∙ shell-replacements;
        counts = λ i.
            let now =
              modify_open_count-open_count i end_of.file_id end_of.mode k.pipes pipe_there.0
                pipe_there.1 in
            ground (arith, c.counts i, now);
        unique = λ i.
            let same = modify_open_count-pipes_with i end_of.file_id end_of.mode k.pipes in
            omega (arith, c.unique i, same, h.unique i);
      }

  abbrev pub moved : Kernel
  moved = (close fd counted_once).1

  pub moved-Moves : Moves moved
  moved-Moves = closed-Moves moved closes

  pub change_fd-moved : change_fd true true (some fd) to k ≡ (true, moved)
  unfolding change_fd
  change_fd-moved = rw dup2-step refl
