-- ===== src/Shell/Jobs/Steps.antt =====
-- What each call of `executeNonBuiltIn` does to the descriptors of the processes and to the counts of the pipes.
use bizcocho_os.Prelude.{
  ℕ, ◌+◌, ◌-◌, ◌≤◌, ◌<◌, ◌≡◌, ◌≢◌, refl, ap, ◌∙◌, Bool, true, false, Option, none, some, List, [],
  ◌∷◌, ◌==◌, leb, if◌then◌else◌, update, Bool-cases, inl, inr, arith,
}
use bizcocho_os.Process.{
  Reason, Fd, Process, Schedule, change, max_fd_count, no_file, source_code, find_by_pid,
}
use bizcocho_os.Blocking.{set_ready, unblock_loop, unblock_all}
use bizcocho_os.Scheduler.{change_priority}
use bizcocho_os.Pipe.{Pipe, size_mod}
use bizcocho_os.Descriptors.{closed_fd, running_fd, set_fd, fd_to_file_id, close_file}
use bizcocho_os.Kernel.{
  Kernel, one_less, modify_open_count, find_pipe, release_pipe, read_reason, wake_readers, close,
}
use bizcocho_os.Life.{enlist, start_process, copied_fds, start_child_process}
use bizcocho_os.Life.Starting.{all_memory}
use bizcocho_os.Kernel.Counts.{pipes_with, open_count, left_by, release_count, release_with}

-- What a wake-up and a change of priority leave as it is.
pub record SameFiles (s s' : Schedule) : Type 0 where
  pub running : s'.running ≡ s.running
  pub next_pid : s'.next_pid ≡ s.next_pid
  pub fds : (x : ℕ) → (s'.process x).fds ≡ (s.process x).fds
  pub replacements : (x : ℕ) → (s'.process x).replacements ≡ (s.process x).replacements

-- A view of a process that `setProcessReady` keeps.
unblock_loop-keeps :
    {A : Type 0} (view : Process → A) (reason : Reason) (ps : List ℕ) (f : ℕ → Process)
    → ((p : Process) → view (set_ready p) ≡ view p)
    → (x : ℕ) → view ((unblock_loop reason ps f).0 x) ≡ view (f x)
unfolding unblock_loop
unblock_loop-keeps view reason [] f k x = refl
unblock_loop-keeps view reason (p ∷ ps) f k x = elim (Bool-cases ((f p).reason.id == reason.id)) [
  | inl woken ↦ rw woken (unblock_loop-keeps view reason ps (update f p (set_ready (f p))) k x ∙ at)
  | inr passed ↦ rw passed (unblock_loop-keeps view reason ps f k x)
]
  where
    at : view (update f p (set_ready (f p)) x) ≡ view (f x)
    at = elim (Bool-cases (x == p)) [
      | inl same ↦ let e : x ≡ p = ground arith in rw same (rw e (k (f p)))
      | inr other ↦ rw other refl
    ]

pub unblock_all-SameFiles : (reason : Reason) (s : Schedule) → SameFiles s (unblock_all reason s)
unfolding unblock_all
unblock_all-SameFiles reason s =
    let ps = s.blocked_lists (source_code reason.source) in
    record {
      running = refl;
      next_pid = refl;
      fds = unblock_loop-keeps (λ (p : Process). p.fds) reason ps s.process (λ p. refl);
      replacements =
          unblock_loop-keeps (λ (p : Process). p.replacements) reason ps s.process (λ p. refl);
    }

SameFiles-refl : (s : Schedule) → SameFiles s s
SameFiles-refl s = record {
  running = refl;
  next_pid = refl;
  fds = λ x. refl;
  replacements = λ x. refl;
}

change-view :
    {A : Type 0} (view : Process → A) (s : Schedule) (pid : ℕ) (f : Process → Process)
    → ((p : Process) → view (f p) ≡ view p)
    → (x : ℕ) → view ((change s pid f).process x) ≡ view (s.process x)
change-view view s pid f k x = elim (Bool-cases (x == pid)) [
  | inl same ↦ let e : x ≡ pid = ground arith in rw same (rw e (k (s.process pid)))
  | inr other ↦ rw other refl
]

pub change_priority-SameFiles :
    (pid new : ℕ) (s : Schedule) → SameFiles s (change_priority pid new s).1
unfolding change_priority
change_priority-SameFiles pid new s = elim (Bool-cases (leb 5 new)) [
  | inl bad ↦ rw bad (SameFiles-refl s)
  | inr ok ↦ elim (Bool-cases (find_by_pid s pid)) [
    | inr missing ↦ rw (ok, missing) (SameFiles-refl s)
    | inl there ↦
        rw (ok, there)
          (record {
            running = refl;
            next_pid = refl;
            fds =
                change-view (λ (p : Process). p.fds) s pid
                  (λ (p : Process). record p { priority = new; remaining_quantum = 5 - new })
                  (λ p. refl);
            replacements =
                change-view (λ (p : Process). p.replacements) s pid
                  (λ (p : Process). record p { priority = new; remaining_quantum = 5 - new })
                  (λ p. refl);
          })
  ]
]

-- One unit less, where the pipe is there.
pub one_less-open_count :
    (id i mode : ℕ) (ps : List Pipe)
    → 0 < open_count i ps
    → open_count i ps < size_mod
    → open_count id (modify_open_count i one_less mode ps) + (if i == id then 1 else 0)
      ≡ open_count id ps
unfolding modify_open_count
one_less-open_count id i mode [] pos small = absurd (omega arith)
one_less-open_count id i mode (p ∷ ps) pos small = elim (Bool-cases (p.file_id == i)) [
  | inl hit ↦ rw hit (ground arith)
  | inr miss ↦
      let ih = one_less-open_count id i mode ps (rw miss at pos) (rw miss at small) in
      rw miss (ground (arith, ih))
]

find_pipe-open :
    (id : ℕ) (ps : List Pipe) → 0 < open_count id ps → (p : Pipe) × (find_pipe id ps ≡ some p)
unfolding find_pipe
find_pipe-open id [] pos = absurd (omega arith)
find_pipe-open id (p ∷ ps) pos = elim (Bool-cases (p.file_id == id)) [
  | inl hit ↦ (p, rw hit refl)
  | inr miss ↦ let ih = find_pipe-open id ps (rw miss at pos) in (ih.0, rw (miss, ih.1) refl)
]

-- The wake-up of `close` once the pipe is released.
wake_readers-SameFiles :
    (id : ℕ) (k : Kernel) (r : Option (List Pipe × Bool))
    → SameFiles k.schedule (wake_readers id k r).1.schedule
unfolding wake_readers
wake_readers-SameFiles id k none = SameFiles-refl k.schedule
wake_readers-SameFiles id k (some (ps, false)) = SameFiles-refl k.schedule
wake_readers-SameFiles id k (some (ps, true)) = unblock_all-SameFiles (read_reason id) k.schedule

wake_readers-left_by :
    (id : ℕ) (k : Kernel) (r : Option (List Pipe × Bool))
    → (wake_readers id k r).1.pipes ≡ left_by k.pipes r
unfolding wake_readers
wake_readers-left_by id k none = refl
wake_readers-left_by id k (some (ps, last)) = refl

-- What `close` comes to on a descriptor of a pipe.
pub record Closes (fd id : ℕ) (k k' : Kernel) : Type 0 where
  pub files : SameFiles (set_fd k.schedule fd closed_fd) k'.schedule
  pub counts :
      (other : ℕ)
      → open_count other k'.pipes
        ≡ (if other == id then open_count other k.pipes - 1 else open_count other k.pipes)
  pub unique : (other : ℕ) → pipes_with other k'.pipes ≤ pipes_with other k.pipes

fd_to_file_id-any :
    (fd : ℕ) (f : Fd) (s : Schedule)
    → running_fd s fd ≡ f
    → leb max_fd_count fd ≡ false
    → fd_to_file_id fd 0 s ≡ (f.file_id, f.mode)
unfolding fd_to_file_id
fd_to_file_id-any fd f s at inside = rw (inside, at) refl

close_file-step :
    (fd : ℕ) (f : Fd) (s : Schedule)
    → running_fd s fd ≡ f
    → leb max_fd_count fd ≡ false
    → (f.mode == b'N') ≡ false
    → close_file fd s ≡ (true, set_fd s fd closed_fd)
unfolding close_file
close_file-step fd f s at inside mode = rw (inside, at, mode) refl

close-step :
    (fd : ℕ) (f : Fd) (p : Pipe) (k : Kernel)
    → running_fd k.schedule fd ≡ f
    → leb max_fd_count fd ≡ false
    → (f.mode == b'N') ≡ false
    → (f.file_id == no_file) ≡ false
    → find_pipe f.file_id k.pipes ≡ some p
    → close fd k
      ≡ wake_readers f.file_id
          (record k { schedule = set_fd k.schedule fd closed_fd })
          (release_pipe f.file_id f.mode k.pipes)
unfolding close
close-step fd f p k at inside mode id there =
    let ids = fd_to_file_id-any fd f k.schedule at inside in
    let closed = close_file-step fd f k.schedule at inside mode in
    let e₀ : (fd_to_file_id fd 0 k.schedule).0 ≡ f.file_id = ap (λ (r : ℕ × ℕ). r.0) ids in
    let e₁ : (fd_to_file_id fd 0 k.schedule).1 ≡ f.mode = ap (λ (r : ℕ × ℕ). r.1) ids in
    let c₀ : (close_file fd k.schedule).0 ≡ true = ap (λ (r : Bool × Schedule). r.0) closed in
    let c₁ : (close_file fd k.schedule).1 ≡ set_fd k.schedule fd closed_fd =
      ap (λ (r : Bool × Schedule). r.1) closed in
    rw (e₀, there, close, e₀, e₁, c₀, c₁, id) refl

pub close-Closes :
    (fd : ℕ) (f : Fd) (k : Kernel)
    → running_fd k.schedule fd ≡ f
    → fd < max_fd_count
    → (f.mode == b'N') ≡ false
    → (f.file_id == no_file) ≡ false
    → ((i : ℕ) → pipes_with i k.pipes ≤ 1)
    → 0 < open_count f.file_id k.pipes
    → open_count f.file_id k.pipes < size_mod
    → Closes fd f.file_id k (close fd k).1
close-Closes fd f k at lt mode id unique pos small =
    let inside : leb max_fd_count fd ≡ false = ground arith in
    let there = find_pipe-open f.file_id k.pipes pos in
    let k₁ : Kernel = record k { schedule = set_fd k.schedule fd closed_fd } in
    let released = release_pipe f.file_id f.mode k.pipes in
    let left = wake_readers-left_by f.file_id k₁ released in
    rw (close-step fd f there.0 k at inside mode id there.1) (record {
      files = wake_readers-SameFiles f.file_id k₁ released;
      counts = λ other. rw left (release_count f.file_id f.mode other k.pipes unique pos small);
      unique = λ other. rw left (release_with f.file_id f.mode other k.pipes);
    })

-- What the parent keeps when its child is put on the lists.
enlist-view :
    {A : Type 0} (view : Process → A) (parent pid : ℕ) (q : Process) (s : Schedule)
    → pid ≢ parent
    → ((p : Process) (cs : List ℕ) → view (record p { children = cs }) ≡ view p)
    → view ((enlist (some parent) pid q s).process parent) ≡ view (s.process parent)
enlist-view view parent pid q s ne k =
    let self : (parent == parent) ≡ true = ground arith in
    let other : (parent == pid) ≡ false = ground arith in rw (self, other) (k (s.process parent) _)

-- The start of a child that may be ended by the keyboard, seen from its parent.
pub record Parent (k : Kernel) (k' : Kernel) : Type 0 where
  pub running : k'.schedule.running ≡ k.schedule.running
  pub fds :
      (k'.schedule.process k.schedule.running).fds ≡ (k.schedule.process k.schedule.running).fds
  pub replacements :
      (k'.schedule.process k.schedule.running).replacements
      ≡ (k.schedule.process k.schedule.running).replacements

pub start_child_process-Parent :
    (name : List ℕ) (k : Kernel)
    → k.schedule.next_pid ≢ k.schedule.running
    → Parent k (start_child_process all_memory name true k).1
unfolding start_child_process start_process copied_fds
start_child_process-Parent name k new =
    let me = k.schedule.running in
    let pid = k.schedule.next_pid in
    record {
      running = refl;
      fds = enlist-view (λ (p : Process). p.fds) me pid _ k.schedule new (λ p cs. refl);
      replacements =
          enlist-view (λ (p : Process). p.replacements) me pid _ k.schedule new (λ p cs. refl);
    }
