-- ===== src/Life/Starting.antt =====
-- The open counts of the pipes when a process starts, and when it ends again.
use bizcocho_os.Prelude.{
  ℕ, ◌+◌, ◌≤◌, ◌<◌, ◌≡◌, ◌≢◌, refl, ap, ◌∙◌, Bool, true, false, some, inl, inr, List, [], ◌∷◌,
  arith, ◌==◌, if◌then◌else◌, Bool-cases, update, update_self,
}
use bizcocho_os.Process.{is_ready_pid, Fd, Process, Schedule, mem}
use bizcocho_os.Pipe.{Pipe, size_mod}
use bizcocho_os.Kernel.{Kernel, one_more, modify_open_count, holds_pipe, close_all}
use bizcocho_os.Kernel.Counts.{pipes_with, open_count, IsCounted, entries_of, close_all-open_count}
use bizcocho_os.Life.{
  new_process, enlist, Memory, count_fds, copied_fds, start_process, start_child_process,
}

pub modify_open_count-pipes_with :
    (id i mode : ℕ) (ps : List Pipe)
    → pipes_with id (modify_open_count i one_more mode ps) ≡ pipes_with id ps
unfolding modify_open_count
modify_open_count-pipes_with id i mode [] = refl
modify_open_count-pipes_with id i mode (p ∷ ps) = elim (Bool-cases (p.file_id == i)) [
  | inl hit ↦ rw hit
  | inr miss ↦ rw (miss, modify_open_count-pipes_with id i mode ps)
]

pub modify_open_count-open_count :
    (id i mode : ℕ) (ps : List Pipe)
    → 0 < open_count i ps
    → open_count i ps + 1 < size_mod
    → open_count id (modify_open_count i one_more mode ps)
      ≡ open_count id ps + (if i == id then 1 else 0)
unfolding modify_open_count
modify_open_count-open_count id i mode [] pos small = absurd (omega arith)
modify_open_count-open_count id i mode (p ∷ ps) pos small = elim (Bool-cases (p.file_id == i)) [
  | inl hit ↦ rw hit (ground arith)
  | inr miss ↦
      let ih = modify_open_count-open_count id i mode ps (rw miss at pos) (rw miss at small) in
      rw miss (ground (arith, ih))
]

-- The descriptors are of pipes that are there, and no count is about to wrap.
pub record CanCopy (fds : List Fd) (ps : List Pipe) : Type 0 where
  pub there : (id : ℕ) → 0 < entries_of id fds → 0 < open_count id ps
  pub room : (id : ℕ) → open_count id ps + entries_of id fds < size_mod

CanCopy-tail :
    (f : Fd) (fds : List Fd) (ps : List Pipe)
    → holds_pipe f ≡ true
    → CanCopy (f ∷ fds) ps
    → CanCopy fds (modify_open_count f.file_id one_more f.mode ps)
CanCopy-tail f fds ps held c =
    let now = λ (id : ℕ).
      modify_open_count-open_count id f.file_id f.mode ps (c.there f.file_id (ground arith))
        (ground (arith, c.room f.file_id)) in
    record {
      there = λ id h. ground (arith, now id, c.there id);
      room = λ id. ground (arith, now id, c.room id);
    }

-- The copied descriptors are counted, each once, and the ids stay apart.
pub count_fds-open_count :
    (fds : List Fd) (ps : List Pipe)
    → CanCopy fds ps
    → (id : ℕ)
    → (open_count id (count_fds fds ps) ≡ open_count id ps + entries_of id fds)
      × (pipes_with id (count_fds fds ps) ≡ pipes_with id ps)
unfolding count_fds
count_fds-open_count [] ps c id = (omega arith, refl)
count_fds-open_count (f ∷ fds) ps c id = elim (Bool-cases (holds_pipe f)) [
  | inl held ↦
      let now =
        modify_open_count-open_count id f.file_id f.mode ps (c.there f.file_id (ground arith))
          (ground (arith, c.room f.file_id)) in
      let same = modify_open_count-pipes_with id f.file_id f.mode ps in
      let ih =
        count_fds-open_count fds (modify_open_count f.file_id one_more f.mode ps)
          (CanCopy-tail f fds ps held c) id in
      rw held (ground (arith, ih.0, now), ih.1 ∙ same)
  | inr free ↦
      let ih =
        count_fds-open_count fds ps
          (record {
            there = λ i h. ground (arith, c.there i);
            room = λ i. ground (arith, c.room i);
          })
          id in
      rw free (ground (arith, ih.0), ih.1)
]

abbrev pub all_memory : Memory
all_memory = record {
  for_pcb = true;
  for_stack = true;
  for_replacements = true;
  for_node = true;
  for_death_list = true;
}

abbrev my_fds : Kernel → List Fd
my_fds k = (k.schedule.process k.schedule.running).fds

-- What a start of a child promises, and what the closing in `_killProcess` undoes of it.
pub record Starts (k : Kernel) (r : ℕ × Kernel) : Type 0 where
  pub pid : r.0 ≡ k.schedule.next_pid
  pub fds : (r.1.schedule.process r.0).fds ≡ (k.schedule.process k.schedule.running).fds
  pub is_ready : is_ready_pid r.1.schedule r.0 ≡ true
  pub listed : mem r.0 (r.1.schedule.queues (r.1.schedule.process r.0).priority) ≡ true
  pub counts :
      (id : ℕ)
      → open_count id r.1.pipes
        ≡ open_count id k.pipes + entries_of id (k.schedule.process k.schedule.running).fds
  pub closed :
      (id : ℕ)
      → open_count id (close_all (r.1.schedule.process r.0).fds r.1).pipes ≡ open_count id k.pipes

closed_again :
    (fds : List Fd) (ps : List Pipe) (k' : Kernel)
    → ((id : ℕ) → pipes_with id ps ≤ 1)
    → CanCopy fds ps
    → k'.pipes ≡ count_fds fds ps
    → (id : ℕ) → open_count id (close_all fds k').pipes ≡ open_count id ps
closed_again fds ps k' u c e id =
    let now = λ (i : ℕ). count_fds-open_count fds ps c i in
    let counted : IsCounted k'.pipes =
      rw e (record { unique = λ i. rw (now i).1 (u i); small = λ i. rw (now i).0 (c.room i) }) in
    let enough : (i : ℕ) → entries_of i fds ≤ open_count i k'.pipes =
      λ i. rw (e, (now i).0) (omega arith) in
    let after = (close_all-open_count fds k' counted enough).1 id in
    let before : open_count id k'.pipes ≡ open_count id ps + entries_of id fds = rw e (now id).0 in
    omega (arith, after, before)

child_process :
    (parent pid : ℕ) (p : Process) (s : Schedule)
    → pid ≢ parent
    → (enlist (some parent) pid p s).process pid ≡ p
child_process parent pid p s ne = elim (Bool-cases (pid == parent)) [
  | inl same ↦ absurd (ground arith)
  | inr other ↦ rw other (update_self s.process pid p)
]

mem_first : (lists : ℕ → List ℕ) (i pid : ℕ) → mem pid (update lists i (pid ∷ lists i) i) ≡ true
unfolding mem
mem_first lists i pid = ground arith

abbrev child_of : List ℕ → Bool → Kernel → Process
child_of name dies k =
    new_process name (k.schedule.process k.schedule.running).priority k.schedule.running (my_fds k)
      dies

Starts-enlist :
    (name : List ℕ) (dies : Bool) (k k' : Kernel)
    → k.schedule.next_pid ≢ k.schedule.running
    → ((id : ℕ) → pipes_with id k.pipes ≤ 1)
    → CanCopy (my_fds k) k.pipes
    → k'.pipes ≡ count_fds (my_fds k) k.pipes
    → let s =
        enlist (some k.schedule.running) k.schedule.next_pid (child_of name dies k) k.schedule in
      k'.schedule.process ≡ s.process
      → k'.schedule.queues ≡ s.queues
      → Starts k (k.schedule.next_pid, k')
Starts-enlist name dies k k' ne u c ps processes queues =
    let pid = k.schedule.next_pid in
    let p = child_of name dies k in
    let at : k'.schedule.process pid ≡ p =
      ap (λ (f : ℕ → Process). f pid) processes
      ∙ child_process k.schedule.running pid p k.schedule ne in
    record {
      pid = refl;
      fds = ap (λ (q : Process). q.fds) at;
      is_ready = rw at;
      listed = rw (queues, at) (mem_first k.schedule.queues p.priority pid);
      counts = λ id. ap (open_count id) ps ∙ (count_fds-open_count (my_fds k) k.pipes c id).0;
      closed = λ id. rw at (closed_again (my_fds k) k.pipes k' u c ps id);
    }

pub start_child_process-Starts :
    (name : List ℕ) (dies : Bool) (k : Kernel)
    → k.schedule.next_pid ≢ k.schedule.running
    → ((id : ℕ) → pipes_with id k.pipes ≤ 1)
    → CanCopy (k.schedule.process k.schedule.running).fds k.pipes
    → Starts k (start_child_process all_memory name dies k)
unfolding start_child_process start_process copied_fds
start_child_process-Starts name false k ne u c = Starts-enlist name false k _ ne u c refl refl refl
start_child_process-Starts name true k ne u c = Starts-enlist name true k _ ne u c refl refl refl
