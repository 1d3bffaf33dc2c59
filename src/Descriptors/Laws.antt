-- ===== src/Descriptors/Laws.antt =====
-- What the operations on descriptors promise.
use bizcocho_os.Prelude.{
  ℕ, zero, suc, ◌+◌, ◌-◌, ◌≤◌, ◌<◌, ◌≡◌, ◌≢◌, refl, ap, ◌∙◌, true, false, ◌||◌, List, [], ◌∷◌, leb,
  ◌==◌, if◌then◌else◌, arith, Bool-cases, inl, inr, Option, none, some, length, set, update_self,
}
use bizcocho_os.Process.{Fd, Process, Schedule, change, max_fd_count, no_file}
use bizcocho_os.Descriptors.{
  fd_at, running_fd, set_fd, free_fd, open_file, dup2_entries, revert_loop, save_lost, copy_fd,
  revert_process, revert_entries,
}

-- The process that runs has its 64 entries.
abbrev pub HasEntries : Schedule → Type 0
HasEntries s = length (s.process s.running).fds ≡ max_fd_count

pub fd_at-set :
    (fds : List Fd) (i j : ℕ) (f : Fd)
    → i < length fds
    → fd_at (set fds i f) j ≡ (if j == i then f else fd_at fds j)
fd_at-set [] i j f h = absurd (omega arith)
fd_at-set (x ∷ xs) zero zero f h = refl
fd_at-set (x ∷ xs) zero (suc j) f h = ground arith
fd_at-set (x ∷ xs) (suc i) zero f h = ground arith
fd_at-set (x ∷ xs) (suc i) (suc j) f h = ground (arith, fd_at-set xs i j f (omega arith))

-- What the loop of `openFile` finds: the lowest free entry from `ans` on, or that there is none.
abbrev pub Lowest : ℕ → ℕ → List Fd → Option ℕ → Type 0
Lowest fuel ans fds none = (i : ℕ) → ans ≤ i → i < ans + fuel → (fd_at fds i).file_id ≢ no_file
Lowest fuel ans fds (some k) =
    (ans ≤ k)
    × (k < ans + fuel)
    × ((fd_at fds k).file_id ≡ no_file)
    × ((i : ℕ) → ans ≤ i → i < k → (fd_at fds i).file_id ≢ no_file)

Lowest-next :
    (fuel ans : ℕ) (fds : List Fd) (o : Option ℕ)
    → (fd_at fds ans).file_id ≢ no_file
    → Lowest fuel (ans + 1) fds o
    → Lowest (suc fuel) ans fds o
Lowest-next fuel ans fds none taken h = λ i lo hi. elim (Bool-cases (i == ans)) [
  | inl same ↦ let at : i ≡ ans = ground arith in rw at taken
  | inr other ↦ h i (ground arith) (omega arith)
]
Lowest-next fuel ans fds (some k) taken h = (
  omega arith,
  omega arith,
  h.2,
  λ i lo hi. elim (Bool-cases (i == ans)) [
    | inl same ↦ let at : i ≡ ans = ground arith in rw at taken
    | inr other ↦ h.3 i (ground arith) hi
  ],
)

pub free_fd-Lowest : (fuel ans : ℕ) (fds : List Fd) → Lowest fuel ans fds (free_fd fuel ans fds)
unfolding free_fd
free_fd-Lowest zero ans fds = λ i lo hi. absurd (omega arith)
free_fd-Lowest (suc fuel) ans fds = elim (Bool-cases ((fd_at fds ans).file_id == no_file)) [
  | inl free ↦ rw free (omega arith, omega arith, ground arith, λ i lo hi. absurd (omega arith))
  | inr taken ↦ rw taken (
      Lowest-next fuel ans fds (free_fd fuel (ans + 1) fds) (ground arith)
        (free_fd-Lowest fuel (ans + 1) fds))
]

-- What `openFile` promises.
abbrev pub Opens : ℕ → ℕ → Schedule → Option ℕ × Schedule → Type 0
Opens file_id mode s (none, s') =
    (s' ≡ s) × ((i : ℕ) → 4 ≤ i → i < max_fd_count → (running_fd s i).file_id ≢ no_file)
Opens file_id mode s (some fd, s') =
    (4 ≤ fd)
    × (fd < max_fd_count)
    × ((running_fd s fd).file_id ≡ no_file)
    × ((i : ℕ) → 4 ≤ i → i < fd → (running_fd s i).file_id ≢ no_file)
    × ((j : ℕ)
        → running_fd s' j
          ≡ (if j == fd then record { file_id = file_id; mode = mode } else running_fd s j))

running_fd-set_fd :
    (s : Schedule) (fd j : ℕ) (f : Fd)
    → HasEntries s
    → fd < max_fd_count
    → running_fd (set_fd s fd f) j ≡ (if j == fd then f else running_fd s j)
running_fd-set_fd s fd j f h lt =
    let p = s.process s.running in
    ap (λ (q : Process). fd_at q.fds j)
      (update_self s.process s.running (record p { fds = set p.fds fd f }))
    ∙ fd_at-set p.fds fd j f (omega arith)

open_found :
    (file_id mode : ℕ) (s : Schedule) (o : Option ℕ)
    → HasEntries s
    → Lowest (max_fd_count - 4) 4 (s.process s.running).fds o
    → Opens file_id mode s (elim o [
      | none ↦ (none, s)
      | some fd ↦ (some fd, set_fd s fd (record { file_id = file_id; mode = mode }))
    ])
open_found file_id mode s none h l = (refl, l)
open_found file_id mode s (some fd) h l = (
  l.0,
  l.1,
  l.2,
  l.3,
  λ j. running_fd-set_fd s fd j (record { file_id = file_id; mode = mode }) h l.1,
)

-- `openFile` takes the lowest free entry from 4 on and changes no other; it fails, and changes nothing,
-- exactly when none of the entries 4 to 63 is free.
pub open_file-Opens :
    (file_id mode : ℕ) (s : Schedule)
    → HasEntries s
    → Opens file_id mode s (open_file file_id mode s)
unfolding open_file
open_file-Opens file_id mode s h =
    open_found file_id mode s (free_fd (max_fd_count - 4) 4 (s.process s.running).fds) h
      (free_fd-Lowest (max_fd_count - 4) 4 (s.process s.running).fds)

revert_empty : (p : Process) → (revert_process p).replacements ≡ []
unfolding revert_process
revert_empty p = refl

pub length-set : (l : List Fd) (i : ℕ) (v : Fd) → length (set l i v) ≡ length l
length-set [] i v = refl
length-set (x ∷ xs) zero v = refl
length-set (x ∷ xs) (suc i) v = ap suc (length-set xs i v)

-- A process with no replacements, after `dup2` and `revertFdReplacements`.
revert_copy :
    (from to : ℕ) (p : Process) (j : ℕ)
    → length p.fds ≡ max_fd_count
    → p.replacements ≡ []
    → to < max_fd_count
    → fd_at (revert_process (copy_fd from to (save_lost to p))).fds j
      ≡ (if j == to then record { file_id = to; mode = (fd_at p.fds to).mode } else fd_at p.fds j)
unfolding revert_process revert_loop copy_fd save_lost
revert_copy from to p j h none_yet ht =
    let fds = set p.fds to (fd_at p.fds from) in
    let f : Fd = record { file_id = to; mode = (fd_at p.fds to).mode } in
    let long = length-set p.fds to (fd_at p.fds from) in
    rw none_yet
      (fd_at-set fds to j f (omega arith) ∙ ground (arith, fd_at-set p.fds to j (fd_at p.fds from)))

-- `dup2` to a descriptor and then `revertFdReplacements`, in a process with no replacements before and
-- with memory for the saved entry: the descriptor has the file with the descriptor's own number and
-- the mode that it had before, all others are as before, and no replacement is left. So it has its
-- file back only if the id of that was the descriptor's number.
pub revert-dup2 :
    (from to : ℕ) (s : Schedule)
    → HasEntries s
    → (s.process s.running).replacements ≡ []
    → from < max_fd_count
    → to < max_fd_count
    → let s' = revert_entries (dup2_entries true true from to s).1 in
      (s'.running ≡ s.running)
      × ((s'.process s.running).replacements ≡ [])
      × ((j : ℕ)
          → fd_at (s'.process s.running).fds j ≡ (
              if j == to
              then record { file_id = to; mode = (running_fd s to).mode }
              else running_fd s j))
unfolding revert_entries dup2_entries
revert-dup2 from to s h none_yet hf ht =
    let p = s.process s.running in
    let ok : (leb max_fd_count from || leb max_fd_count to || false) ≡ false = ground arith in
    let q = copy_fd from to (save_lost to p) in
    let t = change s s.running (λ p. copy_fd from to (save_lost to p)) in
    let first : t.process s.running ≡ q = update_self s.process s.running q in
    let last : (change t s.running revert_process).process s.running ≡ revert_process q =
      update_self t.process s.running (revert_process (t.process s.running))
      ∙ ap revert_process first in
    rw ok (
      refl,
      ap (λ (r : Process). r.replacements) last ∙ revert_empty q,
      λ j. ap (λ (r : Process). fd_at r.fds j) last ∙ revert_copy from to p j h none_yet ht,
    )
