-- ===== src/Files/Opening.antt =====
-- The open counts of the pipes and the entries of the process that runs, in `open`.
use bizcocho_os.Prelude.{
  take, ℕ, zero, suc, ◌+◌, ◌-◌, ◌^◌, ◌≤◌, ◌<◌, ◌≡◌, refl, ap, false, ◌&&◌, ◌||◌, Option, none, some,
  inl, inr, List, [], ◌∷◌, arith, ◌==◌, if◌then◌else◌, Bool-cases, Option-cases, length, set,
  update_self,
}
use bizcocho_os.Process.{Fd, Process, max_fd_count}
use bizcocho_os.Semaphore.{same_name}
use bizcocho_os.Descriptors.{fd_at, set_fd, free_fd, open_file}
use bizcocho_os.Descriptors.Laws.{HasEntries, Lowest, free_fd-Lowest}
use bizcocho_os.Pipe.{Pipe, size_mod}
use bizcocho_os.Kernel.{Kernel, one_more, counted, holds_pipe}
use bizcocho_os.Kernel.Counts.{pipes_with, open_count, entries_of}
use bizcocho_os.Files.{max_name_size, find_named, change_named, count_open, open_pipe}

abbrev pub one_entry : ℕ → Fd → ℕ
one_entry id f = if holds_pipe f && f.file_id == id then 1 else 0

pub entries_of-set :
    (id : ℕ) (fds : List Fd) (i : ℕ) (f : Fd)
    → i < length fds
    → entries_of id (set fds i f) + one_entry id (fd_at fds i) ≡ entries_of id fds + one_entry id f
entries_of-set id [] i f h = absurd (omega arith)
entries_of-set id (x ∷ xs) zero f h = omega arith
entries_of-set id (x ∷ xs) (suc i) f h = omega (arith, entries_of-set id xs i f (omega arith))

find_named-pipes_with :
    (name : List ℕ) (ps : List Pipe) (p : Pipe)
    → find_named name ps ≡ some p
    → 1 ≤ pipes_with p.file_id ps
unfolding find_named
find_named-pipes_with name [] p e = absurd (cc)
find_named-pipes_with name (x ∷ ps) p e = elim (Bool-cases (same_name x.name name)) [
  | inl hit ↦ ground arith
  | inr miss ↦ let ih = find_named-pipes_with name ps p (rw miss at e) in omega (arith, ih)
]

open_count-change_named :
    (id mode : ℕ) (name : List ℕ) (ps : List Pipe) (p : Pipe)
    → ((k : ℕ) → pipes_with k ps ≤ 1)
    → open_count p.file_id ps + 1 < size_mod
    → find_named name ps ≡ some p
    → open_count id (change_named name (counted one_more mode) ps)
      ≡ open_count id ps + (if p.file_id == id then 1 else 0)
unfolding find_named
open_count-change_named id mode name [] p u small e = absurd (cc)
open_count-change_named id mode name (x ∷ ps) p u small e =
    elim (Bool-cases (same_name x.name name)) [
      | inl hit ↦
          let at : x ≡ p = ground arith in
          let room = rw at at small in rw (hit, at) (ground (arith, room))
      | inr miss ↦
          let later = rw miss at e in
          let there = find_named-pipes_with name ps p later in
          let apart : (x.file_id == p.file_id) ≡ false = ground (arith, there, u p.file_id) in
          let ih =
            open_count-change_named id mode name ps p (λ k. omega (arith, u k)) (rw apart at small)
              later in
          rw miss (ground (arith, ih, apart))
    ]

-- The entries of the process that runs.
abbrev pub running_fds : Kernel → List Fd
running_fds k = (k.schedule.process k.schedule.running).fds

-- What `open` promises: the pipe that it opened is counted once more.
pub record Conserves (k k' : Kernel) : Type 0 where
  pub balance :
      (id : ℕ)
      → open_count id k'.pipes + entries_of id (running_fds k)
        ≡ open_count id k.pipes + entries_of id (running_fds k')

Conserves-refl : (k : Kernel) → Conserves k k
Conserves-refl k = record { balance = λ id. refl }

-- The ids and counts of the pipes have room.
pub record HasRoom (ps : List Pipe) : Type 0 where
  pub unique : (id : ℕ) → pipes_with id ps ≤ 1
  pub small : (id : ℕ) → open_count id ps + 1 < size_mod
  pub in_range :
      (name : List ℕ) (p : Pipe)
      → find_named name ps ≡ some p
      → (2 < p.file_id) × (p.file_id < 2 ^ 15)

count_open-Conserves :
    (name : List ℕ) (mode : ℕ) (k : Kernel) (p : Pipe) (o : Option ℕ)
    → HasEntries k.schedule
    → HasRoom k.pipes
    → find_named name k.pipes ≡ some p
    → (mode == b'N') ≡ false
    → Lowest (max_fd_count - 4) 4 (running_fds k) o
    → Conserves k
        (count_open name mode k (elim o [
          | none ↦ (none, k.schedule)
          | some fd ↦ (some fd, set_fd k.schedule fd (record { file_id = p.file_id; mode = mode }))
        ])).1
count_open-Conserves name mode k p none h room e ok l = Conserves-refl k
count_open-Conserves name mode k p (some fd) h room e ok l = record {
  balance = λ id.
      let f : Fd = record { file_id = p.file_id; mode = mode } in
      let q = k.schedule.process k.schedule.running in
      let now : (set_fd k.schedule fd f).process k.schedule.running
          ≡ record q { fds = set q.fds fd f } =
        update_self k.schedule.process k.schedule.running (record q { fds = set q.fds fd f }) in
      let range = room.in_range name p e in
      let more =
        open_count-change_named id mode name k.pipes p room.unique (room.small p.file_id) e in
      let entries = entries_of-set id q.fds fd f (omega (arith, h, l.1)) in
      let freed : one_entry id (fd_at q.fds fd) ≡ 0 = ground (arith, l.2) in
      let taken : one_entry id f ≡ (if p.file_id == id then 1 else 0) = ground (arith, range, ok) in
      let after = ap (λ (r : Process). entries_of id r.fds) now in
      omega (arith, more, entries, freed, taken, after);
}

free_for-Conserves :
    (name : List ℕ) (mode : ℕ) (k : Kernel) (p : Pipe)
    → HasEntries k.schedule
    → HasRoom k.pipes
    → find_named name k.pipes ≡ some p
    → (mode == b'N') ≡ false
    → Conserves k (count_open name mode k (open_file p.file_id mode k.schedule)).1
unfolding open_file
free_for-Conserves name mode k p h room e ok =
    count_open-Conserves name mode k p (free_fd (max_fd_count - 4) 4 (running_fds k)) h room e ok
      (free_fd-Lowest (max_fd_count - 4) 4 (running_fds k))

-- `open` on every branch, where the ids of the pipes are unique, above 2 and below 2^15 and no count is about to wrap:
-- each pipe's count of open ends grows by as much as the entries of the process that runs hold it
-- more often than before.
pub open_pipe-Conserves :
    (name : List ℕ) (mode : ℕ) (k : Kernel)
    → HasEntries k.schedule
    → HasRoom k.pipes
    → Conserves k (open_pipe name mode k).1
unfolding open_pipe
open_pipe-Conserves name mode k h room =
    elim (Option-cases (find_named (take max_name_size name) k.pipes)) [
      | inl missing ↦ rw (missing, open_pipe) (Conserves-refl k)
      | inr (p, e) ↦ elim (Bool-cases (mode == b'W' || mode == b'R')) [
        | inl ok ↦
            rw (e, ok, open_pipe)
              (free_for-Conserves (take max_name_size name) mode k p h room e (ground arith))
        | inr bad ↦ rw (e, bad, open_pipe) (Conserves-refl k)
      ]
    ]
