-- ===== src/Kernel/Redirects.antt =====
-- `dup2` and `revertFdReplacements` of Kernel/c/main/scheduler.c with their calls of `modifyOpenCount`.
use bizcocho_os.Prelude.{
  ℕ, ◌<◌, ◌≡◌, refl, ap, ◌∙◌, Bool, true, false, Bool-cases, inl, inr, ◌||◌, List, [], ◌∷◌, leb,
  ◌==◌, if◌then◌else◌, set, All, arith, update_self,
}
use bizcocho_os.Process.{Fd, Lost, Process, change, max_fd_count}
use bizcocho_os.Descriptors.{fd_at, running_fd, copy_fd, save_lost, dup2_entries, revert_entries}
use bizcocho_os.Pipe.{Pipe, size_mod}
use bizcocho_os.Kernel.{Kernel, one_more, one_less, add_units, counted, modify_open_count}

-- `dup2`: whether it succeeded, with the two allocations as in `dup2_entries`.
unfoldable pub dup2 : (for_lost for_node : Bool) → ℕ → ℕ → Kernel → Bool × Kernel
dup2 for_lost for_node from to k =
    let (done, s) = dup2_entries for_lost for_node from to k.schedule in
    let f = running_fd s to in
    let ps = if done then modify_open_count f.file_id one_more f.mode k.pipes else k.pipes in
    (done, record k { schedule = s; pipes = ps })

-- The calls of `modifyOpenCount` in the loop of `revertFdReplacements`, with the entries as the loop changes them.
unfoldable pub revert_counts : List Lost → List Fd → List Pipe → List Pipe
revert_counts [] fds ps = ps
revert_counts (l ∷ ls) fds ps =
    let f = fd_at fds l.index in
    revert_counts ls (set fds l.index (record { file_id = l.index; mode = l.lost_mode }))
      (modify_open_count f.file_id one_less f.mode ps)

-- `revertFdReplacements`
unfoldable pub revert_fd_replacements : Kernel → Kernel
unfolding revert_counts
revert_fd_replacements k =
    let p = k.schedule.process k.schedule.running in
    record k {
      schedule = revert_entries k.schedule;
      pipes = revert_counts p.replacements p.fds k.pipes;
    }

-- A pipe's counts are numbers of 64 bits.
abbrev pub IsCount : Pipe → Type 0
IsCount p = (p.current_open_count < size_mod) × (p.write_open_count < size_mod)

units_back : (n : ℕ) → n < size_mod → add_units one_less (add_units one_more n) ≡ n
units_back n h = omega arith

counted_back :
    (mode : ℕ) (p : Pipe) → IsCount p → counted one_less mode (counted one_more mode p) ≡ p
counted_back mode p h = elim (Bool-cases (mode == b'W')) [
  | inl writes ↦ rw (writes, units_back p.current_open_count h.0, units_back p.write_open_count h.1)
  | inr reads ↦ rw (reads, units_back p.current_open_count h.0)
]

modify_open_count-back :
    (id mode : ℕ) (ps : List Pipe)
    → All IsCount ps
    → modify_open_count id one_less mode (modify_open_count id one_more mode ps) ≡ ps
unfolding modify_open_count
modify_open_count-back id mode [] h = refl
modify_open_count-back id mode (p ∷ ps) h = elim (Bool-cases (p.file_id == id)) [
  | inl here ↦ rw here (rw here (ap (λ (q : Pipe). q ∷ ps) (counted_back mode p h.0)))
  | inr other ↦
      rw other (rw other (ap (λ (l : List Pipe). p ∷ l) (modify_open_count-back id mode ps h.1)))
]

copied_back :
    (from to : ℕ) (p : Process) (ps : List Pipe)
    → p.replacements ≡ []
    → All IsCount ps
    → let r = copy_fd from to (save_lost to p) in
      revert_counts r.replacements r.fds
        (modify_open_count (fd_at r.fds to).file_id one_more (fd_at r.fds to).mode ps)
      ≡ ps
unfolding revert_counts copy_fd save_lost
copied_back from to p ps none_yet small = rw none_yet (modify_open_count-back _ _ ps small)

-- `dup2` to a descriptor and then `revertFdReplacements`, in a process with no replacements before and with memory for the
-- saved entry, leaves every pipe with the counts that it had, whatever pipe either descriptor holds.
pub revert_fd_replacements-dup2 :
    (from to : ℕ) (k : Kernel)
    → (k.schedule.process k.schedule.running).replacements ≡ []
    → from < max_fd_count
    → to < max_fd_count
    → All IsCount k.pipes
    → (revert_fd_replacements (dup2 true true from to k).1).pipes ≡ k.pipes
unfolding revert_fd_replacements dup2 dup2_entries
revert_fd_replacements-dup2 from to k none_yet hf ht small =
    let s = k.schedule in
    let p = s.process s.running in
    let ok : (leb max_fd_count from || leb max_fd_count to || false) ≡ false = ground arith in
    let q = copy_fd from to (save_lost to p) in
    let t = change s s.running (λ p. copy_fd from to (save_lost to p)) in
    let first : t.process s.running ≡ q = update_self s.process s.running q in
    rw ok (
      ap
        (λ (r : Process).
          revert_counts r.replacements r.fds
            (modify_open_count (fd_at r.fds to).file_id one_more (fd_at r.fds to).mode k.pipes))
        first
      ∙ copied_back from to p k.pipes none_yet small)
