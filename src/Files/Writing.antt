-- ===== src/Files/Writing.antt =====
-- What `write` does to a pipe and to the processes.
use bizcocho_os.Prelude.{
  ℕ, ◌≡◌, ◌≢◌, refl, ◌∙◌, Bool, true, false, not, ◌&&◌, some, inl, inr, List, [], ◌∷◌, arith, ◌==◌,
  if◌then◌else◌, Bool-cases,
}
use bizcocho_os.Process.{
  blocked as st_blocked, ready, is_blocked, same_reason, is_ready_pid, find_by_pid,
}
use bizcocho_os.Blocking.Laws.{IsListed, unblock_all_lem, block_process_with_reason_lem}
use bizcocho_os.Pipe.{Pipe, is_full, put_char, write_chars}
use bizcocho_os.Pipe.Ring.{IsValid}
use bizcocho_os.Pipe.Transfer.{Wrote, write_chars-Wrote}
use bizcocho_os.Kernel.{Kernel, find_pipe, read_reason}
use bizcocho_os.Files.{Written, waits_for_room, put_pipe, write_reason, end_write, write_pipe}

pub find_pipe-id : (id : ℕ) (ps : List Pipe) (p : Pipe) → find_pipe id ps ≡ some p → p.file_id ≡ id
unfolding find_pipe
find_pipe-id id [] p e = absurd (cc)
find_pipe-id id (x ∷ ps) p e = elim (Bool-cases (x.file_id == id)) [
  | inl hit ↦ ground arith
  | inr miss ↦ find_pipe-id id ps p (rw miss at e)
]

-- A pipe that is put back is found under its id, and the others as before.
pub find_pipe-put_pipe :
    (o id : ℕ) (ps : List Pipe) (p q : Pipe)
    → find_pipe id ps ≡ some p
    → q.file_id ≡ id
    → find_pipe o (put_pipe id q ps) ≡ (if o == id then some q else find_pipe o ps)
unfolding find_pipe
find_pipe-put_pipe o id [] p q e same = absurd (cc)
find_pipe-put_pipe o id (x ∷ ps) p q e same = elim (Bool-cases (x.file_id == id)) [
  | inl hit ↦ ground arith
  | inr miss ↦ let ih = find_pipe-put_pipe o id ps p q (rw miss at e) same in ground (arith, ih)
]

write_chars-file_id :
    (woken : Bool) (cs : List ℕ) (p : Pipe) → (write_chars woken cs p).1.file_id ≡ p.file_id
unfolding write_chars put_char
write_chars-file_id woken [] p = refl
write_chars-file_id woken (c ∷ cs) p = elim (Bool-cases (not woken && is_full p)) [
  | inl full ↦ rw full
  | inr room ↦ rw room (write_chars-file_id false cs (put_char c p))
]

-- What is still to be written.
abbrev pub unwritten : Written → List ℕ
unwritten (waits_for_room cs) = cs
unwritten _ = []

-- What a part of `write` does to the pipe and to the processes.
pub record Effect (id : ℕ) (cs : List ℕ) (p : Pipe) (k : Kernel) (r : Written × Kernel)
    : Type 0 where
  pub pipe : Pipe
  pub found : find_pipe id r.1.pipes ≡ some pipe
  pub wrote : Wrote cs p (unwritten r.0, pipe)
  pub others : (o : ℕ) → o ≢ id → find_pipe o r.1.pipes ≡ find_pipe o k.pipes
  pub wakes :
      unwritten r.0 ≡ []
      → (q : ℕ) → is_blocked (k.schedule.process q).state ≡ true
      → same_reason (k.schedule.process q).reason (read_reason id) ≡ true
      → (r.1.schedule.process q).state ≡ ready
  pub sleeps :
      unwritten r.0 ≢ []
      → (q : ℕ) → q ≢ k.schedule.running
      → r.1.schedule.process q ≡ k.schedule.process q
  pub blocks :
      unwritten r.0 ≢ []
      → find_by_pid k.schedule k.schedule.running ≡ true
      → is_ready_pid k.schedule k.schedule.running ≡ true
      → IsListed r.1.schedule
        × (r.1.schedule.process k.schedule.running
            ≡ record (k.schedule.process k.schedule.running) {
              state = st_blocked;
              reason = write_reason id;
            })

end_write-Effect :
    (id : ℕ) (cs : List ℕ) (p : Pipe) (k : Kernel) (r : List ℕ × Pipe)
    → IsListed k.schedule
    → find_pipe id k.pipes ≡ some p
    → r.1.file_id ≡ id
    → Wrote cs p r
    → Effect id cs p k (end_write id k r)
unfolding end_write
end_write-Effect id cs p k ([], q) l e same w = record {
  pipe = q;
  found = find_pipe-put_pipe id id k.pipes p q e same ∙ ground arith;
  wrote = w;
  others = λ o ne. find_pipe-put_pipe o id k.pipes p q e same ∙ ground arith;
  wakes =
      λ _ n b r. let woken = unblock_all_lem (read_reason id) k.schedule l in rw (woken.1 n, b, r);
  sleeps = λ ne. absurd (ne refl);
  blocks = λ ne. absurd (ne refl);
}
end_write-Effect id cs p k (c ∷ rest, q) l e same w = record {
  pipe = q;
  found = find_pipe-put_pipe id id k.pipes p q e same ∙ ground arith;
  wrote = w;
  others = λ o ne. find_pipe-put_pipe o id k.pipes p q e same ∙ ground arith;
  wakes = λ none_left. absurd (cc);
  sleeps = λ _ n ne.
      let asleep =
        block_process_with_reason_lem k.schedule.running (write_reason id) k.schedule l in
      asleep.2 n ∙ ground arith;
  blocks = λ _ there able.
      let asleep =
        block_process_with_reason_lem k.schedule.running (write_reason id) k.schedule l in
      let self : (k.schedule.running == k.schedule.running) ≡ true = ground arith in
      (asleep.0, rw (asleep.1, there, able, self) at (asleep.2 k.schedule.running));
}

-- A call of `write` on a pipe that is there, up to its end or its block: the characters that it wrote are
-- behind those that waited, in order, and it blocks only on a full pipe. No other pipe changes. Where
-- all is written, every process that is blocked to read the pipe is made ready; where the writer
-- blocks, no other process changes, so that a reader stays blocked.
pub write_pipe-Effect :
    (id : ℕ) (cs : List ℕ) (k : Kernel) (p : Pipe)
    → IsListed k.schedule
    → find_pipe id k.pipes ≡ some p
    → IsValid p
    → Effect id cs p k (write_pipe false id cs k)
unfolding write_pipe
write_pipe-Effect id cs k p l e v =
    rw (e, write_pipe)
      (end_write-Effect id cs p k (write_chars false cs p) l e
        (write_chars-file_id false cs p ∙ find_pipe-id id k.pipes p e) (write_chars-Wrote cs p v))
