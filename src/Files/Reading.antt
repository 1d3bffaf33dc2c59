-- ===== src/Files/Reading.antt =====
-- What `read` does to a pipe and to the processes.
use bizcocho_os.Prelude.{
  ℕ, zero, suc, ◌≡◌, ◌≢◌, refl, ◌∙◌, Bool, true, false, some, inl, inr, List, arith, ltb,
  Bool-cases, ◌==◌,
}
use bizcocho_os.Process.{
  blocked as st_blocked, ready, is_blocked, same_reason, is_ready_pid, find_by_pid,
}
use bizcocho_os.Blocking.Laws.{IsListed, unblock_all_lem, block_process_with_reason_lem}
use bizcocho_os.Pipe.{Pipe, is_empty, drop_char, Stop, complete, ended, blocked, read_chars}
use bizcocho_os.Pipe.Ring.{IsValid}
use bizcocho_os.Pipe.Transfer.{Read, read_chars-Read}
use bizcocho_os.Kernel.{Kernel, find_pipe, read_reason}
use bizcocho_os.Files.{Got, got, waits_for_more, write_reason, end_read, read_pipe}
use bizcocho_os.Files.Writing.{find_pipe-id, find_pipe-put_pipe}

read_chars-file_id : (n : ℕ) (p : Pipe) → (read_chars n p).2.file_id ≡ p.file_id
unfolding read_chars drop_char
read_chars-file_id zero p = refl
read_chars-file_id (suc n) p = elim (Bool-cases (is_empty p)) [
  | inr some_wait ↦ rw some_wait (read_chars-file_id n (drop_char p))
  | inl empty ↦ elim (Bool-cases (ltb 0 p.write_open_count)) [
    | inl writers ↦ rw (empty, writers)
    | inr closed ↦ rw (empty, closed)
  ]
]

-- What `read` answers for a run of its loop.
abbrev pub answer : List ℕ → Stop → Got
answer cs complete = got cs
answer cs ended = got cs
answer cs (blocked n) = waits_for_more cs n

abbrev pub is_complete : Stop → Bool
is_complete complete = true
is_complete _ = false

abbrev pub is_blocked_stop : Stop → Bool
is_blocked_stop (blocked _) = true
is_blocked_stop _ = false

-- What a part of `read` does to the pipe and to the processes.
pub record Took (id n : ℕ) (p : Pipe) (k : Kernel) (r : Got × Kernel) : Type 0 where
  pub chars : List ℕ
  pub stop : Stop
  pub pipe : Pipe
  pub answers : r.0 ≡ answer chars stop
  pub found : find_pipe id r.1.pipes ≡ some pipe
  pub reads : Read n p (chars, stop, pipe)
  pub others : (o : ℕ) → o ≢ id → find_pipe o r.1.pipes ≡ find_pipe o k.pipes
  pub wakes :
      is_complete stop ≡ true
      → (q : ℕ) → is_blocked (k.schedule.process q).state ≡ true
      → same_reason (k.schedule.process q).reason (write_reason id) ≡ true
      → (r.1.schedule.process q).state ≡ ready
  pub sleeps :
      is_complete stop ≡ false
      → (q : ℕ) → q ≢ k.schedule.running
      → r.1.schedule.process q ≡ k.schedule.process q
  pub blocks :
      is_blocked_stop stop ≡ true
      → find_by_pid k.schedule k.schedule.running ≡ true
      → is_ready_pid k.schedule k.schedule.running ≡ true
      → IsListed r.1.schedule
        × (r.1.schedule.process k.schedule.running
            ≡ record (k.schedule.process k.schedule.running) {
              state = st_blocked;
              reason = read_reason id;
            })

end_read-Took :
    (id n : ℕ) (p q : Pipe) (k : Kernel) (cs : List ℕ) (s : Stop)
    → IsListed k.schedule
    → find_pipe id k.pipes ≡ some p
    → q.file_id ≡ id
    → Read n p (cs, s, q)
    → Took id n p k (end_read id k (cs, s, q))
unfolding end_read
end_read-Took id n p q k cs complete l e same w = record {
  chars = cs;
  stop = complete;
  pipe = q;
  answers = refl;
  reads = w;
  found = find_pipe-put_pipe id id k.pipes p q e same ∙ ground arith;
  others = λ o ne. find_pipe-put_pipe o id k.pipes p q e same ∙ ground arith;
  wakes =
      λ _ n b r. let woken = unblock_all_lem (write_reason id) k.schedule l in rw (woken.1 n, b, r);
  sleeps = λ bad. absurd (cc);
  blocks = λ bad. absurd (cc);
}
end_read-Took id n p q k cs ended l e same w = record {
  chars = cs;
  stop = ended;
  pipe = q;
  answers = refl;
  reads = w;
  found = find_pipe-put_pipe id id k.pipes p q e same ∙ ground arith;
  others = λ o ne. find_pipe-put_pipe o id k.pipes p q e same ∙ ground arith;
  wakes = λ bad. absurd (cc);
  sleeps = λ _ n ne. refl;
  blocks = λ bad. absurd (cc);
}
end_read-Took id n p q k cs (blocked m) l e same w = record {
  chars = cs;
  stop = blocked m;
  pipe = q;
  answers = refl;
  reads = w;
  found = find_pipe-put_pipe id id k.pipes p q e same ∙ ground arith;
  others = λ o ne. find_pipe-put_pipe o id k.pipes p q e same ∙ ground arith;
  wakes = λ bad. absurd (cc);
  sleeps = λ _ n ne.
      let asleep = block_process_with_reason_lem k.schedule.running (read_reason id) k.schedule l in
      asleep.2 n ∙ ground arith;
  blocks = λ _ there able.
      let asleep = block_process_with_reason_lem k.schedule.running (read_reason id) k.schedule l in
      let self : (k.schedule.running == k.schedule.running) ≡ true = ground arith in
      (asleep.0, rw (asleep.1, there, able, self) at (asleep.2 k.schedule.running));
}

-- A call of `read` for `n` characters of a pipe that is there, up to its end or its block: it takes
-- characters off the front of the pipe in order, and stops short only on an empty pipe. No other pipe
-- changes. Where it gets all `n`, every process that is blocked to write the pipe is made ready; else no
-- other process changes.
pub read_pipe-Took :
    (id n : ℕ) (k : Kernel) (p : Pipe)
    → IsListed k.schedule
    → find_pipe id k.pipes ≡ some p
    → IsValid p
    → Took id n p k (read_pipe id n k)
unfolding read_pipe
read_pipe-Took id n k p l e v =
    rw (e, read_pipe)
      (end_read-Took id n p (read_chars n p).2 k (read_chars n p).0 (read_chars n p).1 l e
        (read_chars-file_id n p ∙ find_pipe-id id k.pipes p e) (read_chars-Read n p v))
