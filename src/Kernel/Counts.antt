-- ===== src/Kernel/Counts.antt =====
-- The open counts of the pipes, when a process's files are closed.
mod Release
pub use Release.{
  pipes_with, open_count, write_count, IsCounted, entries_of, writers_of, left_by, release_with,
  release_count, release_gone, release_writers,
}
use bizcocho_os.Prelude.{
  ℕ, ◌+◌, ◌-◌, ◌%◌, ◌≤◌, ◌<◌, ◌≡◌, refl, ◌∙◌, Bool, true, false, ◌&&◌, Option, none, some, List, [],
  ◌∷◌, arith, ◌==◌, ltb, if◌then◌else◌, Bool-cases, inl, inr,
}
use bizcocho_os.Process.{Fd}
use bizcocho_os.Pipe.{Pipe, size_mod}
use bizcocho_os.Kernel.{
  Kernel, one_less, counted, release_pipe, wake_readers, close_for_killing, holds_pipe, close_all,
}

-- What `closeForKilling` does to the list of pipes.
close_for_killing-left_by :
    (id mode : ℕ) (k : Kernel)
    → (close_for_killing id mode k).1.pipes ≡ left_by k.pipes (release_pipe id mode k.pipes)
unfolding close_for_killing
close_for_killing-left_by id mode k = woken (release_pipe id mode k.pipes)
  where
    woken : (r : Option (List Pipe × Bool)) → (wake_readers id k r).1.pipes ≡ left_by k.pipes r
    woken none = ground arith
    woken (some (qs, w)) = ground arith

-- One closing keeps the counts apart and takes one off the pipe's.
close_for_killing-open_count :
    (id mode : ℕ) (k : Kernel)
    → IsCounted k.pipes
    → 0 < open_count id k.pipes
    → IsCounted (close_for_killing id mode k).1.pipes
      × ((other : ℕ)
          → open_count other (close_for_killing id mode k).1.pipes
            ≡ (if other == id then open_count other k.pipes - 1 else open_count other k.pipes))
      × ((other : ℕ)
          → pipes_with other (close_for_killing id mode k).1.pipes
            ≡ (if other == id && open_count id k.pipes == 1 then 0 else pipes_with other k.pipes))
      × ((other : ℕ)
          → 0 < pipes_with other (close_for_killing id mode k).1.pipes
          → (write_count other (close_for_killing id mode k).1.pipes
                + (if other == id && mode == b'W' then 1 else 0))
              % size_mod
            ≡ write_count other k.pipes % size_mod)
close_for_killing-open_count id mode k c pos =
    let now = λ (other : ℕ). release_count id mode other k.pipes c.unique pos (c.small id) in
    let fewer = λ (other : ℕ). release_with id mode other k.pipes in
    rw (close_for_killing-left_by id mode k) (
      record {
        unique = λ other. omega (arith, fewer other, c.unique other);
        small = λ other. ground (arith, now other, c.small other);
      },
      now,
      λ other. release_gone id mode other k.pipes c.unique pos (c.small id),
      λ other left. release_writers id mode other k.pipes c.unique pos left,
    )

close_all_step :
    (f : Fd) (fs : List Fd) (k : Kernel)
    → close_all (f ∷ fs) k
      ≡ close_all fs (if holds_pipe f then (close_for_killing f.file_id f.mode k).1 else k)
unfolding close_all
close_all_step f fs k = refl

stays_on : (b : Bool) (n m : ℕ) → n ≡ (if b then 0 else m) → 0 < n → 0 < m
stays_on true n m e left = absurd (omega (arith, e, left))
stays_on false n m e left = omega (arith, e, left)

same_writer :
    (id file_id : ℕ) (w : Bool)
    → ◌≡◌ {A = ℕ} (if file_id == id && w then 1 else 0) (if id == file_id && w then 1 else 0)
same_writer id file_id w = ground arith

sum_writers :
    (a b w x y c : ℕ)
    → x ≡ y
    → (a + w) % size_mod ≡ b % size_mod
    → (b + y) % size_mod ≡ c % size_mod
    → (a + (x + w)) % size_mod ≡ c % size_mod
sum_writers a b w x y c e g h = omega (arith, e, g, h)

-- Closing the files of a process in `_killProcess`, where its entries are among those that are counted: the count
-- of open ends of each pipe falls by the entries that hold it, and a pipe is off the list exactly
-- where the process had all of its open ends, one at least; the other pipes stay on it. Of a pipe that
-- stays, the count of those that write falls, modulo 2^64, by the entries that hold it for writing.
pub close_all-open_count :
    (fds : List Fd) (k : Kernel)
    → IsCounted k.pipes
    → ((id : ℕ) → entries_of id fds ≤ open_count id k.pipes)
    → IsCounted (close_all fds k).pipes
      × ((id : ℕ)
          → open_count id (close_all fds k).pipes + entries_of id fds ≡ open_count id k.pipes)
      × ((id : ℕ)
          → pipes_with id (close_all fds k).pipes ≡ (
              if ltb 0 (entries_of id fds) && entries_of id fds == open_count id k.pipes
              then 0
              else pipes_with id k.pipes))
      × ((id : ℕ)
          → 0 < pipes_with id (close_all fds k).pipes
          → (write_count id (close_all fds k).pipes + writers_of id fds) % size_mod
            ≡ write_count id k.pipes % size_mod)
unfolding close_all
close_all-open_count [] k c enough = (c, λ id. omega arith, λ id. refl, λ id left. omega arith)
close_all-open_count (f ∷ fs) k c enough =
    rw (close_all_step f fs k) (elim (Bool-cases (holds_pipe f)) [
      | inr free ↦
          let ih = close_all-open_count fs k c (λ id. ground (arith, enough id)) in
          rw free (
            ih.0,
            λ id. ground (arith, ih.1 id),
            λ id. ground (arith, ih.2 id),
            λ id left. omega (arith, ih.3 id left),
          )
      | inl held ↦
          let one =
            close_for_killing-open_count f.file_id f.mode k c (ground (arith, enough f.file_id)) in
          let ih =
            close_all-open_count fs (close_for_killing f.file_id f.mode k).1 one.0
              (λ id. ground (arith, enough id, one.1 id)) in
          rw held (
            ih.0,
            λ id. ground (arith, ih.1 id, one.1 id, enough id),
            λ id. ground (arith, ih.2 id, one.1 id, one.2 id, enough id),
            λ id left.
                let still = stays_on _ _ _ (ih.2 id) left in
                sum_writers _ _ _ _ _ _ (same_writer id f.file_id (f.mode == b'W')) (ih.3 id left)
                  (one.3 id still),
          )
    ])
