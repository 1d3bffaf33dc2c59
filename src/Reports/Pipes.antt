-- ===== src/Reports/Pipes.antt =====
-- What `getPipeInfo` tells of the processes that wait at a pipe.
use bizcocho_os.Prelude.{
  ℕ, ◌≡◌, ◌∙◌, ◌&&◌, List, [], ◌∷◌, arith, ◌==◌, if◌then◌else◌, map, length, ◌+◌, ◌<◌, ◌^◌, refl,
}
use bizcocho_os.Process.{Process, Schedule, is_blocked, same_reason}
use bizcocho_os.Scheduler.Queues.{count}
use bizcocho_os.Blocking.Laws.{IsListed}
use bizcocho_os.Pipe.{Pipe}
use bizcocho_os.Kernel.{Kernel, read_reason}
use bizcocho_os.Files.{write_reason}
use bizcocho_os.Reports.{PipeInfo, blocked_on, pipe_info, get_pipe_info}

count-blocked_on :
    (p id : ℕ) (f : ℕ → Process) (l : List ℕ)
    → count p (blocked_on id f l) ≡ (if (f p).reason.id == id then count p l else 0)
unfolding blocked_on
count-blocked_on p id f [] = ground arith
count-blocked_on p id f (x ∷ xs) = ground (arith, count-blocked_on p id f xs)

-- The info names each process that is blocked at the pipe once, and no other.
pub record Names (s : Schedule) (p : Pipe) (info : PipeInfo) : Type 0 where
  pub reading :
      (q : ℕ)
      → count q info.blocked_by_reading ≡ (
          if is_blocked (s.process q).state
            && same_reason (s.process q).reason (read_reason p.file_id)
          then 1
          else 0)
  pub writing :
      (q : ℕ)
      → count q info.blocked_by_writing ≡ (
          if is_blocked (s.process q).state
            && same_reason (s.process q).reason (write_reason p.file_id)
          then 1
          else 0)

pipe_info-Names : (s : Schedule) (p : Pipe) → IsListed s → Names s p (pipe_info s p)
unfolding pipe_info
pipe_info-Names s p listed = record {
  reading =
      λ q. count-blocked_on q p.file_id s.process (s.blocked_lists 2) ∙ ground (arith, listed q 2);
  writing =
      λ q. count-blocked_on q p.file_id s.process (s.blocked_lists 3) ∙ ground (arith, listed q 3);
}

-- The answers stand for the pipes, one for one.
pub data Reports (s : Schedule) : List Pipe → List PipeInfo → Type 0 where
  no_pipes : Reports s [] []
  next_pipe :
      {p : Pipe} {ps : List Pipe} {info : PipeInfo} {infos : List PipeInfo}
      → Names s p info
      → Reports s ps infos
      → Reports s (p ∷ ps) (info ∷ infos)

length-map : (f : Pipe → PipeInfo) (ps : List Pipe) → length (map f ps) ≡ length ps
length-map f [] = refl
length-map f (p ∷ ps) = omega (arith, length-map f ps)

Reports-map : (s : Schedule) (ps : List Pipe) → IsListed s → Reports s ps (map (pipe_info s) ps)
Reports-map s [] listed = no_pipes
Reports-map s (p ∷ ps) listed = next_pipe (pipe_info-Names s p listed) (Reports-map s ps listed)

-- Where the size of the list has not wrapped, so that its array has place for all of them, `getPipeInfo`
-- answers for each pipe in the order of the list, and names as blocked by reading or by writing exactly the
-- processes that are blocked for that reason at the pipe, each once. The amount that it reports is more
-- than the number of answers by what stood in the memory of the list's size.
pub get_pipe_info-Reports :
    (garbage : ℕ) (k : Kernel)
    → IsListed k.schedule
    → garbage + length k.pipes < 2 ^ 32
    → let (infos, amount) = get_pipe_info garbage k in
      Reports k.schedule k.pipes infos × (amount ≡ garbage + length infos)
unfolding get_pipe_info
get_pipe_info-Reports garbage k listed room =
    let same = length-map (pipe_info k.schedule) k.pipes in
    (Reports-map k.schedule k.pipes listed, omega (arith, same, room))
