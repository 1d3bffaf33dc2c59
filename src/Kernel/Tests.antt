-- ===== src/Kernel/Tests.antt =====
-- The theorems on closing at a process with a pipe open.
use bizcocho_os.Pipe.{size_mod}
use bizcocho_os.Prelude.{
  ℕ, ◌+◌, ◌%◌, ◌<◌, ◌≡◌, ◌==◌, ◌&&◌, ltb, if◌then◌else◌, refl, true, [], ◌∷◌, arith,
}
use bizcocho_os.Kernel.{Kernel, close_all}
use bizcocho_os.Kernel.Counts.{
  IsCounted, pipes_with, open_count, write_count, entries_of, writers_of, close_all-open_count,
}
use bizcocho_os.Kernel.Redirects.{dup2, revert_fd_replacements, revert_fd_replacements-dup2}
use bizcocho_os.Samples.{some_fds, three, wrapping}

abbrev one_pipe : Kernel
one_pipe = record { schedule = three; pipes = wrapping ∷ []; next_file_id = 8 }

one_pipe-IsCounted : IsCounted one_pipe.pipes
one_pipe-IsCounted = record { unique = λ id. ground arith; small = λ id. ground arith }

close_all-open_count_example :
    IsCounted (close_all some_fds one_pipe).pipes
    × ((id : ℕ)
        → open_count id (close_all some_fds one_pipe).pipes + entries_of id some_fds
          ≡ open_count id one_pipe.pipes)
    × ((id : ℕ)
        → pipes_with id (close_all some_fds one_pipe).pipes ≡ (
            if ltb 0 (entries_of id some_fds)
              && entries_of id some_fds == open_count id one_pipe.pipes
            then 0
            else pipes_with id one_pipe.pipes))
    × ((id : ℕ)
        → 0 < pipes_with id (close_all some_fds one_pipe).pipes
        → (write_count id (close_all some_fds one_pipe).pipes + writers_of id some_fds) % size_mod
          ≡ write_count id one_pipe.pipes % size_mod)
close_all-open_count_example =
    close_all-open_count some_fds one_pipe one_pipe-IsCounted (λ id. ground arith)

-- Descriptor 4 holds the pipe.
revert_fd_replacements-dup2_example :
    (revert_fd_replacements (dup2 true true 4 1 one_pipe).1).pipes ≡ one_pipe.pipes
revert_fd_replacements-dup2_example =
    revert_fd_replacements-dup2 4 1 one_pipe refl (omega arith) (omega arith)
      ((omega arith, omega arith), tt)
