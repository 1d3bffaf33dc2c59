-- ===== src/Shell/Jobs/Tests.antt =====
-- A program that gets the reading end of a pipe, commands on pids, and a text through the filters.
use bizcocho_os.Prelude.{◌≡◌, refl, false, [], ◌∷◌, arith}
use bizcocho_os.Text.{convert}
use bizcocho_os.Blocking.{block_process}
use bizcocho_os.Kernel.{Kernel, kill_process}
use bizcocho_os.Samples.{three, wrapping}
use bizcocho_os.Shell.Builtins.{reply_of, kill, block}
use bizcocho_os.Shell.Builtins.Pids.{kill-convert}
use bizcocho_os.Shell.Jobs.Moving.{CanHand}
use bizcocho_os.Shell.Jobs.Handover.{Hands, execute, execute_non_built_in-Hands}

abbrev with_pipe : Kernel
with_pipe = record { schedule = three; pipes = wrapping ∷ []; next_file_id = 8 }

with_pipe-CanHand : CanHand 4 0 with_pipe
with_pipe-CanHand = record {
  entries = refl;
  none_yet = refl;
  new = omega arith;
  unique = λ i. ground arith;
  can_copy = record { there = λ id h. ground arith; room = λ id. ground arith };
  inside = omega arith;
  behind = omega arith;
  standard = omega arith;
  own = refl;
  held = refl;
}

execute_non_built_in-Hands_example :
    Hands 4 0 with_pipe (execute false 2 4 (b'w' ∷ b'c' ∷ []) with_pipe)
execute_non_built_in-Hands_example =
    execute_non_built_in-Hands false 2 4 (b'w' ∷ b'c' ∷ []) with_pipe with_pipe-CanHand

kill-convert_example :
    (kill 2 (convert 3 10 2 ∷ []) with_pipe ≡ reply_of 3 (kill_process 3 with_pipe))
    × (block 2 (convert 3 10 2 ∷ []) with_pipe
        ≡ reply_of 3
            ((block_process 3 three).0, record with_pipe { schedule = (block_process 3 three).1 }))
kill-convert_example = kill-convert 2 3 2 with_pipe (omega arith) (omega arith)
