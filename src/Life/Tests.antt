-- ===== src/Life/Tests.antt =====
-- A child of a process with a pipe open.
use bizcocho_os.Prelude.{refl, true, false, [], ◌∷◌, arith}
use bizcocho_os.Kernel.{Kernel}
use bizcocho_os.Life.{Memory, start_child_process}
use bizcocho_os.Life.Starting.{all_memory, CanCopy}
use bizcocho_os.Life.Failing.{Fails, start_child_process-Fails}
use bizcocho_os.Samples.{three, wrapping, some_fds}

abbrev with_pipe : Kernel
with_pipe = record { schedule = three; pipes = wrapping ∷ []; next_file_id = 8 }

with_pipe-CanCopy : CanCopy some_fds with_pipe.pipes
with_pipe-CanCopy = record { there = λ id h. ground arith; room = λ id. ground arith }

-- Memory for all but the node.
abbrev no_node : Memory
no_node = record all_memory { for_node = false }

start_child_process-Fails_example :
    Fails no_node with_pipe (start_child_process no_node (b'c' ∷ []) true with_pipe)
start_child_process-Fails_example =
    start_child_process-Fails no_node (b'c' ∷ []) true with_pipe refl with_pipe-CanCopy
