-- ===== src/Reports/Tests.antt =====
-- A pipe with a process that waits to read from it.
use bizcocho_os.Prelude.{◌≡◌, ◌+◌, [], ◌∷◌, length, arith}
use bizcocho_os.Blocking.Laws.{IsListed}
use bizcocho_os.Kernel.{Kernel}
use bizcocho_os.Reports.{get_pipe_info}
use bizcocho_os.Reports.Pipes.{Reports, get_pipe_info-Reports}
use bizcocho_os.Samples.{three, wrapping}

abbrev waited_for : Kernel
waited_for = record { schedule = three; pipes = wrapping ∷ []; next_file_id = 8 }

three-IsListed : IsListed three
three-IsListed p code = ground arith

get_pipe_info-Reports_example :
    Reports three (wrapping ∷ []) (get_pipe_info 3 waited_for).0
    × ((get_pipe_info 3 waited_for).1 ≡ 3 + length (get_pipe_info 3 waited_for).0)
get_pipe_info-Reports_example = get_pipe_info-Reports 3 waited_for three-IsListed (omega arith)
