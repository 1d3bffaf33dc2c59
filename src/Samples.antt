-- ===== src/Samples.antt =====
-- Processes, schedules and pipes for the runs in the test modules.
use bizcocho_os.Prelude.{ℕ, true, false, List, [], ◌∷◌, zero, suc, ◌-◌, update}
use bizcocho_os.Process.{blocked, ready, no_block, pipe_read, Fd, Process, Schedule}
use bizcocho_os.Descriptors.{closed_fd}
use bizcocho_os.Pipe.{Pipe, size_mod}

abbrev pub copies : ℕ → Fd → List Fd
copies zero f = []
copies (suc n) f = f ∷ copies n f

-- A table with the standard files and a pipe to read from.
abbrev pub some_fds : List Fd
some_fds =
    record { file_id = 0; mode = b'R' }
    ∷ record { file_id = 1; mode = b'W' }
    ∷ record { file_id = 2; mode = b'W' }
    ∷ closed_fd
    ∷ record { file_id = 7; mode = b'R' }
    ∷ copies 59 closed_fd

abbrev pub idle : Process
idle = record {
  ppid = 1;
  name = [];
  stack_pointer = 0;
  state = ready;
  status_code = 0;
  fds = some_fds;
  replacements = [];
  priority = 4;
  reason = record { source = no_block; id = 0 };
  in_death_list = false;
  remaining_quantum = 1;
  children = [];
}

abbrev pub reader : Process
reader = record idle {
  state = blocked;
  reason = record { source = pipe_read; id = 7 };
  priority = 0;
}

-- Process 2 runs, 1 is the first one, 3 waits to read from the pipe 7.
abbrev pub three : Schedule
three = record {
  queues = update (update (λ _. []) 4 (2 ∷ 1 ∷ [])) 0 (3 ∷ []);
  process = update (update (λ _. idle) 2 (record idle { remaining_quantum = 0 })) 3 reader;
  running = 2;
  count = 3;
  started = true;
  next_pid = 4;
  init = 1;
  blocked_lists = update (λ _. []) 2 (3 ∷ []);
  death_list = [];
}

-- A pipe whose counters are about to wrap, with two characters in it.
abbrev pub wrapping : Pipe
wrapping = record {
  file_id = 7;
  name = [];
  buffer = λ i. i;
  reading_index = size_mod - 2;
  writing_index = 0;
  write_open_count = 1;
  current_open_count = 2;
}

-- A pipe with no free place.
abbrev pub filled : Pipe
filled = record wrapping { reading_index = 0; writing_index = 1023 }
