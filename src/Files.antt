-- ===== src/Files.antt =====
-- The calls of Kernel/c/ipc/files.c on pipes: `mkpipe`, `open`, `write` and `read`. What a call does up
-- to a block is one step; the process goes on with `write_pipe` or `read_pipe` when it is woken. The
-- process that runs is on the lists and ready, so that it does block.
-- Names have no 0 in them. There is memory for the node of a list of blocked processes.
pub mod Opening
pub mod Writing
pub mod Reading
pub mod Printf
pub mod Shared
mod Tests
use bizcocho_os.Prelude.{
  ℕ, ◌+◌, ◌-◌, ◌%◌, ◌^◌, Bool, true, false, not, ◌||◌, Option, none, some, List, [], ◌∷◌, ◌==◌,
  if◌then◌else◌, take,
}
use bizcocho_os.Process.{pipe_write, Reason, Schedule, no_file}
use bizcocho_os.Semaphore.{same_name}
use bizcocho_os.Blocking.{unblock_all, block_process_with_reason}
use bizcocho_os.Descriptors.{fd_to_file_id, open_file}
use bizcocho_os.Pipe.{Pipe, write_chars, read_chars, Stop, complete, ended, blocked}
use bizcocho_os.Kernel.{Kernel, one_more, counted, find_pipe, read_reason}

-- `MAX_PIPE_NAME_SIZE`
abbrev pub max_name_size : ℕ
max_name_size = 32

-- `find` on the pipes by `cmpFileName`.
unfoldable pub find_named : List ℕ → List Pipe → Option Pipe
unfolding same_name
find_named name [] = none
find_named name (p ∷ ps) =
    let rest = find_named name ps in if same_name p.name name then some p else rest

-- The C string two bytes behind the start of a name; `rest` stands behind a name of one character or none.
abbrev pub behind_id : List ℕ → List ℕ → List ℕ
behind_id rest (a ∷ b ∷ cs) = cs
behind_id rest _ = rest

-- `mkpipe`. It passes the name where `cmpFileName` reads a `pipeFile_t`, whose name is behind the id.
-- The Booleans say of the allocations whether they succeed; where `add` fails the list is lost.
unfoldable pub mkpipe : (for_pipe for_node : Bool) → List ℕ → List ℕ → Kernel → Bool × Kernel
unfolding find_named
mkpipe for_pipe for_node rest name k =
    let p : Pipe = record {
      file_id = k.next_file_id;
      name = take max_name_size name;
      buffer = λ _. 0;
      reading_index = 0;
      writing_index = 0;
      write_open_count = 0;
      current_open_count = 0;
    } in
    let numbered = record k { next_file_id = (k.next_file_id + 1) % 2 ^ 16 } in
    elim (find_named (behind_id rest name) k.pipes) [
      | some _ ↦ (false, k)
      | none ↦
          if not for_pipe
          then (false, k)
          else (if for_node
              then (true, record numbered { pipes = p ∷ k.pipes })
              else (false, record numbered { pipes = [] }))
    ]

-- Writes through the pointer that `find` gave.
abbrev pub change_named : List ℕ → (Pipe → Pipe) → List Pipe → List Pipe
change_named name f [] = []
change_named name f (p ∷ ps) =
    let rest = p ∷ change_named name f ps in if same_name p.name name then f p ∷ ps else rest

-- The end of `open`, once the entry is taken.
abbrev pub count_open : List ℕ → ℕ → Kernel → Option ℕ × Schedule → Option ℕ × Kernel
count_open name mode k (none, s) = (none, k)
count_open name mode k (some fd, s) =
    (some fd, record k { schedule = s; pipes = change_named name (counted one_more mode) k.pipes })

-- `open`: the descriptor, or `none` for -1.
unfoldable pub open_pipe : List ℕ → ℕ → Kernel → Option ℕ × Kernel
unfolding find_named
open_pipe name mode k = elim (find_named (take max_name_size name) k.pipes) [
  | none ↦ (none, k)
  | some p ↦
      if mode == b'W' || mode == b'R'
      then count_open (take max_name_size name) mode k (open_file p.file_id mode k.schedule)
      else (none, k)
]

-- What a part of `write` comes to: an error message and -1, the screen (in the format of errors or not), the
-- end, or a block with what is still to be written.
pub data Written : Type 0 where
  refused : Written
  on_screen : Bool → Written
  finished_writing : Written
  waits_for_room : List ℕ → Written

-- The pipe behind the pointer, after the transfer.
abbrev pub put_pipe : ℕ → Pipe → List Pipe → List Pipe
put_pipe id q [] = []
put_pipe id q (p ∷ ps) = let rest = p ∷ put_pipe id q ps in if p.file_id == id then q ∷ ps else rest

abbrev pub write_reason : ℕ → Reason
write_reason id = record { source = pipe_write; id = id }

-- `write` after a run of its loop, with what is left.
unfoldable pub end_write : ℕ → Kernel → List ℕ × Pipe → Written × Kernel
end_write id k ([], q) = (
  finished_writing,
  record k { pipes = put_pipe id q k.pipes; schedule = unblock_all (read_reason id) k.schedule },
)
end_write id k (c ∷ cs, q) = (
  waits_for_room (c ∷ cs),
  record k {
    pipes = put_pipe id q k.pipes;
    schedule = (block_process_with_reason true k.schedule.running (write_reason id) k.schedule).1;
  },
)

-- The `default` case of `write`; `woken` says that it goes on behind the block.
unfoldable pub write_pipe : Bool → ℕ → List ℕ → Kernel → Written × Kernel
unfolding end_write
write_pipe woken id cs k = elim (find_pipe id k.pipes) [
  | none ↦ (refused, k)
  | some p ↦ end_write id k (write_chars woken cs p)
]

-- `write`; the descriptor is cut to 8 bits.
unfoldable pub write : ℕ → List ℕ → Kernel → Written × Kernel
unfolding write_pipe
write fd cs k =
    let id = (fd_to_file_id (fd % 2 ^ 8) b'W' k.schedule).0 in
    if id == no_file || id == 0
    then (refused, k)
    else (if id == 1
        then (on_screen false, k)
        else (if id == 2 then (on_screen true, k) else write_pipe false id cs k))

-- What a part of `read` comes to: an error message and -1, the keyboard's loop, the characters and the
-- end, a block with so many still to read, or the block of a descriptor that is not open.
pub data Got : Type 0 where
  refused : Got
  from_keyboard : Got
  got : List ℕ → Got
  waits_for_more : List ℕ → ℕ → Got
  stuck : Got

-- `read` after a run of its loop.
unfoldable pub end_read : ℕ → Kernel → List ℕ × Stop × Pipe → Got × Kernel
end_read id k (cs, complete, q) = (
  got cs,
  record k { pipes = put_pipe id q k.pipes; schedule = unblock_all (write_reason id) k.schedule },
)
end_read id k (cs, ended, q) = (got cs, record k { pipes = put_pipe id q k.pipes })
end_read id k (cs, blocked n, q) = (
  waits_for_more cs n,
  record k {
    pipes = put_pipe id q k.pipes;
    schedule = (block_process_with_reason true k.schedule.running (read_reason id) k.schedule).1;
  },
)

-- The `default` case of `read`.
unfoldable pub read_pipe : ℕ → ℕ → Kernel → Got × Kernel
unfolding end_read
read_pipe id n k = elim (find_pipe id k.pipes) [
  | none ↦ (refused, k)
  | some p ↦ end_read id k (read_chars n p)
]

-- `read`; the id of the reason is -1 where the descriptor is not open for reading.
unfoldable pub read : ℕ → ℕ → Kernel → Got × Kernel
unfolding read_pipe
read fd n k =
    let id = (fd_to_file_id (fd % 2 ^ 8) b'R' k.schedule).0 in
    let minus_one : Reason = read_reason (2 ^ 32 - 1) in
    if id == no_file
    then (
      stuck,
      record k {
        schedule = (block_process_with_reason true k.schedule.running minus_one k.schedule).1;
      },
    )
    else (if id == 0
        then (from_keyboard, k)
        else (if id == 1 || id == 2 then (refused, k) else read_pipe id n k))
