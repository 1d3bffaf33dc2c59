-- ===== src/Shell/Jobs.antt =====
-- How the shell starts programs: `executeNonBuiltIn` and the loop of `bizcocho` in
-- Userland/SampleCodeModule/c/bizcocho.c, once a line is read. A call of the kernel is a step: others may run between
-- the parts that are functions of their own here, which are before and behind each wait, and between the two sides
-- of a pipe. The texts of the messages are left out.
pub mod Steps
pub mod Moving
pub mod Handover
mod Tests
use bizcocho_os.Prelude.{
  ℕ, zero, suc, ◌+◌, ◌*◌, ◌-◌, ◌%◌, ◌^◌, Bool, not, true, false, ◌&&◌, ◌||◌, Option, none, some,
  List, [], ◌∷◌, ltb, leb, ◌==◌, if◌then◌else◌, get_elem?,
}
use bizcocho_os.Strings.{Bytes}
use bizcocho_os.Scheduler.{change_priority}
use bizcocho_os.Kernel.{Kernel, close, kill_process}
use bizcocho_os.Kernel.Redirects.{dup2, revert_fd_replacements}
use bizcocho_os.Files.{mkpipe, open_pipe}
use bizcocho_os.Files.Printf.{Arg, number}
use bizcocho_os.Life.{Memory, start_parent_process, start_child_process}
use bizcocho_os.Shell.{
  max_token_length, max_pipe_name_size, CommandInfo, commands, parser, look_for_command_in_string,
}
use bizcocho_os.Shell.Print.{snprintf}

-- Which allocations of the kernel succeed in the calls of `executeNonBuiltIn`: two for each `dup2`, and those of
-- the start.
pub record Luck : Type 0 where
  pub in_lost : Bool
  pub in_node : Bool
  pub out_lost : Bool
  pub out_node : Bool
  pub start : Memory

-- `EMPTY` of the user library: no open file.
abbrev pub empty_fd : ℕ
empty_fd = 3

-- One of the two changes; `none` is `NO_CHANGE_FD`.
unfoldable pub change_fd : (for_lost for_node : Bool) → Option ℕ → ℕ → Kernel → Bool × Kernel
change_fd for_lost for_node none to k = (true, k)
change_fd for_lost for_node (some from) to k =
    let (done, k') = dup2 for_lost for_node from to k in
    if done then (true, (close from k').1) else (false, k')

-- The start in `executeNonBuiltIn`, in the background or not.
unfoldable pub start_program : Memory → ℕ → List ℕ → Bool → Kernel → ℕ × Kernel
start_program memory bizcocho_pid name background k =
    let (parent_pid, as_parent) = start_parent_process memory name 2 bizcocho_pid k in
    let (child_pid, as_child) = start_child_process memory name true k in
    let lowered = (change_priority child_pid 2 as_child.schedule).1 in
    if background
    then (parent_pid, as_parent)
    else (child_pid, record as_child { schedule = lowered })

-- `executeNonBuiltIn`: the pid, 0 where it fails.
unfoldable pub execute_non_built_in :
    Luck → ℕ → List ℕ → Option ℕ → Option ℕ → Bool → Kernel → ℕ × Kernel
unfolding start_program
execute_non_built_in luck bizcocho_pid name stdin_change stdout_change background k =
    let (in_done, k₁) = change_fd luck.in_lost luck.in_node stdin_change 0 k in
    let (out_done, k₂) = change_fd luck.out_lost luck.out_node stdout_change 1 k₁ in
    let (pid, k₃) = start_program luck.start bizcocho_pid name background k₂ in
    if not in_done
    then (0, k₁)
    else (if not out_done then (0, k₂) else (pid, revert_fd_replacements k₃))

-- A command that was found, and the rows of its arguments.
pub record FoundCommand : Type 0 where
  pub index : ℕ
  pub argc : ℕ
  pub rows : Bytes

-- `strcmp(argv[argc - 1], "&") == 0`, where there is an argument.
unfoldable pub in_background : FoundCommand → Bool
in_background f =
    let at = max_token_length * (f.argc - 1) in
    not (f.argc == 0) && (f.rows at == b'&' && f.rows (at + 1) == 0)

abbrev pub name_of : ℕ → List ℕ
name_of i = elim (get_elem? commands i) [ none ↦ [] | some c ↦ c.name ]

abbrev pub is_builtin : ℕ → Bool
is_builtin i = elim (get_elem? commands i) [ none ↦ false | some c ↦ c.builtin ]

-- What the shell does with a line: nothing, a message, a command of its own, a program, or a pipe.
pub data Plan : Type 0 where
  nothing : Plan
  no_such_command : Plan
  built_in_in_pipe : Plan
  run_built_in : FoundCommand → Plan
  run_program : FoundCommand → Plan
  run_pipe : FoundCommand → FoundCommand → Plan

abbrev pub found_of : Option (ℕ × ℕ) × Bytes → Option FoundCommand
found_of (none, rows) = none
found_of (some (i, argc), rows) = some (record { index = i; argc = argc; rows = rows })

-- The C string at an address of a row, of at most 60 characters.
unfoldable pub c_string : ℕ → Bytes → ℕ → List ℕ
c_string zero m p = []
c_string (suc n) m p = let rest = m p ∷ c_string n m (p + 1) in if m p == 0 then [] else rest

unfoldable pub plan_one : Option FoundCommand → Plan
plan_one none = no_such_command
plan_one (some f) = if is_builtin f.index then run_built_in f else run_program f

unfoldable pub plan_two : Option FoundCommand → Option FoundCommand → Plan
plan_two (some f) (some g) =
    if is_builtin f.index || is_builtin g.index then built_in_in_pipe else run_pipe f g
plan_two _ _ = no_such_command

-- The round of `bizcocho` from the tokens at the bars to the first call of the kernel. All rows of
-- arguments are 0 before.
unfoldable pub plan_tokens : ℕ → Bytes → Plan
unfolding c_string plan_one plan_two
plan_tokens count rows =
    let command =
      λ (at : ℕ). found_of (look_for_command_in_string (c_string 60 rows at) (λ _. 0)) in
    let left = command 0 in
    if count == 0
    then nothing
    else (if count == 1 then plan_one left else plan_two left (command max_token_length))

-- The round of `bizcocho` for a line.
unfoldable pub plan_line : List ℕ → Plan
unfolding plan_tokens
plan_line line =
    let (count, rows) = parser b'|' 2 line (λ _. 0) in
    let n : ℕ = elim count [ none ↦ 2 ^ 8 - 1 | some c ↦ c % 2 ^ 8 ] in plan_tokens n rows

-- A single program: its pid, and whether the shell waits for it.
unfoldable pub run_one : Luck → ℕ → FoundCommand → Kernel → (ℕ × Bool) × Kernel
unfolding execute_non_built_in in_background
run_one luck bizcocho_pid f k =
    let background = in_background f in
    let (pid, k') =
      execute_non_built_in luck bizcocho_pid (name_of f.index)
        (if background then some empty_fd else none) none background k in
    ((pid, not background), k')

-- Where the start of a pipe ends: a message, or the pid of a side.
pub data Side : Type 0 where
  no_pipe : Side
  no_write_end : Side
  no_read_end : Side
  not_started : Side
  started : ℕ → Side

abbrev pub side_of : ℕ × Kernel → Side × Kernel
side_of (pid, k) = (if pid == 0 then not_started else started pid, k)

abbrev pub pipe_name : ℕ → List ℕ
pipe_name pipes_created =
    elim (snprintf max_pipe_name_size (b'P' ∷ b'i' ∷ b'p' ∷ b'e' ∷ b' ' ∷ b'%' ∷ b'd' ∷ [])
      (number pipes_created ∷ [])) [ none ↦ [] | some name ↦ name ]

-- The left side: the pipe, its writing end, and the program, with `pipesCreated` before and behind.
unfoldable pub run_left :
    (for_pipe for_node : Bool) → Luck → ℕ → ℕ → FoundCommand → Kernel → Side × ℕ × Kernel
unfolding execute_non_built_in in_background
run_left for_pipe for_node luck bizcocho_pid pipes_created f k =
    let name = pipe_name pipes_created in
    let background = in_background f in
    let (made, k₁) = mkpipe for_pipe for_node [] name k in
    let counted = (pipes_created + 1) % 2 ^ 32 in
    let (opened, k₂) = open_pipe name b'W' k₁ in
    if not made then (no_pipe, pipes_created, k₁) else elim opened [
      | none ↦ (no_write_end, counted, k₂)
      | some fd ↦
          let (side, k₃) = side_of (
            execute_non_built_in luck bizcocho_pid (name_of f.index)
              (if background then some empty_fd else none) (some fd) background k₂) in
          (side, counted, k₃)
    ]

-- The right side: the reading end and the program. The left one is killed where that fails.
unfoldable pub run_right : Luck → ℕ → ℕ → ℕ → FoundCommand → Kernel → Side × Kernel
unfolding execute_non_built_in in_background
run_right luck bizcocho_pid pipes_created left_pid g k =
    let (opened, k₁) = open_pipe (pipe_name pipes_created) b'R' k in
    elim opened [
      | none ↦ (no_read_end, (kill_process left_pid k₁).1)
      | some fd ↦
          let (pid, k₂) =
            execute_non_built_in luck bizcocho_pid (name_of g.index) (some fd) none
              (in_background g) k₁ in
          let failed = (kill_process left_pid k₂).1 in
          if pid == 0 then (not_started, failed) else (started pid, k₂)
    ]
