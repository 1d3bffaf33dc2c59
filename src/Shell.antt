-- ===== src/Shell.antt =====
-- The shell of Userland/SampleCodeModule/c/bizcocho.c: its table of commands, the tokens of a line, and
-- the command that a line names. The rows of tokens stand in a memory of their own, 30 bytes
-- each; the line is the list of its characters.
pub mod Rows
pub mod Words
pub mod Reading
pub mod Lookup
pub mod Builtins
pub mod Print
pub mod Jobs
mod Tests
use bizcocho_os.Prelude.{
  ℕ, zero, suc, ◌+◌, ◌*◌, ◌-◌, ◌%◌, ◌^◌, Bool, not, true, false, ◌&&◌, ◌||◌, Option, none, some,
  List, [], ◌∷◌, ◌==◌, if◌then◌else◌, update,
}
use bizcocho_os.Strings.{Bytes, Match, found, too_short, differs, str_prefix}

abbrev pub max_token_length : ℕ
max_token_length = 30

abbrev pub max_arg_count : ℕ
max_arg_count = 8

abbrev pub max_pipe_name_size : ℕ
max_pipe_name_size = 32

-- An entry of `commands`, less the program.
pub record CommandInfo : Type 0 where
  pub name : List ℕ
  pub builtin : Bool

abbrev pub command_info : List ℕ → Bool → CommandInfo
command_info name builtin = record { name = name; builtin = builtin }

unfoldable pub commands : List CommandInfo
commands =
    command_info (b'h' ∷ b'e' ∷ b'l' ∷ b'p' ∷ []) true
    ∷ command_info (b'm' ∷ b'e' ∷ b'm' ∷ []) true
    ∷ command_info (b'p' ∷ b's' ∷ []) true
    ∷ command_info (b'l' ∷ b'o' ∷ b'o' ∷ b'p' ∷ []) false
    ∷ command_info (b'k' ∷ b'i' ∷ b'l' ∷ b'l' ∷ []) true
    ∷ command_info (b'n' ∷ b'i' ∷ b'c' ∷ b'e' ∷ []) true
    ∷ command_info (b'b' ∷ b'l' ∷ b'o' ∷ b'c' ∷ b'k' ∷ []) true
    ∷ command_info (b'c' ∷ b'a' ∷ b't' ∷ []) false
    ∷ command_info (b'w' ∷ b'c' ∷ []) false
    ∷ command_info (b'f' ∷ b'i' ∷ b'l' ∷ b't' ∷ b'e' ∷ b'r' ∷ []) false
    ∷ command_info (b'p' ∷ b'i' ∷ b'p' ∷ b'e' ∷ []) true
    ∷ command_info (b's' ∷ b'e' ∷ b'm' ∷ []) true
    ∷ command_info (b'p' ∷ b'h' ∷ b'y' ∷ b'l' ∷ b'o' ∷ []) false
    ∷ command_info (b'm' ∷ b'o' ∷ b'n' ∷ b'k' ∷ b'e' ∷ []) true
    ∷ command_info (b'c' ∷ b'o' ∷ b'l' ∷ b'o' ∷ b'r' ∷ []) true
    ∷ command_info (b't' ∷ b'e' ∷ b's' ∷ b't' ∷ b's' ∷ b'y' ∷ b'n' ∷ b'c' ∷ []) false
    ∷ command_info (b't' ∷ b'e' ∷ b's' ∷ b't' ∷ b'm' ∷ b'm' ∷ []) false
    ∷ command_info (b't' ∷ b'e' ∷ b's' ∷ b't' ∷ b'p' ∷ b'r' ∷ b'i' ∷ b'o' ∷ []) false
    ∷ command_info (b't' ∷ b'e' ∷ b's' ∷ b't' ∷ b'p' ∷ b'r' ∷ b'o' ∷ b'c' ∷ []) false
    ∷ command_info (b'c' ∷ b'l' ∷ b'e' ∷ b'a' ∷ b'r' ∷ []) true
    ∷ command_info (b't' ∷ b'e' ∷ b's' ∷ b't' ∷ b's' ∷ b'h' ∷ b'm' ∷ []) false
    ∷ []

-- Where the loop of `parser` is: the token, the character in it, and the rows.
pub record Cursor : Type 0 where
  pub count : ℕ
  pub j : ℕ
  pub rows : Bytes

-- `buffer[count][j] = c`
abbrev pub put : ℕ → Cursor → Bytes
put c at = update at.rows (max_token_length * at.count + at.j) c

-- The token ends.
abbrev pub end_token : Cursor → Cursor
end_token at = record { count = at.count + 1; j = 0; rows = put 0 at }

-- One round of the loop: a separator, or a token that is full, ends the token and is not stored.
unfoldable pub parse_char : ℕ → ℕ → Cursor → Cursor
parse_char separator c at =
    if c == separator || at.j == max_token_length
    then (if not (at.j == 0) then end_token at else at)
    else record at { j = at.j + 1; rows = put c at }

unfoldable pub parse_loop : ℕ → ℕ → List ℕ → Cursor → Cursor
unfolding parse_char
parse_loop separator max [] at = at
parse_loop separator max (c ∷ cs) at =
    let further = parse_loop separator max cs (parse_char separator c at) in
    if at.count == max then at else further

-- `parser`: how many tokens, and the rows; `none` is -1.
unfoldable pub parser : ℕ → ℕ → List ℕ → Bytes → Option ℕ × Bytes
unfolding parse_loop
parser separator max string rows =
    let at = parse_loop separator max string (record { count = 0; j = 0; rows = rows }) in
    let last = if not (at.j == 0) then end_token at else at in
    if max == 0 then (none, rows) else (some last.count, last.rows)

-- The loop over the table in `lookForCommandInString`: the index, and `args`.
unfoldable pub find_command : ℕ → List CommandInfo → List ℕ → Option (ℕ × List ℕ)
find_command i [] string = none
find_command i (c ∷ cs) string =
    let further = find_command (i + 1) cs string in
    elim (str_prefix c.name string) [
      | found args ↦ some (i, args)
      | too_short ↦ further
      | differs ↦ further
    ]

-- The rest of `lookForCommandInString`.
unfoldable pub give_arguments : Bytes → Option (ℕ × List ℕ) → Option (ℕ × ℕ) × Bytes
give_arguments tokens none = (none, tokens)
give_arguments tokens (some (i, args)) =
    let (count, rows) = parser b' ' max_arg_count args tokens in
    let argc : ℕ = elim count [ none ↦ 2 ^ 8 - 1 | some n ↦ n % 2 ^ 8 ] in (some (i, argc), rows)

-- `lookForCommandInString`: the index, the number of arguments and their rows; `none` is -1.
unfoldable pub look_for_command_in_string : List ℕ → Bytes → Option (ℕ × ℕ) × Bytes
look_for_command_in_string string tokens = give_arguments tokens (find_command 0 commands string)
