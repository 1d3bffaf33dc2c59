-- ===== src/Shell/Tests.antt =====
-- Lines that are typed, and what the shell makes of them.
use bizcocho_os.Prelude.{ℕ, zero, suc, ◌≡◌, refl, true, some, List, [], ◌∷◌, ◌++◌, arith}
use bizcocho_os.Strings.{Bytes}
use bizcocho_os.Shell.{
  parser, parse_loop, parse_char, look_for_command_in_string, commands, command_info,
}
use bizcocho_os.Shell.Words.{Tokenises, parser-Tokenises}
use bizcocho_os.Shell.Lookup.{Finds, look_for_command_in_string-Finds}
use bizcocho_os.Strings.Backspaces.{typed, Erases}
use bizcocho_os.Shell.Reading.{read_until_enter, read_until_enter-Erases}
use bizcocho_os.Shell.Jobs.{c_string}

abbrev no_rows : Bytes
no_rows = λ _. 0

-- "wc  &"
abbrev arguments : List ℕ
arguments = b' ' ∷ b'4' ∷ b'2' ∷ b' ' ∷ b' ' ∷ b'&' ∷ []

look_for_command_in_string-Finds_example :
    Finds 4
      ((b'4' ∷ b'2' ∷ []) ∷ (b'&' ∷ []) ∷ [])
      (look_for_command_in_string (b' ' ∷ b'k' ∷ b'i' ∷ b'l' ∷ b'l' ∷ arguments) no_rows)
unfolding commands
look_for_command_in_string-Finds_example =
    look_for_command_in_string-Finds 4 1 (command_info (b'k' ∷ b'i' ∷ b'l' ∷ b'l' ∷ []) true)
      arguments no_rows refl (omega arith) (omega arith)

parser-Tokenises_example :
    Tokenises
      ((b'a' ∷ []) ∷ (b'b' ∷ b'c' ∷ []) ∷ [])
      (parser b'|' 2 (b'a' ∷ b'|' ∷ b'|' ∷ b'b' ∷ b'c' ∷ b'|' ∷ b'd' ∷ []) no_rows)
parser-Tokenises_example =
    parser-Tokenises b'|' 2 (b'a' ∷ b'|' ∷ b'|' ∷ b'b' ∷ b'c' ∷ b'|' ∷ b'd' ∷ []) no_rows
      (omega arith) (omega arith) (omega arith)

abbrev many : ℕ → List ℕ
many zero = []
many (suc n) = b'x' ∷ many n

-- A line of 32 characters with no bar is cut in two tokens.
long_line : (parser b'|' 2 (many 32) no_rows).0 ≡ some 2
unfolding parser parse_loop parse_char
long_line = refl

-- A token of 30 characters has no end of its own: the next one stands behind it.
no_end :
    c_string 60 (parser b' ' 8 (many 30 ++ (b' ' ∷ b'y' ∷ [])) no_rows).1 0 ≡ many 30 ++ (b'y' ∷ [])
unfolding parser parse_loop parse_char c_string
no_end = refl

-- "lx", a backspace, "s", Enter
read_until_enter-Erases_example :
    Erases 0
      (typed [] (b'l' ∷ b'x' ∷ 8 ∷ b's' ∷ []))
      (read_until_enter (b'l' ∷ b'x' ∷ 8 ∷ b's' ∷ b'\n' ∷ b'z' ∷ []) no_rows)
read_until_enter-Erases_example =
    read_until_enter-Erases (b'l' ∷ b'x' ∷ 8 ∷ b's' ∷ []) (b'z' ∷ []) no_rows (omega arith)
      (omega arith) (omega arith)
