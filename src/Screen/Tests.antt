-- ===== src/Screen/Tests.antt =====
-- Printing near the end of the screen.
use bizcocho_os.Prelude.{ℕ, ◌≡◌, refl, some, List, [], ◌∷◌, arith}
use bizcocho_os.Screen.{
  default, Format, Screen, print_char, backspace, step_back, back_over, put_cell, write_char, wrap,
  print,
}
use bizcocho_os.Screen.Redraw.{change_color, print_to_screen}
use bizcocho_os.Screen.Printing.{Ends, print_to_screen-Ends}
use bizcocho_os.Screen.Shows.{Shows, print-Shows}

abbrev plain_format : Format
plain_format = record { background_color = default; character_color = default }

-- One cell is left.
abbrev nearly_full : Screen
nearly_full = record {
  video = λ _. 0;
  current_format = record { background_color = 0; character_color = 7 };
  special_format = λ _ _. 0;
  cursor = record { row = 24; column = 79 };
  backspace_base = record { row = 2; column = 5 };
}

abbrev two_letters : List ℕ
two_letters = b'a' ∷ b'b' ∷ []

print_to_screen-Ends_example :
    Ends nearly_full (print_to_screen 5 two_letters plain_format nearly_full)
print_to_screen-Ends_example =
    print_to_screen-Ends 5 two_letters plain_format nearly_full (omega arith, omega arith)
      (omega arith)

print-Shows_example : Shows two_letters nearly_full (print two_letters plain_format nearly_full)
print-Shows_example =
    print-Shows two_letters plain_format nearly_full (omega arith, omega arith)
      ((omega arith, omega arith), ((omega arith, omega arith), tt))

second_left : (print two_letters plain_format nearly_full).0 ≡ some (b'b' ∷ [])
unfolding print print_char wrap write_char
second_left = refl

-- A backspace at the start of a row goes back to the end of what stands in the row before.
abbrev at_start : Screen
at_start = record nearly_full { cursor = record { row = 10; column = 0 }; video = λ _. b' ' }

gone_back : (backspace at_start).cursor ≡ record { row = 9; column = 0 }
unfolding backspace step_back back_over put_cell
gone_back = refl

refused : (change_color 16 0 nearly_full).0 ≡ plain_format
unfolding change_color
refused = refl
