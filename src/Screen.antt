-- ===== src/Screen.antt =====
-- The screen of Kernel/c/ipc/printing.c: its state, and the printing of characters. The video memory
-- is a function from the offset behind 0xB8000 to the byte there, and the flags of the cells that have
-- a format of their own are a function of the column and the row. A color is the bits of an `int`.
pub mod Redraw
pub mod Cells
pub mod Bounds
pub mod Printing
pub mod Shows
pub mod Scrolls
mod Tests
use bizcocho_os.Prelude.{
  ℕ, zero, suc, ◌+◌, ◌-◌, ◌*◌, ◌%◌, ◌^◌, Bool, true, false, not, ◌&&◌, ◌||◌, Option, none, some,
  List, [], ◌∷◌, ltb, leb, ◌==◌, if◌then◌else◌, update,
}
use Prim.Native.Nat.{bit_and, bit_or}

-- `WIDTH` and `HEIGHT`
abbrev pub width : ℕ
width = 80

abbrev pub height : ℕ
height = 25

-- `DEFAULT` of `color_t`, which is -1.
abbrev pub default : ℕ
default = 2 ^ 32 - 1

-- `format_t`
pub record Format : Type 0 where
  pub background_color : ℕ
  pub character_color : ℕ

-- `point_t`
pub record Point : Type 0 where
  pub row : ℕ
  pub column : ℕ

-- The variables of the file; `video` is the video memory.
pub record Screen : Type 0 where
  pub video : ℕ → ℕ
  pub current_format : Format
  pub special_format : ℕ → ℕ → ℕ
  pub cursor : Point
  pub backspace_base : Point

-- `pointToCursor`
abbrev pub point_to_cursor : Point → ℕ
point_to_cursor p = 2 * (p.row * width + p.column)

-- `bg << 4 | ch` in a byte.
abbrev pub attribute : ℕ → ℕ → ℕ
attribute bg ch = bit_or (bg * 16 % 256) (ch % 256)

abbrev pub current_attribute : Screen → ℕ
current_attribute s = attribute s.current_format.background_color s.current_format.character_color

-- `charsWithSpecialFormat[column][row] = flags`
abbrev pub set_flags : Point → ℕ → (ℕ → ℕ → ℕ) → ℕ → ℕ → ℕ
set_flags p flags special = update special p.column (update (special p.column) p.row flags)

-- A character and its attribute in a cell, with the cell's flags.
unfoldable pub put_cell : Point → ℕ → ℕ → ℕ → Screen → Screen
put_cell p character attr flags s = record s {
  video = update (update s.video (point_to_cursor p) character) (point_to_cursor p + 1) attr;
  special_format = set_flags p flags s.special_format;
}

abbrev pub set_cursor : Point → Screen → Screen
set_cursor p s = record s { cursor = p }

-- The first test of `printChar`.
unfoldable pub wrap : Screen → Screen
wrap s =
    if leb width s.cursor.column
    then set_cursor (record { row = s.cursor.row + 1; column = 0 }) s
    else s

-- The end of `printChar`, which writes the character.
unfoldable pub write_char : ℕ → ℕ → ℕ → Screen → Screen
unfolding put_cell
write_char character bg ch s =
    let fmt : Format = s.current_format in
    let b = if bg == default then fmt.background_color else bg in
    let c = if ch == default then fmt.character_color else ch in
    let flags = (if bg == default then 0 else 2) + (if ch == default then 0 else 1) in
    set_cursor (record { row = s.cursor.row; column = s.cursor.column + 1 })
      (put_cell s.cursor character (attribute b c) flags s)

-- `printChar` of a space in the colors that are set, as `newLine` calls it: whether the screen ended.
unfoldable pub print_space : Screen → Bool × Screen
unfolding wrap
print_space s =
    let s' = wrap s in
    if leb height s'.cursor.row then (true, s') else (false, write_char b' ' default default s')

-- The loop of `newLine`, which goes round at most 80 times.
unfoldable pub fill_line : ℕ → Screen → Bool × Screen
fill_line zero s = (false, s)
fill_line (suc fuel) s =
    let printed = print_space s in
    let rest = fill_line fuel printed.1 in
    if ltb s.cursor.column width then (if printed.0 then printed else rest) else (false, s)

-- `newLine`
unfoldable pub new_line : Screen → Bool × Screen
unfolding fill_line
new_line s =
    let filled = fill_line width s in
    let s' = filled.1 in
    if filled.0
    then filled
    else (false, set_cursor (record { row = s'.cursor.row + 1; column = 0 }) s')

-- The loop of `backspace`: the column to which it goes back in the row.
unfoldable pub back_over : (ℕ → ℕ) → ℕ → ℕ → ℕ
back_over video row zero = zero
back_over video row (suc c) =
    let further = back_over video row c in
    if video (point_to_cursor (record { row = row; column = suc c })) == b' '
    then further
    else suc c

-- Where `backspace` moves the cursor.
unfoldable pub step_back : Screen → Point
unfolding back_over
step_back s =
    let p = s.cursor in
    if ltb 0 p.column
    then record { row = p.row; column = p.column - 1 }
    else record { row = p.row - 1; column = back_over s.video (p.row - 1) (width - 1) }

-- `backspace`
unfoldable pub backspace : Screen → Screen
unfolding step_back put_cell
backspace s =
    let p = step_back s in
    if ltb (point_to_cursor s.backspace_base) (point_to_cursor s.cursor)
    then put_cell p b' ' (current_attribute s) 0 (set_cursor p s)
    else s

-- `setBackspaceBase`
unfoldable pub set_backspace_base : Screen → Screen
set_backspace_base s = record s { backspace_base = s.cursor }

-- `printChar`: whether the screen ended.
unfoldable pub print_char : ℕ → ℕ → ℕ → Screen → Bool × Screen
unfolding wrap
print_char character bg ch s =
    let s' = wrap s in
    if leb height s'.cursor.row
    then (true, s')
    else (if character == 10
        then (false, (new_line s').1)
        else (if character == 8
            then (false, backspace s')
            else (false, write_char character bg ch s')))

-- `print`: what is left to print where the screen ended.
unfoldable pub print : List ℕ → Format → Screen → Option (List ℕ) × Screen
unfolding print_char
print [] fmt s = (none, s)
print (c ∷ cs) fmt s =
    let printed = print_char c fmt.background_color fmt.character_color s in
    let rest = print cs fmt printed.1 in if printed.0 then (some (c ∷ cs), printed.1) else rest
