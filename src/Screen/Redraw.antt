-- ===== src/Screen/Redraw.antt =====
-- The calls of Kernel/c/ipc/printing.c that go over the whole screen, and `printToScreen` of Kernel/c/ipc/files.c,
-- which scrolls.
use bizcocho_os.Prelude.{
  ℕ, zero, suc, ◌+◌, ◌-◌, ◌*◌, ◌%◌, ◌||◌, Option, none, some, List, [], ◌∷◌, ltb, leb, ◌==◌,
  if◌then◌else◌, update,
}
use Prim.Native.Nat.{bit_and, bit_or}
use bizcocho_os.Screen.{
  width, height, default, Format, Point, Screen, point_to_cursor, current_attribute, put_cell,
  print,
}

-- `for (int i = 0; i < n; i++)`
abbrev pub for_below : ℕ → (ℕ → Screen → Screen) → Screen → Screen
for_below zero f s = s
for_below (suc n) f s = f n (for_below n f s)

-- One cell in the loops of `changeColor`.
unfoldable pub recolor : ℕ → ℕ → Point → Screen → Screen
recolor bg ch p s =
    let at = point_to_cursor p + 1 in
    let old = s.video at in
    let flags = s.special_format p.column p.row in
    let ch_color = if flags == 2 || flags == 0 then ch else bit_and old 15 in
    let bg_color = if flags == 1 || flags == 0 then bg * 16 else bit_and old 240 in
    record s { video = update s.video at (bit_or bg_color ch_color) }

-- `changeColor`: the format that it returns.
unfoldable pub change_color : ℕ → ℕ → Screen → Format × Screen
unfolding recolor
change_color bg ch s =
    let set = record s {
      current_format = record { background_color = bg; character_color = ch };
    } in
    let done =
      for_below width (λ i. for_below height (λ j. recolor bg ch (record { row = j; column = i })))
        set in
    if ltb 15 bg || ltb 15 ch
    then (record { background_color = default; character_color = default }, s)
    else (s.current_format, done)

-- `clearScreen`
unfoldable pub clear_screen : Screen → Screen
unfolding put_cell
clear_screen s =
    let blank =
      for_below width
        (λ i.
          for_below height
            (λ j t. put_cell (record { row = j; column = i }) b' ' (current_attribute t) 0 t))
        s in
    let origin : Point = record { row = 0; column = 0 } in
    record blank { cursor = origin; backspace_base = origin }

-- One cell in the first loop of `scrollUp`.
unfoldable pub copy_cell : Point → Point → Screen → Screen
unfolding put_cell
copy_cell source target s =
    put_cell target (s.video (point_to_cursor source)) (s.video (point_to_cursor source + 1))
      (s.special_format source.column source.row) s

abbrev pub move_cell : ℕ → ℕ → ℕ → Screen → Screen
move_cell rows j i =
    copy_cell (record { row = j + rows; column = i }) (record { row = j; column = i })

abbrev pub blank_cell : ℕ → ℕ → Screen → Screen
blank_cell j i s = put_cell (record { row = j; column = i }) 0 (current_attribute s) 0 s

-- The first loop of `scrollUp`.
unfoldable pub move_rows : ℕ → Screen → Screen
move_rows rows s = for_below (height - rows) (λ j. for_below width (move_cell rows j)) s

-- The second loop, over the rows from `height - rows` on.
unfoldable pub blank_rows : ℕ → Screen → Screen
blank_rows rows s =
    let start = height - rows in
    for_below (height - start) (λ k. for_below width (blank_cell (start + k))) s

-- `scrollUp` by a number of rows of 8 bits.
unfoldable pub scroll_up : ℕ → Screen → Screen
unfolding move_rows blank_rows
scroll_up rows s =
    let s' = blank_rows rows (move_rows rows s) in
    let base : Point = s'.backspace_base in
    record s' {
      cursor = record { row = (height + 256 - rows) % 256; column = 0 };
      backspace_base =
          if leb rows base.row
          then record { row = base.row - rows; column = base.column }
          else record { row = 0; column = 0 };
    }

-- `printToScreen`; `none` is out of fuel.
unfoldable pub print_to_screen : ℕ → List ℕ → Format → Screen → Option Screen
print_to_screen zero cs fmt s = none
print_to_screen (suc fuel) [] fmt s = some s
print_to_screen (suc fuel) (c ∷ cs) fmt s =
    let printed = print (c ∷ cs) fmt s in
    let further = λ (left : List ℕ). print_to_screen fuel left fmt (scroll_up 1 printed.1) in
    elim (printed.0) [ none ↦ some printed.1 | some left ↦ further left ]
