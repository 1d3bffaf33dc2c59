-- ===== src/Screen/Bounds.antt =====
-- What is printed stays on the screen, and printing ends.
use bizcocho_os.Prelude.{
  ℕ, zero, suc, ◌+◌, ◌-◌, ◌≤◌, ◌<◌, ◌≡◌, refl, ap, ◌∙◌, false, Bool-cases, inl, inr, arith, ltb,
  leb, ◌==◌,
}
use bizcocho_os.Screen.{
  width, height, default, point_to_cursor, current_attribute, Point, Screen, wrap, write_char,
  print_space, fill_line, new_line, back_over, step_back, backspace, print_char,
}
use bizcocho_os.Screen.Cells.{
  position, IsCell, IsCursor, Within, Within-refl, Within-trans, put_cell-Within,
}

-- The cursor is on the screen, and no byte but the cells' has changed.
abbrev pub Stays : Screen → Screen → Type 0
Stays s s' = IsCursor s'.cursor × Within s s'

pub Stays-trans : (s t u : Screen) → Stays s t → Stays t u → Stays s u
Stays-trans s t u a b = (b.0, Within-trans s t u a.1 b.1)

pub wrapped_cursor :
    (s : Screen)
    → IsCursor s.cursor
    → ((wrap s).cursor.column < width) × (position (wrap s).cursor ≡ position s.cursor)
unfolding wrap
wrapped_cursor s h = elim (Bool-cases (leb 80 s.cursor.column)) [
  | inl over ↦ rw over (omega arith, ground arith)
  | inr under ↦ rw under (ground arith, refl)
]

wrap-Within : (s : Screen) → Within s (wrap s)
unfolding wrap
wrap-Within s = elim (Bool-cases (leb 80 s.cursor.column)) [
  | inl over ↦ rw over (record { video = λ a h. refl; flags = λ c r h. refl })
  | inr under ↦ rw under (Within-refl s)
]

pub wrap-Stays : (s : Screen) → IsCursor s.cursor → Stays s (wrap s)
wrap-Stays s h =
    let w = wrapped_cursor s h in ((omega (arith, w.0), omega (arith, w.1, h.1)), wrap-Within s)

write_char-Stays : (c bg ch : ℕ) (s : Screen) → IsCell s.cursor → Stays s (write_char c bg ch s)
unfolding write_char
write_char-Stays c bg ch s cell =
    let w = put_cell-Within s.cursor c _ _ s cell in
    ((omega arith, omega arith), record { video = w.video; flags = w.flags })

back_over_small : (video : ℕ → ℕ) (row c : ℕ) → back_over video row c ≤ c
unfolding back_over
back_over_small video row zero = omega arith
back_over_small video row (suc c) =
    let ih = back_over_small video row c in
    elim (Bool-cases (video (point_to_cursor (record { row = row; column = suc c })) == b' ')) [
      | inl space ↦ rw space (omega (arith, ih))
      | inr other ↦ rw other (omega arith)
    ]

step_back-IsCell : (s : Screen) → IsCell s.cursor → 0 < position s.cursor → IsCell (step_back s)
unfolding step_back
step_back-IsCell s cell pos = elim (Bool-cases (ltb 0 s.cursor.column)) [
  | inl inside ↦ rw inside (omega arith, omega arith)
  | inr start ↦
      let small = back_over_small s.video (s.cursor.row - 1) (width - 1) in
      let at_start : s.cursor.column ≡ 0 = ground arith in
      rw start (omega (arith, at_start, pos, cell), omega (arith, small))
]

backspace-Stays : (s : Screen) → IsCell s.cursor → Stays s (backspace s)
unfolding backspace
backspace-Stays s cell =
    elim (Bool-cases (ltb (point_to_cursor s.backspace_base) (point_to_cursor s.cursor))) [
      | inl behind ↦
          let p = step_back-IsCell s cell (ground arith) in
          let w = put_cell-Within (step_back s) b' ' (current_attribute s) 0 s p in
          rw behind
            ((omega (arith, p), omega (arith, p)), record { video = w.video; flags = w.flags })
      | inr not_behind ↦ rw not_behind ((omega arith, omega arith), Within-refl s)
    ]

-- A space is written, or the screen ended.
print_space-Stays : (s : Screen) → IsCursor s.cursor → Stays s (print_space s).1
unfolding print_space
print_space-Stays s h =
    let w = wrapped_cursor s h in
    let t = wrap-Stays s h in
    elim (Bool-cases (leb height (wrap s).cursor.row)) [
      | inl over ↦ rw over t
      | inr under ↦ rw under (
          Stays-trans s (wrap s) _ t
            (write_char-Stays b' ' default default (wrap s) (ground arith, w.0)))
    ]

fill_line-Stays : (n : ℕ) (s : Screen) → IsCursor s.cursor → Stays s (fill_line n s).1
unfolding fill_line
fill_line-Stays zero s h = (h, Within-refl s)
fill_line-Stays (suc n) s h =
    let p = print_space-Stays s h in
    elim (Bool-cases (ltb s.cursor.column width)) [
      | inl inside ↦ elim (Bool-cases ((print_space s).0)) [
        | inl over ↦ rw (inside, over) p
        | inr under ↦
            rw (inside, under)
              (Stays-trans s (print_space s).1 _ p (fill_line-Stays n (print_space s).1 p.0))
      ]
      | inr full ↦ rw full (h, Within-refl s)
    ]

pub wrap-inside : (s : Screen) → s.cursor.column < width → wrap s ≡ s
unfolding wrap
wrap-inside s h = let inside : leb width s.cursor.column ≡ false = ground arith in rw inside

print_space-inside :
    (s : Screen) → IsCell s.cursor → print_space s ≡ (false, write_char b' ' default default s)
unfolding print_space
print_space-inside s cell =
    let under : leb height s.cursor.row ≡ false = ground arith in rw (wrap-inside s cell.1, under)

written_cursor :
    (s : Screen)
    → (write_char b' ' default default s).cursor
      ≡ record { row = s.cursor.row; column = s.cursor.column + 1 }
unfolding write_char
written_cursor s = refl

fill_line-fills :
    (n : ℕ) (s : Screen)
    → s.cursor.row < height
    → s.cursor.column ≤ width
    → width ≤ s.cursor.column + n
    → ((fill_line n s).0 ≡ false) × ((fill_line n s).1.cursor.row ≡ s.cursor.row)
unfolding fill_line
fill_line-fills zero s row column enough = (refl, refl)
fill_line-fills (suc n) s row column enough = elim (Bool-cases (ltb s.cursor.column width)) [
  | inl inside ↦
      let cell : IsCell s.cursor = (row, ground arith) in
      let t = write_char b' ' default default s in
      let at = written_cursor s in
      let at_row = ap (λ (p : Point). p.row) at in
      let at_column = ap (λ (p : Point). p.column) at in
      let ih =
        fill_line-fills n t (omega (arith, at_row, row)) (omega (arith, at_column, cell))
          (omega (arith, at_column, enough)) in
      rw (inside, print_space-inside s cell) (ih.0, ih.1 ∙ at_row)
  | inr full ↦ rw full (refl, refl)
]

new_line-Stays : (s : Screen) → IsCell s.cursor → Stays s (new_line s).1
unfolding new_line
new_line-Stays s cell =
    let f = fill_line-fills width s cell.0 (omega (arith, cell)) (omega arith) in
    let t = fill_line-Stays width s (omega (arith, cell), omega (arith, cell)) in
    rw (f.0)
      ((omega arith, omega (arith, f.1, cell)), record { video = t.1.video; flags = t.1.flags })

pub print_char-Stays :
    (c bg ch : ℕ) (s : Screen) → IsCursor s.cursor → Stays s (print_char c bg ch s).1
unfolding print_char
print_char-Stays c bg ch s h =
    let w = wrapped_cursor s h in
    let t = wrap-Stays s h in
    elim (Bool-cases (leb height (wrap s).cursor.row)) [
      | inl over ↦ rw over t
      | inr under ↦
          let cell : IsCell (wrap s).cursor = (ground arith, w.0) in
          elim (Bool-cases (c == 10)) [
            | inl newline ↦
                rw (under, newline) (Stays-trans s (wrap s) _ t (new_line-Stays (wrap s) cell))
            | inr plain ↦ elim (Bool-cases (c == 8)) [
              | inl back ↦
                  rw (under, plain, back)
                    (Stays-trans s (wrap s) _ t (backspace-Stays (wrap s) cell))
              | inr other ↦
                  rw (under, plain, other)
                    (Stays-trans s (wrap s) _ t (write_char-Stays c bg ch (wrap s) cell))
            ]
          ]
    ]
