-- ===== src/Screen/Printing.antt =====
-- `printToScreen` ends, on the screen.
use bizcocho_os.Prelude.{
  ℕ, zero, suc, ◌+◌, ◌-◌, ◌≤◌, ◌<◌, ◌≡◌, refl, ap, false, Bool-cases, inl, inr, Option, none, some,
  List, [], ◌∷◌, arith, leb, ◌==◌, length,
}
use bizcocho_os.Screen.{width, height, Format, Point, Screen, print_char, print, current_attribute}
use bizcocho_os.Screen.Redraw.{
  for_below, move_rows, blank_rows, copy_cell, move_cell, blank_cell, scroll_up, print_to_screen,
}
use bizcocho_os.Screen.Cells.{
  IsCell, IsCursor, Within, Within-refl, Within-trans, put_cell-Within, for_below-keeps,
}
use bizcocho_os.Screen.Bounds.{Stays, Stays-trans, wrap-inside, print_char-Stays}

-- What is left is no more than there was.
abbrev IsRest : List ℕ → Option (List ℕ) → Type 0
IsRest cs none = Unit
IsRest cs (some left) = length left ≤ length cs

IsRest-cons : (c : ℕ) (cs : List ℕ) (r : Option (List ℕ)) → IsRest cs r → IsRest (c ∷ cs) r
IsRest-cons c cs none h = tt
IsRest-cons c cs (some left) h = omega (arith, h)

print-Stays :
    (cs : List ℕ) (fmt : Format) (s : Screen)
    → IsCursor s.cursor
    → Stays s (print cs fmt s).1 × IsRest cs (print cs fmt s).0
unfolding print
print-Stays [] fmt s h = ((h, Within-refl s), tt)
print-Stays (c ∷ cs) fmt s h =
    let p = print_char-Stays c fmt.background_color fmt.character_color s h in
    let t = (print_char c fmt.background_color fmt.character_color s).1 in
    elim (Bool-cases ((print_char c fmt.background_color fmt.character_color s).0)) [
      | inl over ↦ rw over (p, omega arith)
      | inr under ↦
          let rest = print-Stays cs fmt t p.0 in
          rw under (Stays-trans s t _ p rest.0, IsRest-cons c cs _ rest.1)
    ]

put_row-Within :
    (n : ℕ) (f : ℕ → Screen → Screen) (s : Screen)
    → n ≤ width
    → ((i : ℕ) (t : Screen) → i < width → Within t (f i t))
    → Within s (for_below n f s)
put_row-Within n f s le each =
    for_below-keeps (Within s) n f s
      (λ i t lt w. Within-trans s t (f i t) w (each i t (omega arith))) (Within-refl s)

copy_cell-Within :
    (source target : Point) (s : Screen) → IsCell target → Within s (copy_cell source target s)
unfolding copy_cell
copy_cell-Within source target s cell = put_cell-Within target _ _ _ s cell

-- The two loops of `scrollUp`, cell by cell.
rows-Within :
    (n : ℕ) (f : ℕ → ℕ → Screen → Screen) (s : Screen)
    → n ≤ height
    → ((j i : ℕ) (t : Screen) → j < n → i < width → Within t (f j i t))
    → Within s (for_below n (λ j. for_below width (f j)) s)
rows-Within n f s le each =
    for_below-keeps (Within s) n (λ j. for_below width (f j)) s
      (λ j t lt w.
        Within-trans s t _ w
          (put_row-Within width (f j) t (omega arith) (λ i u h. each j i u lt h)))
      (Within-refl s)

move_rows-Within : (rows : ℕ) (s : Screen) → Within s (move_rows rows s)
unfolding move_rows
move_rows-Within rows s =
    rows-Within (height - rows) (move_cell rows) s (omega arith) (λ j i t lt h.
      copy_cell-Within (record { row = j + rows; column = i }) (record { row = j; column = i }) t
        (omega arith, h))

blank_rows-Within : (rows : ℕ) (s : Screen) → Within s (blank_rows rows s)
unfolding blank_rows
blank_rows-Within rows s =
    rows-Within (height - (height - rows)) (λ k. blank_cell (height - rows + k)) s (omega arith)
      (λ k i t lt h.
        put_cell-Within (record { row = height - rows + k; column = i }) 0 (current_attribute t) 0 t
          (omega arith, h))

scroll_up-Stays : (s : Screen) → Stays s (scroll_up 1 s)
unfolding scroll_up
scroll_up-Stays s =
    let t = move_rows 1 s in
    let w = Within-trans s t (blank_rows 1 t) (move_rows-Within 1 s) (blank_rows-Within 1 t) in
    ((omega arith, omega arith), record { video = w.video; flags = w.flags })

scroll_up_cursor : (s : Screen) → (scroll_up 1 s).cursor ≡ record { row = 24; column = 0 }
unfolding scroll_up
scroll_up_cursor s = refl

-- A screen with the cursor on a cell takes a character.
print_char-room : (c bg ch : ℕ) (s : Screen) → IsCell s.cursor → (print_char c bg ch s).0 ≡ false
unfolding print_char
print_char-room c bg ch s cell =
    let under : leb height s.cursor.row ≡ false = ground arith in
    elim (Bool-cases (c == 10)) [
      | inl newline ↦ rw (wrap-inside s cell.1, under, newline)
      | inr plain ↦ elim (Bool-cases (c == 8)) [
        | inl back ↦ rw (wrap-inside s cell.1, under, plain, back)
        | inr other ↦ rw (wrap-inside s cell.1, under, plain, other)
      ]
    ]

print-advances :
    (c : ℕ) (cs : List ℕ) (fmt : Format) (s : Screen)
    → IsCell s.cursor
    → IsRest cs (print (c ∷ cs) fmt s).0
unfolding print
print-advances c cs fmt s cell =
    let p =
      print_char-Stays c fmt.background_color fmt.character_color s
        (omega (arith, cell), omega (arith, cell)) in
    rw (print_char-room c fmt.background_color fmt.character_color s cell)
      (print-Stays cs fmt (print_char c fmt.background_color fmt.character_color s).1 p.0).1

-- What `printToScreen` comes to.
abbrev pub Ends : Screen → Option Screen → Type 0
Ends s none = ⊥
Ends s (some t) = Stays s t

Ends-trans : (s t : Screen) (r : Option Screen) → Stays s t → Ends t r → Ends s r
Ends-trans s t none a b = b
Ends-trans s t (some u) a b = Stays-trans s t u a b

abbrev goes_on : Option (List ℕ) → ℕ → Format → Screen → Option Screen
goes_on r fuel fmt t = elim r [
  | none ↦ some t
  | some left ↦ print_to_screen fuel left fmt (scroll_up 1 t)
]

goes_on-Ends :
    (fuel : ℕ) (r : Option (List ℕ)) (cs : List ℕ) (fmt : Format) (s t : Screen)
    → Stays s t
    → IsRest cs r
    → ((left : List ℕ) (u : Screen)
        → length left ≤ length cs
        → u.cursor ≡ record { row = 24; column = 0 }
        → Ends u (print_to_screen fuel left fmt u))
    → Ends s (goes_on r fuel fmt t)
goes_on-Ends fuel none cs fmt s t st rest ih = st
goes_on-Ends fuel (some left) cs fmt s t st rest ih =
    let up = Stays-trans s t (scroll_up 1 t) st (scroll_up-Stays t) in
    Ends-trans s (scroll_up 1 t) _ up (ih left (scroll_up 1 t) rest (scroll_up_cursor t))

-- From a screen that was just scrolled.
scrolled-Ends :
    (fuel : ℕ) (cs : List ℕ) (fmt : Format) (s : Screen)
    → s.cursor ≡ record { row = 24; column = 0 }
    → length cs < fuel
    → Ends s (print_to_screen fuel cs fmt s)
unfolding print_to_screen
scrolled-Ends zero cs fmt s at enough = absurd (omega arith)
scrolled-Ends (suc fuel) [] fmt s at enough =
    let row = ap (λ (p : Point). p.row) at in
    let column = ap (λ (p : Point). p.column) at in
    ((omega (arith, column), omega (arith, row, column)), Within-refl s)
scrolled-Ends (suc fuel) (c ∷ cs) fmt s at enough =
    let row = ap (λ (p : Point). p.row) at in
    let column = ap (λ (p : Point). p.column) at in
    let cell : IsCell s.cursor = (omega (arith, row), omega (arith, column)) in
    let p = print-Stays (c ∷ cs) fmt s (omega (arith, cell), omega (arith, cell)) in
    goes_on-Ends fuel (print (c ∷ cs) fmt s).0 cs fmt s (print (c ∷ cs) fmt s).1 p.0
      (print-advances c cs fmt s cell)
      (λ left u le at'. scrolled-Ends fuel left fmt u at' (omega arith))

-- `printToScreen` with the cursor on the screen ends, in as many rounds as there are characters and one more: each round
-- but the first prints a character. The cursor stays on the screen, and nothing is written but the bytes and
-- the flags of its cells.
pub print_to_screen-Ends :
    (fuel : ℕ) (cs : List ℕ) (fmt : Format) (s : Screen)
    → IsCursor s.cursor
    → length cs + 1 < fuel
    → Ends s (print_to_screen fuel cs fmt s)
unfolding print_to_screen
print_to_screen-Ends zero cs fmt s h enough = absurd (omega arith)
print_to_screen-Ends (suc fuel) [] fmt s h enough = (h, Within-refl s)
print_to_screen-Ends (suc fuel) (c ∷ cs) fmt s h enough =
    let p = print-Stays (c ∷ cs) fmt s h in
    goes_on-Ends fuel (print (c ∷ cs) fmt s).0 (c ∷ cs) fmt s (print (c ∷ cs) fmt s).1 p.0 p.1
      (λ left u le at. scrolled-Ends fuel left fmt u at (omega arith))
