-- ===== src/Screen/Scrolls.antt =====
-- What `scrollUp` shows.
use bizcocho_os.Prelude.{
  ℕ, zero, suc, ◌+◌, ◌-◌, ◌*◌, ◌%◌, ◌≤◌, ◌<◌, ◌≡◌, refl, ap, ◌∙◌, true, false, ◌&&◌, Bool-cases,
  inl, inr, arith, ltb, leb, ◌==◌, if◌then◌else◌, update,
}
use bizcocho_os.Screen.{width, Screen, current_attribute, put_cell}
use bizcocho_os.Screen.Redraw.{
  copy_cell, move_cell, blank_cell, for_below, move_rows, blank_rows, scroll_up,
}
use bizcocho_os.Screen.Cells.{position, shown, shown-update, for_below-keeps}

-- The cells before `k` have been moved up.
Moved : ℕ → ℕ → Screen → Screen → Type 0
Moved rows k s t = (q : ℕ) → shown t q ≡ (if ltb q k then shown s (q + 80 * rows) else shown s q)

-- The cells from `k` on, `n` of them, are blank.
Blanked : ℕ → ℕ → Screen → Screen → Type 0
Blanked k n s t = (q : ℕ) → shown t q ≡ (if leb k q && ltb q (k + n) then 0 else shown s q)

-- A character that comes from `80 * rows` cells on.
Moved-step :
    (rows k : ℕ) (s t : Screen) (q attr : ℕ)
    → Moved rows k s t
    → update (update t.video (2 * k) (shown t (k + 80 * rows))) (2 * k + 1) attr (2 * q)
      ≡ (if ltb q (k + 1) then shown s (q + 80 * rows) else shown s q)
unfolding Moved
Moved-step rows k s t q attr m =
    shown-update t.video k (shown t (k + 80 * rows)) attr q ∙ elim (Bool-cases (q == k)) [
      | inl here ↦
          let same : q ≡ k = ground arith in
          let not_yet : ltb (k + 80 * rows) k ≡ false = ground arith in
          let now : ltb q (k + 1) ≡ true = ground arith in
          rw (here, now) (m (k + 80 * rows) ∙ rw (not_yet, same))
      | inr other ↦
          let as_before : ltb q (k + 1) ≡ ltb q k = ground arith in rw (other, as_before) (m q)
    ]

move_cell-Moved :
    (rows j i : ℕ) (s t : Screen)
    → Moved rows (80 * j + i) s t
    → Moved rows (80 * j + suc i) s (move_cell rows j i t)
unfolding Moved copy_cell put_cell
move_cell-Moved rows j i s t m q =
    let k = 80 * j + i in
    let target : j * 80 + i ≡ k = omega arith in
    let source : (j + rows) * 80 + i ≡ k + 80 * rows = omega arith in
    let next : 80 * j + suc i ≡ k + 1 = omega arith in
    rw (target, source, next) (Moved-step rows k s t q _ m)

-- The first loop.
move_rows-Moved : (rows : ℕ) (s : Screen) → Moved rows (80 * (25 - rows)) s (move_rows rows s)
unfolding move_rows Moved
move_rows-Moved rows s = rows_moved (25 - rows)
  where
    row_moved :
        (j n : ℕ) (t : Screen)
        → Moved rows (80 * j + 0) s t
        → Moved rows (80 * j + n) s (for_below n (move_cell rows j) t)
    row_moved j zero t m = m
    row_moved j (suc n) t m = move_cell-Moved rows j n s _ (row_moved j n t m)

    rows_moved :
        (n : ℕ) → Moved rows (80 * n) s (for_below n (λ j. for_below width (move_cell rows j)) s)
    rows_moved zero q = let none_yet : ltb q 0 ≡ false = ground arith in rw none_yet
    rows_moved (suc n) q =
        let start : 80 * n + 0 ≡ 80 * n = omega arith in
        let end : 80 * suc n ≡ 80 * n + 80 = omega arith in
        rw end (row_moved n 80 _ (rw start (rows_moved n)) q)

blank_cell-Blanked :
    (k n j i : ℕ) (s t : Screen)
    → j * 80 + i ≡ k + n
    → Blanked k n s t
    → Blanked k (suc n) s (blank_cell j i t)
unfolding Blanked put_cell
blank_cell-Blanked k n j i s t at b q =
    let step =
      shown-update t.video (k + n) 0 (current_attribute t) q ∙ elim (Bool-cases (q == k + n)) [
        | inl here ↦
            let now : (leb k q && ltb q (k + suc n)) ≡ true = ground arith in rw (here, now)
        | inr other ↦
            let as_before : (leb k q && ltb q (k + suc n)) ≡ (leb k q && ltb q (k + n)) =
              ground arith in
            rw (other, as_before) (b q)
      ] in
    rw at step

blank_rows-Blanked :
    (rows : ℕ) (s : Screen)
    → rows ≤ 25
    → Blanked (80 * (25 - rows)) (80 * rows) s (blank_rows rows s)
unfolding blank_rows Blanked
blank_rows-Blanked rows s le q =
    let all : 25 - (25 - rows) ≡ rows = omega arith in rw all (rows_blanked rows q)
  where
    k : ℕ
    k = 80 * (25 - rows)

    row_blanked :
        (m n : ℕ) (t : Screen)
        → Blanked k (80 * m + 0) s t
        → Blanked k (80 * m + n) s (for_below n (blank_cell (25 - rows + m)) t)
    row_blanked m zero t b q = b q
    row_blanked m (suc n) t b q =
        let next : 80 * m + suc n ≡ suc (80 * m + n) = omega arith in
        rw next (
          blank_cell-Blanked k (80 * m + n) (25 - rows + m) n s _ (omega arith)
            (row_blanked m n t b) q)

    rows_blanked :
        (m : ℕ)
        → Blanked k (80 * m) s (for_below m (λ j. for_below width (blank_cell (25 - rows + j))) s)
    rows_blanked zero q =
        let none_yet : (leb k q && ltb q (k + 0)) ≡ false = ground arith in rw none_yet
    rows_blanked (suc m) q =
        let start : 80 * m + 0 ≡ 80 * m = omega arith in
        let end : 80 * suc m ≡ 80 * m + 80 = omega arith in
        rw end (row_blanked m 80 _ (rw start (rows_blanked m)) q)

rows_base :
    (n : ℕ) (f : ℕ → ℕ → Screen → Screen) (s : Screen)
    → ((j i : ℕ) (t : Screen) → (f j i t).backspace_base ≡ t.backspace_base)
    → (for_below n (λ j. for_below width (f j)) s).backspace_base ≡ s.backspace_base
rows_base n f s each =
    for_below-keeps Same n (λ j. for_below width (f j)) s
      (λ j t lt e. for_below-keeps Same width (f j) t (λ i u h e'. each j i u ∙ e') e) refl
  where
    Same : Screen → Type 0
    Same t = t.backspace_base ≡ s.backspace_base

loops_base :
    (rows : ℕ) (s : Screen) → (blank_rows rows (move_rows rows s)).backspace_base ≡ s.backspace_base
unfolding move_rows blank_rows copy_cell put_cell
loops_base rows s =
    rows_base (25 - (25 - rows)) (λ k. blank_cell (25 - rows + k)) (move_rows rows s)
      (λ j i t. refl)
    ∙ rows_base (25 - rows) (move_cell rows) s (λ j i t. refl)

-- What `scrollUp` by some rows has done.
pub record Scrolls (rows : ℕ) (s t : Screen) : Type 0 where
  pub cells :
      (q : ℕ)
      → q < 2000
      → shown t q ≡ (if ltb (q + 80 * rows) 2000 then shown s (q + 80 * rows) else 0)
  pub cursor : t.cursor ≡ record { row = 25 - rows; column = 0 }
  pub base :
      position t.backspace_base
      ≡ (if leb rows s.backspace_base.row then position s.backspace_base - 80 * rows else 0)

-- `scrollUp` by 25 rows or fewer: each cell shows the character of the cell that many rows below, the cells at the end show
-- none, the cursor is at the start of the first blank row, and the place that backspaces stop at moves up
-- with its character, or is the first cell.
pub scroll_up-Scrolls : (rows : ℕ) (s : Screen) → rows ≤ 25 → Scrolls rows s (scroll_up rows s)
unfolding scroll_up Blanked Moved
scroll_up-Scrolls rows s le = record {
  cells = λ q small.
      blank_rows-Blanked rows (move_rows rows s) le q ∙ seen q small (move_rows-Moved rows s q);
  cursor =
      let row : (281 - rows) % 256 ≡ 25 - rows = omega arith in
      ap (λ r. record { row = r; column = 0 }) row;
  base =
      let above : (c r : ℕ) → rows ≤ r → (r - rows) * 80 + c ≡ r * 80 + c - 80 * rows =
        λ c r h. omega arith in
      elim (Bool-cases (leb rows s.backspace_base.row)) [
        | inl inside ↦
            rw (loops_base rows s, inside)
              (above s.backspace_base.column s.backspace_base.row (ground arith))
        | inr gone ↦ rw (loops_base rows s, gone)
      ];
}
  where
    k : ℕ
    k = 80 * (25 - rows)

    seen :
        (q : ℕ)
        → q < 2000
        → shown (move_rows rows s) q ≡ (if ltb q k then shown s (q + 80 * rows) else shown s q)
        → (if leb k q && ltb q (k + 80 * rows) then 0 else shown (move_rows rows s) q)
          ≡ (if ltb (q + 80 * rows) 2000 then shown s (q + 80 * rows) else 0)
    seen q small moved = elim (Bool-cases (ltb q k)) [
      | inl above ↦
          let kept : (leb k q && ltb q (k + 80 * rows)) ≡ false = ground arith in
          let inside : ltb (q + 80 * rows) 2000 ≡ true = ground arith in
          rw (kept, inside) (moved ∙ rw above)
      | inr below ↦
          let blank : (leb k q && ltb q (k + 80 * rows)) ≡ true = ground arith in
          let outside : ltb (q + 80 * rows) 2000 ≡ false = ground arith in rw (blank, outside)
    ]
