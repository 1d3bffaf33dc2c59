-- ===== src/Screen/Shows.antt =====
-- What `print` shows.
use bizcocho_os.Prelude.{
  ℕ, zero, suc, ◌+◌, ◌-◌, ◌≤◌, ◌<◌, ◌≡◌, ◌≢◌, refl, ap, sym, ◌∙◌, true, false, ◌&&◌, Bool-cases,
  inl, inr, Option, none, some, List, [], ◌∷◌, arith, ltb, leb, ◌==◌, if◌then◌else◌, length,
  get_elem?, All,
}
use bizcocho_os.Screen.{
  width, height, Format, Screen, wrap, write_char, put_cell, print_char, print,
}
use bizcocho_os.Screen.Cells.{position, IsCursor, shown, shown-update}
use bizcocho_os.Screen.Bounds.{wrapped_cursor}

-- No end of line and no backspace.
abbrev pub IsPlain : ℕ → Type 0
IsPlain c = (c ≢ 10) × (c ≢ 8)

-- What does not fit in `n` cells.
abbrev pub left_over : ℕ → List ℕ → Option (List ℕ)
left_over n [] = none
left_over zero (c ∷ cs) = some (c ∷ cs)
left_over (suc n) (c ∷ cs) = left_over n cs

-- The cell `q` behind a text from the cell `p` on.
abbrev pub cell_with : ℕ → List ℕ → ℕ → ℕ → Option ℕ
cell_with p cs q old =
    if leb p q && ltb q (p + length cs) && ltb q 2000 then get_elem? cs (q - p) else some old

-- What the call has left and done.
pub record Shows (cs : List ℕ) (s : Screen) (r : Option (List ℕ) × Screen) : Type 0 where
  pub rest : r.0 ≡ left_over (2000 - position s.cursor) cs
  pub ends_at :
      position r.1.cursor
      ≡ (if ltb 2000 (position s.cursor + length cs) then 2000 else position s.cursor + length cs)
  pub cells : (q : ℕ) → some (shown r.1 q) ≡ cell_with (position s.cursor) cs q (shown s q)

shown-wrap : (s : Screen) (q : ℕ) → shown (wrap s) q ≡ shown s q
unfolding wrap
shown-wrap s q = elim (Bool-cases (leb 80 s.cursor.column)) [
  | inl over ↦ rw over
  | inr under ↦ rw under
]

shown-write_char :
    (c bg ch : ℕ) (s : Screen) (q : ℕ)
    → shown (write_char c bg ch s) q ≡ (if q == position s.cursor then c else shown s q)
unfolding write_char put_cell
shown-write_char c bg ch s q = shown-update s.video (position s.cursor) c _ q

-- The screen behind one plain character.
one_more : ℕ → Format → Screen → Screen
one_more c fmt s = write_char c fmt.background_color fmt.character_color (wrap s)

one_more_lem :
    (c : ℕ) (fmt : Format) (s : Screen)
    → IsCursor s.cursor
    → position s.cursor < 2000
    → IsPlain c
    → print_char c fmt.background_color fmt.character_color s ≡ (false, one_more c fmt s)
unfolding one_more print_char
one_more_lem c fmt s h room plain =
    let w = wrapped_cursor s h in
    let under : leb height (wrap s).cursor.row ≡ false = ground (arith, w, room) in
    let not_line : (c == 10) ≡ false = ground (arith, plain) in
    let not_back : (c == 8) ≡ false = ground (arith, plain) in rw (under, not_line, not_back)

one_more_cursor :
    (c : ℕ) (fmt : Format) (s : Screen)
    → IsCursor s.cursor
    → position s.cursor < 2000
    → ((one_more c fmt s).cursor.column ≤ width)
      × (position (one_more c fmt s).cursor ≡ position s.cursor + 1)
unfolding one_more write_char
one_more_cursor c fmt s h room = let w = wrapped_cursor s h in (omega (arith, w), omega (arith, w))

shown-one_more :
    (c : ℕ) (fmt : Format) (s : Screen) (q : ℕ)
    → IsCursor s.cursor
    → shown (one_more c fmt s) q ≡ (if q == position s.cursor then c else shown s q)
unfolding one_more
shown-one_more c fmt s q h =
    shown-write_char c _ _ (wrap s) q ∙ rw (shown-wrap s q, (wrapped_cursor s h).1)

full_lem :
    (c : ℕ) (fmt : Format) (s : Screen)
    → IsCursor s.cursor
    → position s.cursor ≡ 2000
    → print_char c fmt.background_color fmt.character_color s ≡ (true, wrap s)
unfolding print_char
full_lem c fmt s h full =
    let w = wrapped_cursor s h in
    let over : leb height (wrap s).cursor.row ≡ true = ground (arith, w, full) in rw over

left_over-suc :
    (p c : ℕ) (cs : List ℕ)
    → p < 2000
    → left_over (2000 - p) (c ∷ cs) ≡ left_over (2000 - (p + 1)) cs
left_over-suc p c cs h =
    let e : 2000 - p ≡ suc (2000 - (p + 1)) = omega arith in ap (λ (n : ℕ). left_over n (c ∷ cs)) e

cell_with-full : (cs : List ℕ) (q old : ℕ) → cell_with 2000 cs q old ≡ some old
cell_with-full cs q old =
    let out : (leb 2000 q && ltb q (2000 + length cs) && ltb q 2000) ≡ false = ground arith in
    rw out

cell_with-cons :
    (p c : ℕ) (cs : List ℕ) (q old : ℕ)
    → p < 2000
    → cell_with (p + 1) cs q (if q == p then c else old) ≡ cell_with p (c ∷ cs) q old
cell_with-cons p c cs q old h = elim (Bool-cases (q == p)) [
  | inl here ↦
      let before : (leb (p + 1) q && ltb q (p + 1 + length cs) && ltb q 2000) ≡ false =
        ground arith in
      let inside : (leb p q && ltb q (p + length (c ∷ cs)) && ltb q 2000) ≡ true = ground arith in
      let first : q - p ≡ 0 = ground arith in rw (here, before, inside, first)
  | inr other ↦ elim (Bool-cases (leb (p + 1) q && ltb q (p + 1 + length cs) && ltb q 2000)) [
    | inl behind ↦
        let inside : (leb p q && ltb q (p + length (c ∷ cs)) && ltb q 2000) ≡ true = ground arith in
        let later : q - p ≡ suc (q - (p + 1)) = ground arith in rw (behind, inside, later)
    | inr outside ↦
        let out : (leb p q && ltb q (p + length (c ∷ cs)) && ltb q 2000) ≡ false = ground arith in
        rw (other, outside, out)
  ]
]

Shows-full :
    (c : ℕ) (cs : List ℕ) (s : Screen)
    → IsCursor s.cursor
    → position s.cursor ≡ 2000
    → Shows (c ∷ cs) s (some (c ∷ cs), wrap s)
Shows-full c cs s h full = record {
  rest = rw full;
  ends_at =
      let over : ltb 2000 (2000 + suc (length cs)) ≡ true = ground arith in
      (wrapped_cursor s h).1 ∙ rw (full, over);
  cells = λ q.
      ap some (shown-wrap s q)
      ∙ sym (
          ap (λ p. cell_with p (c ∷ cs) q (shown s q)) full
          ∙ cell_with-full (c ∷ cs) q (shown s q));
}

Shows-cons :
    (c : ℕ) (cs : List ℕ) (s t : Screen) (r : Option (List ℕ) × Screen)
    → position s.cursor < 2000
    → position t.cursor ≡ position s.cursor + 1
    → ((q : ℕ) → shown t q ≡ (if q == position s.cursor then c else shown s q))
    → Shows cs t r
    → Shows (c ∷ cs) s r
Shows-cons c cs s t r room next cell sh =
    let p = position s.cursor in
    record {
      rest = sh.rest ∙ ap (λ n. left_over (2000 - n) cs) next ∙ sym (left_over-suc p c cs room);
      ends_at =
          let sum : position t.cursor + length cs ≡ p + length (c ∷ cs) = omega (arith, next) in
          sh.ends_at ∙ ap (λ n. if ltb 2000 n then 2000 else n) sum;
      cells = λ q.
          sh.cells q
          ∙ ap (λ n. cell_with n cs q (shown t q)) next
          ∙ ap (cell_with (p + 1) cs q) (cell q)
          ∙ cell_with-cons p c cs q (shown s q) room;
    }

-- `print` of a text with no end of line and no backspace, with the cursor on the screen: the characters stand from the
-- cursor on, cell by cell over the ends of the rows, as far as the screen goes; no other cell's character changes; the
-- cursor is behind them; and the characters that did not fit are given back.
pub print-Shows :
    (cs : List ℕ) (fmt : Format) (s : Screen)
    → IsCursor s.cursor
    → All IsPlain cs
    → Shows cs s (print cs fmt s)
unfolding print
print-Shows [] fmt s h plain =
    let p = position s.cursor in
    let fits : ltb 2000 (p + 0) ≡ false = ground (arith, h) in
    record {
      rest = refl;
      ends_at = rw fits (omega arith);
      cells =
          λ q. let out : (leb p q && ltb q (p + 0) && ltb q 2000) ≡ false = ground arith in rw out;
    }
print-Shows (c ∷ cs) fmt s h plain = elim (Bool-cases (ltb (position s.cursor) 2000)) [
  | inl room ↦
      let lt : position s.cursor < 2000 = ground arith in
      let t = one_more c fmt s in
      let next = one_more_cursor c fmt s h lt in
      rw (one_more_lem c fmt s h lt plain.0) (
        Shows-cons c cs s t _ lt next.1 (λ q. shown-one_more c fmt s q h)
          (print-Shows cs fmt t (next.0, omega (arith, next.1, lt)) plain.1))
  | inr none_left ↦
      let full : position s.cursor ≡ 2000 = ground arith in
      rw (full_lem c fmt s h full) (Shows-full c cs s h full)
]
