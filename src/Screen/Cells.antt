-- ===== src/Screen/Cells.antt =====
-- The cells of the screen: where they lie in the video memory, and what writing one leaves alone.
use bizcocho_os.Prelude.{
  ℕ, ◌+◌, ◌*◌, ◌≤◌, ◌<◌, ◌≡◌, ◌⊎◌, inl, inr, refl, ap, ◌∙◌, true, false, Bool-cases, zero, suc,
  arith, ◌==◌, if◌then◌else◌, update,
}
use bizcocho_os.Screen.{width, height, Point, Screen, point_to_cursor, put_cell, set_flags}
use bizcocho_os.Screen.Redraw.{recolor, for_below}

-- The number of a cell, row by row.
abbrev pub position : Point → ℕ
position p = p.row * width + p.column

abbrev pub IsCell : Point → Type 0
IsCell p = (p.row < height) × (p.column < width)

-- A cursor: behind the last cell of a row, or of the screen, too.
abbrev pub IsCursor : Point → Type 0
IsCursor p = (p.column ≤ width) × (position p ≤ 2000)

abbrev pub IsOutside : ℕ → ℕ → Type 0
IsOutside c r = (width ≤ c) ⊎ (height ≤ r)

-- The second screen differs from the first one in the 4000 bytes of the video memory and the flags of its cells only,
-- and in what is no part of them.
pub record Within (s s' : Screen) : Type 0 where
  pub video : (a : ℕ) → 4000 ≤ a → s'.video a ≡ s.video a
  pub flags : (c r : ℕ) → IsOutside c r → s'.special_format c r ≡ s.special_format c r

pub Within-refl : (s : Screen) → Within s s
Within-refl s = record { video = λ a h. refl; flags = λ c r h. refl }

pub Within-trans : (s t u : Screen) → Within s t → Within t u → Within s u
Within-trans s t u w v = record {
  video = λ a h. v.video a h ∙ w.video a h;
  flags = λ c r h. v.flags c r h ∙ w.flags c r h;
}

pub update_other {ℓ} :
    {A : Type ℓ} (f : ℕ → A) (a : ℕ) (v : A) (x : ℕ) → (x == a) ≡ false → update f a v x ≡ f x
update_other f a v x ne = rw ne

pub point_to_cursor-small : (p : Point) → IsCell p → point_to_cursor p + 1 < 4000
point_to_cursor-small p cell = omega arith

set_flags_other :
    (p : Point) (flags : ℕ) (special : ℕ → ℕ → ℕ) (c r : ℕ)
    → IsCell p
    → IsOutside c r
    → set_flags p flags special c r ≡ special c r
set_flags_other p flags special c r cell (inl out) =
    ap (λ (f : ℕ → ℕ). f r) (update_other special p.column _ c (ground arith))
set_flags_other p flags special c r cell (inr out) = elim (Bool-cases (c == p.column)) [
  | inl same ↦ rw same (
      update_other (special p.column) p.row flags r (ground arith)
      ∙ ap (λ x. special x r) (ground arith))
  | inr other ↦ rw other
]

pub put_cell-Within :
    (p : Point) (c attr flags : ℕ) (s : Screen) → IsCell p → Within s (put_cell p c attr flags s)
unfolding put_cell
put_cell-Within p c attr flags s cell = record {
  video = λ a h.
      let small = point_to_cursor-small p cell in
      let first : (a == point_to_cursor p) ≡ false = ground (arith, small) in
      let second : (a == point_to_cursor p + 1) ≡ false = ground (arith, small) in
      update_other (update s.video (point_to_cursor p) c) (point_to_cursor p + 1) attr a second
      ∙ update_other s.video (point_to_cursor p) c a first;
  flags = λ x r h. set_flags_other p flags s.special_format x r cell h;
}

pub recolor-Within : (bg ch : ℕ) (p : Point) (s : Screen) → IsCell p → Within s (recolor bg ch p s)
unfolding recolor
recolor-Within bg ch p s cell = record {
  video = λ a h.
      let small = point_to_cursor-small p cell in
      update_other s.video (point_to_cursor p + 1) _ a (ground (arith, small));
  flags = λ c r h. refl;
}

-- The character in a cell.
abbrev pub shown : Screen → ℕ → ℕ
shown s q = s.video (2 * q)

-- The characters behind a write to the cell `p`.
pub shown-update :
    (video : ℕ → ℕ) (p c attr q : ℕ)
    → update (update video (2 * p) c) (2 * p + 1) attr (2 * q)
      ≡ (if q == p then c else video (2 * q))
shown-update video p c attr q =
    let odd : (2 * q == 2 * p + 1) ≡ false = ground arith in
    elim (Bool-cases (q == p)) [
      | inl here ↦ let same : (2 * q == 2 * p) ≡ true = ground arith in rw (odd, same, here)
      | inr other ↦ let ne : (2 * q == 2 * p) ≡ false = ground arith in rw (odd, ne, other)
    ]

-- What every round keeps, the loop keeps.
pub for_below-keeps {ℓ} :
    (P : Screen → Type ℓ) (n : ℕ) (f : ℕ → Screen → Screen) (s : Screen)
    → ((i : ℕ) (t : Screen) → i < n → P t → P (f i t))
    → P s
    → P (for_below n f s)
for_below-keeps P zero f s keeps p = p
for_below-keeps P (suc n) f s keeps p =
    keeps n _ (omega arith) (for_below-keeps P n f s (λ i t h. keeps i t (omega arith)) p)
