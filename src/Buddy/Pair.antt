-- ===== src/Buddy/Pair.antt =====
-- Blocks are aligned to their size, and a block and its buddy make the aligned block above.
use native.Mathlib.Nat.{one-le-pow}
use bizcocho_os.Prelude.{
  ℕ, ◌+◌, ◌-◌, ◌*◌, ◌/◌, ◌%◌, ◌^◌, ◌≤◌, ◌<◌, ◌≡◌, ◌≢◌, ◌⊎◌, ap, false, inl, inr, arith, ltb, ◌==◌,
  Bool-cases,
}
use bizcocho_os.Buddy.{pair_start}
use bizcocho_os.Prelude.{pow_step}
use bizcocho_os.Buddy.Cover.{in_range}

-- `p` is a whole number of blocks of division `d` behind `start`.
pub record IsAligned (start d p : ℕ) : Type 0 where
  pub index : ℕ
  pub place : p ≡ start + index * 2 ^ d

parity : (k : ℕ) → ((j : ℕ) × (k ≡ 2 * j)) ⊎ ((j : ℕ) × (k ≡ 2 * j + 1))
parity k = elim (Bool-cases (k % 2 == 0)) [
  | inl even ↦ inl (k / 2, ground arith)
  | inr odd ↦ inr (k / 2, ground arith)
]

mod_even : (j q : ℕ) → 0 < q → (j * q) % q ≡ 0
mod_even j q h = grind arith

mod_odd : (j s : ℕ) → 0 < s → (j * (2 * s) + s) % (2 * s) ≡ s
mod_odd j s h = grind arith

pub pow_pos : (d : ℕ) → 0 < 2 ^ d
pow_pos d = one-le-pow d 2 (omega arith)

-- The block is the lower or the upper half of its pair, and the pair is aligned.
pub record IsHalf (start d p b : ℕ) : Type 0 where
  pub half : (p ≡ b) ⊎ (p ≡ b + 2 ^ d)
  pub above : IsAligned start (d + 1) b

-- `S` is the size of a block.
offset_even : (start p j S : ℕ) → 0 < S → p ≡ start + 2 * j * S → (p - start) % (2 * S) ≡ 0
offset_even start p j S h e =
    let e' : p - start ≡ j * (2 * S) = grind arith in rw e' (mod_even j (2 * S) (omega arith))

offset_odd : (start p j S : ℕ) → 0 < S → p ≡ start + (2 * j + 1) * S → (p - start) % (2 * S) ≡ S
offset_odd start p j S h e =
    let e' : p - start ≡ j * (2 * S) + S = grind arith in rw e' (mod_odd j S h)

pub pair_start-IsHalf :
    (start d p : ℕ) → IsAligned start d p → IsHalf start d p (pair_start start d p)
unfolding pair_start
pair_start-IsHalf start d p a = rw (pow_step d) (elim (parity a.index) [
  | inl (j, e) ↦
      let at : p ≡ start + 2 * j * 2 ^ d = rw e at a.place in
      rw (offset_even start p j (2 ^ d) (pow_pos d) at) (record {
        half = inl (omega arith);
        above = record { index = j; place = rw (pow_step d) (grind arith) };
      })
  | inr (j, e) ↦
      let at : p ≡ start + (2 * j + 1) * 2 ^ d = rw e at a.place in
      let pos = pow_pos d in
      let no : (2 ^ d == 0) ≡ false = ground arith in
      rw (offset_odd start p j (2 ^ d) pos at, no)
        (record {
          half = inr (grind arith);
          above = record { index = j; place = rw (pow_step d) (grind arith) };
        })
])

mul_mono : (a b m : ℕ) → a ≤ b → a * m ≤ b * m
mul_mono a b m h = grind arith

-- A multiple of `S` among the two from `2 * j` on is one of them.
one_of_two :
    (start j k S : ℕ)
    → start + j * (2 * S) ≤ start + k * S
    → start + k * S < start + j * (2 * S) + 2 * S
    → (k ≡ 2 * j) ⊎ (k ≡ 2 * j + 1)
one_of_two start j k S lo hi = elim (Bool-cases (ltb k (2 * j))) [
  | inl less ↦ absurd (omega (arith, mul_mono (k + 1) (2 * j) S (ground arith)))
  | inr more ↦ elim (Bool-cases (ltb k (2 * j + 2))) [
    | inl at ↦ ground arith
    | inr past ↦ absurd (omega (arith, mul_mono (2 * j + 2) k S (ground arith)))
  ]
]

-- An aligned block of the pair that is not the block itself is its buddy: the two make the pair.
pub buddy_lem :
    (start d p q b x : ℕ)
    → IsHalf start d p b
    → IsAligned start d q
    → b ≤ q
    → q < b + 2 ^ (d + 1)
    → p ≢ q
    → in_range p (2 ^ d) x + in_range q (2 ^ d) x ≡ in_range b (2 ^ (d + 1)) x
buddy_lem start d p q b x h a lo hi ne =
    let two = pow_step d in
    let b_at : b ≡ start + h.above.index * (2 * 2 ^ d) = rw (← two) h.above.place in
    let q_at = a.place in
    let which = one_of_two start h.above.index a.index (2 ^ d) (omega arith) (omega arith) in
    let q_half : (q ≡ b) ⊎ (q ≡ b + 2 ^ d) = elim which [
      | inl e ↦ inl (omega (arith, ap (λ (t : ℕ). t * 2 ^ d) e))
      | inr e ↦ inr (omega (arith, ap (λ (t : ℕ). t * 2 ^ d) e))
    ] in
    ground (arith, h.half)
