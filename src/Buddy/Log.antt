-- ===== src/Buddy/Log.antt =====
-- `logBase2` rounds the logarithm up or down.
use bizcocho_os.Prelude.{
  ℕ, zero, suc, ◌+◌, ◌^◌, ◌≤◌, ◌<◌, ◌≡◌, ◌≢◌, true, false, inl, inr, arith, ltb, leb, ◌==◌,
  Bool-cases,
}
use bizcocho_os.Buddy.{log_loop, log_base2}

-- `v` is the least exponent whose power is at least `n`.
pub record IsCeiling (n v : ℕ) : Type 0 where
  pub enough : n ≤ 2 ^ v
  pub least : (w : ℕ) → w < v → 2 ^ w < n

-- `v` is the largest exponent whose power is at most `n`.
pub record IsFloor (n v : ℕ) : Type 0 where
  pub fits : 2 ^ v ≤ n
  pub next : n < 2 ^ (v + 1)

log_loop-IsCeiling :
    (fuel n v : ℕ)
    → n ≤ 2 ^ (v + fuel)
    → ((w : ℕ) → w < v → 2 ^ w < n)
    → IsCeiling n (log_loop fuel true n v)
unfolding log_loop
log_loop-IsCeiling zero n v h low =
    let e : v + 0 ≡ v = omega arith in record { enough = rw e at h; least = low }
log_loop-IsCeiling (suc fuel) n v h low = elim (Bool-cases (ltb (2 ^ v) n)) [
  | inl on ↦
      let e : v + suc fuel ≡ v + 1 + fuel = omega arith in
      rw on (
        log_loop-IsCeiling fuel n (v + 1) (rw e at h) (λ w hw. elim (Bool-cases (w == v)) [
          | inl same ↦ let e' : w ≡ v = ground arith in rw e' (ground arith)
          | inr other ↦ low w (ground arith)
        ]))
  | inr stop ↦ rw stop (record { enough = ground arith; least = low })
]

log_loop-IsFloor :
    (fuel n v : ℕ) → n < 2 ^ (v + fuel) → 2 ^ v ≤ n → IsFloor n (log_loop fuel false n v)
unfolding log_loop
log_loop-IsFloor zero n v h low =
    let e : v + 0 ≡ v = omega arith in absurd (omega (arith, rw e at h))
log_loop-IsFloor (suc fuel) n v h low = elim (Bool-cases (leb (2 ^ (v + 1)) n)) [
  | inl on ↦
      let e : v + suc fuel ≡ v + 1 + fuel = omega arith in
      rw on (log_loop-IsFloor fuel n (v + 1) (rw e at h) (ground arith))
  | inr stop ↦ rw stop (record { fits = low; next = ground arith })
]

-- For a size of 32 bits that is not 0, `logBase2` with `ceiling` gives the least exponent whose
-- power of two is at least the size, and without it the largest whose power is at most the size.
pub log_base2_lem :
    (n : ℕ) → n ≢ 0 → n < 2 ^ 32 → IsCeiling n (log_base2 n true) × IsFloor n (log_base2 n false)
unfolding log_base2
log_base2_lem n pos small =
    let more : (n == 0) ≡ false = ground arith in
    rw more (
      log_loop-IsCeiling 33 n 0 (omega arith) (λ w h. absurd (omega arith)),
      log_loop-IsFloor 33 n 0 (omega arith) (omega arith),
    )
