-- ===== src/Time/Bytes.antt =====
-- Values that an `int8_t` holds, and hours and minutes reduced in one.
use bizcocho_os.Prelude.{
  ℕ, zero, suc, ◌+◌, ◌-◌, ◌*◌, ◌%◌, ◌≤◌, ◌<◌, ◌≡◌, ◌≢◌, ap, ◌∙◌, Bool, true, false, Bool-cases, inl,
  inr, arith, ltb, leb,
}
use bizcocho_os.Prelude.Int.{ℤ, pos, negsuc, pos_part, neg_part, sub_ℕ, ◌+ℤ◌, ◌-ℤ◌, ltb_ℤ}
use bizcocho_os.Time.{int8, uint8, remainder, reduced}

abbrev pub flag : Bool → ℕ
flag true = 1
flag false = 0

pub int8-small : (z : ℤ) → pos_part z < 128 → neg_part z ≤ 128 → int8 z ≡ z
unfolding int8
int8-small (pos n) lo hi =
    let same : n % 256 ≡ n = omega arith in
    let small : ltb n 128 ≡ true = ground arith in rw (same, small)
int8-small (negsuc n) lo hi =
    let same : n % 256 ≡ n = omega arith in
    let small : ltb n 128 ≡ true = ground arith in rw (same, small)

-- A sum of small parts, which does not wrap.
pub int8-sub_ℕ :
    (a b : ℕ)
    → a < 128
    → b ≤ 128
    → (pos_part (int8 (sub_ℕ a b)) + b ≡ neg_part (int8 (sub_ℕ a b)) + a)
      × (pos_part (int8 (sub_ℕ a b)) ≤ a)
      × (neg_part (int8 (sub_ℕ a b)) ≤ b)
int8-sub_ℕ a b lo hi =
    rw (int8-small (sub_ℕ a b) (ground arith) (ground arith))
      (ground arith, ground arith, ground arith)

pub reduced_ok :
    (k s : ℕ) (v : ℤ) → v +ℤ pos k ≡ pos s → s < 128 → s % k < 128 → reduced k v ≡ s % k
unfolding reduced uint8 remainder
reduced_ok k s v sum small smaller =
    let last : s % k % 256 ≡ s % k = omega arith in
    rw (
      sum,
      int8-small (pos s) small (omega arith),
      int8-small (pos (s % k)) smaller (omega arith),
      last,
    )

pub add_pos : (n k : ℕ) → pos n +ℤ pos k ≡ pos (n + k)
unfolding ◌+ℤ◌
add_pos n k = ground arith

pub add_negsuc : (n k : ℕ) → suc n ≤ k → negsuc n +ℤ pos k ≡ pos (k - suc n)
unfolding ◌+ℤ◌
add_negsuc n k h = ground arith

pub int8_wraps : (n : ℕ) → 128 ≤ n → n < 256 → int8 (pos n) ≡ negsuc (255 - n)
unfolding int8
int8_wraps n lo hi =
    let same : n % 256 ≡ n = omega arith in
    let big : ltb n 128 ≡ false = ground arith in rw (same, big)

pub uint8-sub_ℕ : (w : ℕ) → w < 128 → uint8 (sub_ℕ 0 w) ≡ (256 - w) % 256
unfolding uint8
uint8-sub_ℕ zero h = omega arith
uint8-sub_ℕ (suc w) h = let less : leb (suc w) 0 ≡ false = ground arith in rw less (omega arith)

pub minus_pos : (w : ℕ) → pos 0 -ℤ pos w ≡ sub_ℕ 0 w
unfolding ◌-ℤ◌
minus_pos w = let same : 0 + w ≡ w = omega arith in rw same

-- The minutes where their sum with 60 wraps.
pub reduced_wrapped : (n : ℕ) → 68 ≤ n → n < 119 → reduced 60 (pos n) ≢ n % 60
unfolding reduced remainder
reduced_wrapped n lo hi same =
    let w = suc (255 - (n + 60)) % 60 in
    let wrapped : reduced 60 (pos n) ≡ uint8 (sub_ℕ 0 w) =
      rw (add_pos n 60, int8_wraps (n + 60) (omega arith) (omega arith))
        (ap (λ z. uint8 (int8 z)) (minus_pos w)
          ∙ ap uint8 (int8-small (sub_ℕ 0 w) (ground arith) (ground arith))) in
    omega (arith, wrapped, uint8-sub_ℕ w (omega arith), same)

pub reduced_hours :
    (v : ℤ)
    → pos_part v < 48
    → neg_part v ≤ 24
    → (reduced 24 v + 24 * flag (ltb_ℤ (pos 23) v) + neg_part v
        ≡ pos_part v + 24 * flag (ltb_ℤ v (pos 0)))
      × (reduced 24 v < 24)
reduced_hours (pos n) p h =
    let e = reduced_ok 24 (n + 24) (pos n) (add_pos n 24) (omega arith) (omega arith) in
    let not_before : ltb_ℤ (pos n) (pos 0) ≡ false = ground arith in
    elim (Bool-cases (ltb_ℤ (pos 23) (pos n))) [
      | inl later ↦
          let big : 23 < n = ground (arith, later) in
          rw (not_before, later) (omega (arith, e, big), omega (arith, e))
      | inr same ↦
          let small : n < 24 = ground (arith, same) in
          rw (not_before, same) (omega (arith, e, small), omega (arith, e))
    ]
reduced_hours (negsuc n) p h =
    let e = reduced_ok 24 (24 - suc n) (negsuc n) (add_negsuc n 24 h) (omega arith) (omega arith) in
    let before : ltb_ℤ (negsuc n) (pos 0) ≡ true = ground arith in
    let not_after : ltb_ℤ (pos 23) (negsuc n) ≡ false = ground arith in
    rw (before, not_after) (omega (arith, e), omega (arith, e))
