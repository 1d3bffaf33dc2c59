-- ===== src/SyncTest/Totals.antt =====
-- Sums over the processes.
use bizcocho_os.Prelude.{
  ℕ, zero, suc, ◌+◌, ◌≤◌, ◌<◌, ◌≡◌, refl, false, ◌==◌, update, Bool-cases, inl, inr, arith,
}
use bizcocho_os.SyncTest.{Worker}

abbrev pub total : (ℕ → Worker → ℕ) → ℕ → (ℕ → Worker) → ℕ
total g zero ws = 0
total g (suc m) ws = g m (ws m) + total g m ws

total-outside :
    (g : ℕ → Worker → ℕ) (m w : ℕ) (x : Worker) (ws : ℕ → Worker)
    → m ≤ w
    → total g m (update ws w x) ≡ total g m ws
total-outside g zero w x ws h = refl
total-outside g (suc m) w x ws h =
    let other : (m == w) ≡ false = ground (arith, h) in
    rw (other, total-outside g m w x ws (omega (arith, h))) refl

-- One process changes.
pub total-update :
    (g : ℕ → Worker → ℕ) (m w : ℕ) (x : Worker) (ws : ℕ → Worker)
    → w < m
    → total g m (update ws w x) + g w (ws w) ≡ total g m ws + g w x
total-update g zero w x ws h = absurd (omega (arith, h))
total-update g (suc m) w x ws h = elim (Bool-cases (m == w)) [
  | inl here ↦
      let same : m ≡ w = ground arith in
      let rest = total-outside g m w x ws (omega (arith, same)) in
      rw (here, rest, same) (omega arith)
  | inr other ↦
      let ih = total-update g m w x ws (ground (arith, other, h)) in rw other (omega (arith, ih))
]

-- A part of a sum.
pub total-one : (g : ℕ → Worker → ℕ) (m w : ℕ) (ws : ℕ → Worker) → w < m → g w (ws w) ≤ total g m ws
total-one g zero w ws h = absurd (omega (arith, h))
total-one g (suc m) w ws h = elim (Bool-cases (m == w)) [
  | inl here ↦ let same : m ≡ w = ground arith in rw same (omega arith)
  | inr other ↦ omega (arith, total-one g m w ws (ground (arith, other, h)))
]

pub total-two :
    (g : ℕ → Worker → ℕ) (m w v : ℕ) (ws : ℕ → Worker)
    → w < m
    → v < m
    → (w == v) ≡ false
    → g w (ws w) + g v (ws v) ≤ total g m ws
total-two g zero w v ws h k ne = absurd (omega (arith, h))
total-two g (suc m) w v ws h k ne = elim (Bool-cases (m == w)) [
  | inl here ↦
      let same : m ≡ w = ground arith in
      let one = total-one g m v ws (ground (arith, same, k, ne)) in
      let at : g m (ws m) ≡ g w (ws w) = rw same refl in omega (arith, one, at)
  | inr other ↦ elim (Bool-cases (m == v)) [
    | inl here ↦
        let same : m ≡ v = ground arith in
        let one = total-one g m w ws (ground (arith, same, h, ne)) in
        let at : g m (ws m) ≡ g v (ws v) = rw same refl in omega (arith, one, at)
    | inr far ↦
        omega (arith, total-two g m w v ws (ground (arith, other, h)) (ground (arith, far, k)) ne)
  ]
]
