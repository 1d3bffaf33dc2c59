-- ===== src/Prelude/Powers.antt =====
-- Powers.
use Prim.Native.Nat.{ℕ, ◌+◌, ◌*◌, ◌^◌}
use mathlib.Core.Path.{◌≡◌}
use native.Mathlib.Nat.{pow-succ'}
use native.Mathlib.Numerals.{add-one}

pub pow-add_one : (b v : ℕ) → b ^ (v + 1) ≡ b * b ^ v
pow-add_one b v = rw add-one (pow-succ' b v)

pub pow_step : (v : ℕ) → 2 ^ (v + 1) ≡ 2 * 2 ^ v
pow_step v = pow-add_one 2 v
