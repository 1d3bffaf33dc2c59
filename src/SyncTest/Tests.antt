-- ===== src/SyncTest/Tests.antt =====
-- Two processes with one round each, the second of which waits for the first.
use bizcocho_os.Prelude.{ℕ, ◌+◌, ◌%◌, ◌^◌, ◌<◌, ◌≡◌, refl, true, none, some, arith}
use bizcocho_os.SyncTest.{Counter, sync_start, sync_move, sync_step, SyncReach, begun, then_one}
use bizcocho_os.SyncTest.Exclusion.{all_rounds, global-IsSum}

abbrev inc : ℕ → ℕ
inc w = w + 5

abbrev go : ℕ → Counter → Counter
go w s = elim (sync_step true inc w s) [ none ↦ s | some u ↦ u ]

abbrev s₁ : Counter
s₁ = go 0 (sync_start 1)

abbrev s₄ : Counter
s₄ = go 0 (go 0 (go 0 s₁))

abbrev s₈ : Counter
s₈ = go 1 (go 1 (go 1 (go 1 s₄)))

-- The second one waits.
waits : sync_step true inc 1 s₁ ≡ none
unfolding sync_step sync_move
waits = refl

reached_4 : SyncReach true inc 2 1 s₄
unfolding sync_step sync_move
reached_4 =
    then_one
      (then_one (then_one (then_one begun 0 (omega arith) refl) 0 (omega arith) refl) 0
        (omega arith) refl)
      0 (omega arith) refl

reached_8 : SyncReach true inc 2 1 s₈
unfolding sync_step sync_move
reached_8 =
    then_one
      (then_one (then_one (then_one reached_4 1 (omega arith) refl) 1 (omega arith) refl) 1
        (omega arith) refl)
      1 (omega arith) refl

finished : (w : ℕ) → w < 2 → (s₈.worker w).left ≡ 0
unfolding sync_step sync_move
finished w h = ground (arith, h)

global-IsSum_example : s₈.global ≡ all_rounds inc 2 1 % 2 ^ 64
global-IsSum_example = global-IsSum inc 2 1 s₈ reached_8 finished
