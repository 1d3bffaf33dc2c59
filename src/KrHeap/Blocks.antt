-- ===== src/KrHeap/Blocks.antt =====
-- The invariant of the free list: ascending addresses, no empty block, no two blocks that touch.
use bizcocho_os.Prelude.{ℕ, ◌+◌, ◌≤◌, ◌<◌, ◌⊎◌, ◌&&◌, List, [], ◌∷◌, ltb, leb, if◌then◌else◌}
use bizcocho_os.KrHeap.{Block, end}

abbrev pub IsChain : ℕ → ℕ → List Block → Type 0
IsChain lo hi [] = Unit
IsChain lo hi (b ∷ bs) = (lo ≤ b.addr) × (0 < b.size) × (end b ≤ hi) × IsChain (end b + 1) hi bs

-- 1 if the byte at `x` belongs to the block, else 0.
abbrev pub in_block : Block → ℕ → ℕ
in_block b x = if leb b.addr x && ltb x (end b) then 1 else 0

-- How many blocks of the list hold the byte at `x`.
abbrev pub cover : List Block → ℕ → ℕ
cover [] x = 0
cover (b ∷ bs) x = in_block b x + cover bs x

-- No byte of the block belongs to a block of the list.
abbrev pub Apart : Block → List Block → Type 0
Apart b [] = Unit
Apart b (c ∷ cs) = ((end b ≤ c.addr) ⊎ (end c ≤ b.addr)) × Apart b cs
