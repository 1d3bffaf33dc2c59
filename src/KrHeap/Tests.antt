-- ===== src/KrHeap/Tests.antt =====
-- A heap of 64 units at 4096: runs of the operations, and the theorems at its states.
use bizcocho_os.Prelude.{ℕ, ◌+◌, ◌*◌, ◌≡◌, refl, some, [], ◌∷◌, arith}
use bizcocho_os.KrHeap.{
  Heap, block, mem_initialize, memalloc, memfree, take_units, insert, insert_after, link_between,
  join_next, units_for, end,
}
use bizcocho_os.KrHeap.Blocks.{IsChain, in_block, cover}
use bizcocho_os.KrHeap.Calls.{Answers, memalloc-Answers}
use bizcocho_os.KrHeap.Trace.{world, Reach, alloc, here, next, Reach-cover}

abbrev fresh : Heap
unfolding mem_initialize
fresh = mem_initialize 4096 1024

-- one caller has 20 bytes, at the end of the arena
abbrev one : Heap
unfolding mem_initialize memalloc take_units units_for
one = (memalloc 20 fresh).1

abbrev two : Heap
unfolding mem_initialize memalloc take_units units_for
two = (memalloc 100 one).1

one_pointer : (memalloc 20 fresh).0 ≡ some (4096 + 61 * 16 + 16)
unfolding mem_initialize memalloc take_units units_for
one_pointer = refl

-- freed in the other order, the three blocks are one again
freed_in_order :
    (memfree (4096 + 53 * 16 + 16) (memfree (4096 + 61 * 16 + 16) two)).free ≡ fresh.free
unfolding mem_initialize memalloc take_units units_for memfree insert insert_after link_between
    join_next
freed_in_order = refl

memalloc-Answers_example : Answers fresh 20 (memalloc 20 fresh)
unfolding mem_initialize
memalloc-Answers_example = memalloc-Answers 20 fresh (omega arith)

reached : Reach (world (mem_initialize 4096 1024) []) (world one (block (4096 + 61 * 16) 3 ∷ []))
unfolding mem_initialize memalloc take_units units_for
reached = next here (alloc 20 (4096 + 61 * 16 + 16) fresh one [] refl)

Reach-cover_example :
    ((x : ℕ)
      → cover one.free x + cover (block (4096 + 61 * 16) 3 ∷ []) x ≡ in_block (block 4096 64) x)
    × IsChain 4096 (end (block 4096 64)) one.free
Reach-cover_example = Reach-cover 4096 1024 (omega arith) (omega arith) reached
