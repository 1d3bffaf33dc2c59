-- ===== src/Buddy/Tests.antt =====
-- An arena of 256 bytes at 4096 + 232: runs of the operations, and the theorems at its states.
use bizcocho_os.Prelude.{ℕ, ◌+◌, ◌%◌, ◌^◌, ◌≡◌, refl, some, [], ◌∷◌, arith, All}
use bizcocho_os.Buddy.{
  Buddy, add_to_list, largest_for, mem_initialize, updating_lists, split, remove_last, division_for,
  log_base2, log_loop, hand_out, memalloc,
}
use bizcocho_os.Buddy.Lists.{covers, in_arena}
use bizcocho_os.Buddy.Trace.{
  world, held, Reach, alloc, here, next, IsHeld, IsSound, cover_live, live_bytes,
}
use bizcocho_os.Buddy.Calls.{Grants, mem_initialize-SetsUp, Reach-covers, memalloc-Grants}

abbrev fresh : Buddy
unfolding add_to_list
fresh = add_to_list 8 4328 (record {
  start = 4328;
  mem_size = 256;
  largest = 8;
  occupied = λ _. [];
  division_at = λ _. 0;
  mem_used = 0;
})

mem_initialize-fresh : mem_initialize 4096 500 ≡ some fresh
unfolding mem_initialize largest_for add_to_list log_base2 log_loop
mem_initialize-fresh = refl

-- 40 bytes take the uppermost block of 64
abbrev one : Buddy
unfolding memalloc hand_out updating_lists division_for log_base2 log_loop remove_last split
one = (memalloc 40 fresh).1

one_lists : (one.occupied 6 ≡ 4456 ∷ []) × (one.occupied 7 ≡ 4328 ∷ []) × (one.mem_used ≡ 64)
unfolding memalloc hand_out updating_lists division_for log_base2 log_loop remove_last split
one_lists = (refl, refl, refl)

fresh-IsSound : IsSound (world fresh [])
fresh-IsSound =
    let set = rw mem_initialize-fresh at (mem_initialize-SetsUp 4096 500 (omega arith)) in
    set.1.sound

memalloc-Grants_example : Grants fresh 40 (memalloc 40 fresh)
memalloc-Grants_example = memalloc-Grants 40 fresh [] fresh-IsSound

reached : Reach (world fresh []) (world one (held 4520 6 ∷ []))
unfolding memalloc hand_out updating_lists division_for log_base2 log_loop remove_last split
reached = next here (alloc 40 4521 fresh one [] refl)

Reach-covers_example :
    ((x : ℕ) → covers one x + cover_live (held 4520 6 ∷ []) x ≡ in_arena one x)
    × All (IsHeld one) (held 4520 6 ∷ [])
    × (one.mem_used ≡ live_bytes (held 4520 6 ∷ []) % 2 ^ 64)
Reach-covers_example =
    Reach-covers 4096 500 {w = world one (held 4520 6 ∷ [])} (omega arith) mem_initialize-fresh
      reached
