-- ===== src/Buddy.antt =====
-- The buddy allocator of Kernel/c/mem/buddy.c, the memory manager of a build with BUDDY defined.
-- An address is a number; `occupied[d]` is the list of the addresses of its nodes, first to last, and
-- `division_at` the `division` byte in front of each block, free or handed out.
pub mod Log
pub mod Cover
pub mod Pair
pub mod Lists
pub mod Take
pub mod Restore
pub mod Trace
pub mod Calls
mod Tests
use bizcocho_os.Prelude.{
  ℕ, zero, suc, ◌+◌, ◌-◌, ◌*◌, ◌/◌, ◌%◌, ◌^◌, Bool, true, false, ◌||◌, ◌&&◌, Option, none, some,
  List, [], ◌∷◌, ltb, leb, ◌==◌, if◌then◌else◌, update,
}

abbrev pub max_divisions : ℕ
max_divisions = 27

abbrev pub min_size : ℕ
min_size = 32

-- `sizeof(struct base)`: 8 + 4 + 1 bytes, padded to 16, and 27 pointers.
abbrev pub base_size : ℕ
base_size = 232

pub record Buddy : Type 0 where
  pub start : ℕ
  pub mem_size : ℕ
  pub largest : ℕ
  pub occupied : ℕ → List ℕ
  pub division_at : ℕ → ℕ
  pub mem_used : ℕ

-- The `while` of `logBase2` on fuel.
unfoldable pub log_loop : ℕ → Bool → ℕ → ℕ → ℕ
log_loop zero ceiling nbytes value = value
log_loop (suc fuel) ceiling nbytes value =
    let further = log_loop fuel ceiling nbytes (value + 1) in
    if (if ceiling then ltb (2 ^ value) nbytes else leb (2 ^ (value + 1)) nbytes)
    then further
    else value

-- `logBase2`: 33 rounds are enough for a `uint32_t`.
unfoldable pub log_base2 : ℕ → Bool → ℕ
log_base2 nbytes ceiling = if nbytes == 0 then 0 else log_loop 33 ceiling nbytes 0

-- `removeLast` on the list of one division.
unfoldable pub remove_last : List ℕ → Option (ℕ × List ℕ)
remove_last [] = none
remove_last (p ∷ []) = some (p, [])
remove_last (p ∷ q ∷ ps) = elim (remove_last (q ∷ ps)) [
  | none ↦ none
  | some (l, rest) ↦ some (l, p ∷ rest)
]

-- `addToList`
unfoldable pub add_to_list : ℕ → ℕ → Buddy → Buddy
add_to_list d p b = record b {
  occupied = update b.occupied d (p ∷ b.occupied d);
  division_at = update b.division_at p d;
}

-- `largestDivision`, as `memInitialize` computes it.
unfoldable pub largest_for : ℕ → ℕ
largest_for mem_size =
    let log = log_base2 (mem_size - base_size) false in
    if leb max_divisions log then max_divisions - 1 else log

-- `memInitialize`; `none` where it returns before it sets `myBase`.
unfoldable pub mem_initialize : (mem_base mem_size : ℕ) → Option Buddy
mem_initialize mem_base mem_size =
    if leb mem_size base_size
    then none
    else some (
        add_to_list (largest_for mem_size) (mem_base + base_size) (record {
          start = mem_base + base_size;
          mem_size = 2 ^ largest_for mem_size;
          largest = largest_for mem_size;
          occupied = λ _. [];
          division_at = λ _. 0;
          mem_used = 0;
        }))

-- The end of `updatingLists`: the upper half is handed out, the lower half is listed.
unfoldable pub split : ℕ → Option ℕ × Buddy → Option ℕ × Buddy
unfolding add_to_list
split d (none, b) = (none, b)
split d (some p, b) = (
  some (p + 2 ^ d),
  add_to_list d p (record b { division_at = update b.division_at (p + 2 ^ d) d }),
)

-- `updatingLists` on fuel: it climbs one division a call, and stops above the largest.
unfoldable pub updating_lists : ℕ → ℕ → Buddy → Option ℕ × Buddy
unfolding split
updating_lists zero d b = (none, b)
updating_lists (suc fuel) d b =
    if ltb b.largest d then (none, b) else elim (remove_last (b.occupied d)) [
      | some (p, rest) ↦ (some p, record b { occupied = update b.occupied d rest })
      | none ↦ split d (updating_lists fuel (d + 1) b)
    ]

-- The division that `memalloc` selects; the sums are made in `uint32_t`.
unfoldable pub division_for : ℕ → ℕ
division_for nbytes =
    log_base2 (if ltb ((nbytes + 1) % 2 ^ 32) min_size then min_size else (nbytes + 1) % 2 ^ 32)
      true

-- The end of `memalloc`.
unfoldable pub hand_out : ℕ → Option ℕ × Buddy → Option ℕ × Buddy
hand_out d (none, b) = (none, b)
hand_out d (some p, b) = (some (p + 1), record b { mem_used = (b.mem_used + 2 ^ d) % 2 ^ 64 })

-- `memalloc`; `max_divisions + 1` rounds are enough to climb past the largest division.
unfoldable pub memalloc : ℕ → Buddy → Option ℕ × Buddy
memalloc nbytes b =
    if ltb b.mem_size nbytes || nbytes == 0
    then (none, b)
    else hand_out (division_for nbytes) (updating_lists (max_divisions + 1) (division_for nbytes) b)

-- `findAndRemove` on the list of one division: the list less the first node in the pair, `none`
-- where it returns 0.
unfoldable pub find_and_remove : (pair_start pair_size : ℕ) → List ℕ → Option (List ℕ)
find_and_remove from size [] = none
find_and_remove from size (p ∷ ps) =
    let rest : Option (List ℕ) = elim (find_and_remove from size ps) [
      | none ↦ none
      | some qs ↦ some (p ∷ qs)
    ] in
    if leb from p && ltb p (from + size) then some ps else rest

-- `pointerToBuddyPair` of `restoreToList`.
unfoldable pub pair_start : (start d p : ℕ) → ℕ
pair_start start d p = p - (if (p - start) % 2 ^ (d + 1) == 0 then 0 else 2 ^ (d + 1) / 2)

-- `restoreToList` on fuel.
unfoldable pub restore_to_list : ℕ → ℕ → ℕ → Buddy → Buddy
unfolding find_and_remove pair_start add_to_list
restore_to_list zero d p b = b
restore_to_list (suc fuel) d p b =
    if ltb b.largest d
    then b
    else elim (find_and_remove (pair_start b.start d p) (2 ^ (d + 1)) (b.occupied d)) [
      | none ↦ add_to_list d p b
      | some rest ↦
          restore_to_list fuel (d + 1) (pair_start b.start d p)
            (record b { occupied = update b.occupied d rest })
    ]

-- `memfree`; an `ap` of 0 is `NULL`.
unfoldable pub memfree : ℕ → Buddy → Buddy
memfree ap b =
    let d = b.division_at (ap - 1) in
    let restored = restore_to_list (max_divisions + 1) d (ap - 1) b in
    if ap == 0 || ltb ap b.start || leb (b.start + b.mem_size) ap || ltb b.largest d
    then b
    else record restored { mem_used = (restored.mem_used + 2 ^ 64 - 2 ^ d) % 2 ^ 64 }

-- `freeBlocks` of `getMemInfo`, from the state that its `memalloc` leaves.
unfoldable pub free_blocks : Buddy → ℕ
free_blocks b = (b.mem_size + 2 ^ 64 - b.mem_used) % 2 ^ 64 / min_size % 2 ^ 32
