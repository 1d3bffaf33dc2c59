-- ===== src/KrHeap.antt =====
-- The K&R heap of Kernel/c/mem/krheap.c, the memory manager of the default build.
-- An address is a number; a `Header *` that the free list reaches is a block, with its address and
-- its size in units of `sizeof(Header)`. `freep` and the `next` fields are the list `free`, `NULL`
-- its end. `size_at` is the size field of the headers of blocks that are handed out.
pub mod Blocks
pub mod Alloc
pub mod Free
pub mod Calls
pub mod Trace
mod Tests
use bizcocho_os.Prelude.{
  ℕ, ◌+◌, ◌-◌, ◌*◌, ◌/◌, Bool, ◌||◌, Option, none, some, List, [], ◌∷◌, ltb, leb, ◌==◌,
  if◌then◌else◌,
}

-- `sizeof(Header)`: a pointer and a `uint32_t`, padded to 16 bytes.
abbrev pub header_size : ℕ
header_size = 16

pub record Block : Type 0 where
  pub addr : ℕ
  pub size : ℕ

-- `b + b->s.size`, as an address.
abbrev pub end : Block → ℕ
end b = b.addr + header_size * b.size

pub record Heap : Type 0 where
  pub base : ℕ
  pub base_size : ℕ
  pub free : List Block
  pub size_at : ℕ → ℕ

abbrev pub block : ℕ → ℕ → Block
block a n = record { addr = a; size = n }

-- `memInitialize`: one free block of `BLOCK_AMOUNT` units.
unfoldable pub mem_initialize : ℕ → ℕ → Heap
mem_initialize mem_base mem_size = record {
  base = mem_base;
  base_size = mem_size;
  free = block mem_base (mem_size / header_size) ∷ [];
  size_at = λ _. 0;
}

-- `nunits` of `memalloc`: `nbytes` rounded up to units, and one for the header. The sum is made
-- in `size_t`, so it does not wrap.
unfoldable pub units_for : ℕ → ℕ
units_for nbytes = (nbytes + header_size - 1) / header_size + 1

-- The loop of `memalloc` from `currp` on: the header handed out, and the list that is left.
unfoldable pub take_units : ℕ → List Block → Option (ℕ × List Block)
take_units n [] = none
take_units n (b ∷ bs) =
    let rest : Option (ℕ × List Block) = elim (take_units n bs) [
      | none ↦ none
      | some (a, left) ↦ some (a, b ∷ left)
    ] in
    if leb n b.size
    then (if b.size == n
        then some (b.addr, bs)
        else some (b.addr + header_size * (b.size - n), block b.addr (b.size - n) ∷ bs))
    else rest

-- `mem[a].s.size = n`
abbrev pub write_size : (ℕ → ℕ) → ℕ → ℕ → ℕ → ℕ
write_size f a n x = if a == x then n else f x

-- What `memalloc` does with the loop's result: the pointer behind the header, `none` for `NULL`.
unfoldable pub hand_out : Heap → ℕ → Option (ℕ × List Block) → Option ℕ × Heap
hand_out h nunits none = (none, h)
hand_out h nunits (some (a, left)) =
    (some (a + header_size), record h { free = left; size_at = write_size h.size_at a nunits })

unfoldable pub memalloc : ℕ → Heap → Option ℕ × Heap
unfolding hand_out
memalloc nbytes h =
    if nbytes == 0
    then (none, h)
    else hand_out h (units_for nbytes) (take_units (units_for nbytes) h.free)

-- The end of `memfree`, for `insertp` between `currp` and `currp->s.next`, which starts `rest`.
unfoldable pub join_next : Block → List Block → Block × List Block
join_next ins [] = (ins, [])
join_next ins (nx ∷ rest) =
    if end ins == nx.addr then (block ins.addr (ins.size + nx.size), rest) else (ins, nx ∷ rest)

unfoldable pub link_between : Block → Block → List Block → List Block
link_between ins curr rest =
    let (joined, after) = join_next ins rest in
    if end curr == ins.addr
    then block curr.addr (curr.size + joined.size) ∷ after
    else curr ∷ joined ∷ after

-- The `while` of `memfree` from `currp` on.
unfoldable pub insert_after : Block → Block → List Block → List Block
insert_after ins curr [] = link_between ins curr []
insert_after ins curr (nx ∷ rest) =
    let further = curr ∷ insert_after ins nx rest in
    if ltb nx.addr ins.addr then further else link_between ins curr (nx ∷ rest)

-- `memfree` from the test of `freep` on.
unfoldable pub insert : Block → List Block → List Block
insert ins [] = ins ∷ []
insert ins (fp ∷ rest) =
    if ltb ins.addr fp.addr
    then (if end ins == fp.addr
        then block ins.addr (ins.size + fp.size) ∷ rest
        else ins ∷ fp ∷ rest)
    else insert_after ins fp rest

-- `memfree`; an `ap` of 0 is `NULL`.
unfoldable pub memfree : ℕ → Heap → Heap
memfree ap h =
    if ap == 0 || ltb ap h.base || leb (h.base + h.base_size) ap
    then h
    else record h { free = insert (block (ap - header_size) (h.size_at (ap - header_size))) h.free }

-- The loop of `getMemInfo`.
unfoldable pub free_units : List Block → ℕ
free_units [] = 0
free_units (b ∷ bs) = b.size + free_units bs

-- `struct memInfo`, less the name of the system.
pub record MemInfo : Type 0 where
  pub mem_size : ℕ
  pub block_size : ℕ
  pub free_blocks : ℕ

-- What `getMemInfo` makes of its call of `memalloc`.
unfoldable pub info_of : Option ℕ × Heap → Option MemInfo × Heap
info_of (none, h) = (none, h)
info_of (some _, h) = (
  some (record {
    mem_size = h.base_size;
    block_size = header_size;
    free_blocks = free_units h.free;
  }),
  h,
)

-- `getMemInfo`; `sizeof(memInfo)` is 24.
unfoldable pub get_mem_info : Heap → Option MemInfo × Heap
unfolding memalloc info_of
get_mem_info h = info_of (memalloc 24 h)
