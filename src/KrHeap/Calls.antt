-- ===== src/KrHeap/Calls.antt =====
-- `memalloc`, `memfree` and `getMemInfo` as their callers see them.
use bizcocho_os.Prelude.{
  ℕ, ◌+◌, ◌*◌, ◌≤◌, ◌<◌, ◌≡◌, ◌≢◌, ◌⊎◌, refl, Option, none, some, inl, inr, List, [], ◌∷◌, arith,
  ◌==◌, All, Bool-cases,
}
use bizcocho_os.KrHeap.{
  Block, Heap, MemInfo, block, header_size, units_for, hand_out, take_units, memalloc, memfree,
  insert, free_units, write_size, info_of, get_mem_info,
}
use bizcocho_os.KrHeap.Blocks.{IsChain, cover}
use bizcocho_os.KrHeap.Alloc.{Taken, Outcome, take_units-Outcome}
use bizcocho_os.KrHeap.Free.{Restores, take_units-Restores}

-- The free list of a heap is in order, inside the arena.
abbrev pub IsOrdered : Heap → Type 0
IsOrdered h = IsChain h.base (h.base + h.base_size) h.free

-- A caller's `nbytes` bytes from `p` on came out of the free list, inside the arena.
pub record Serves (h : Heap) (nbytes p : ℕ) (h' : Heap) : Type 0 where
  pub above : h.base + header_size ≤ p
  pub within : p + nbytes ≤ h.base + h.base_size
  pub was_free : (x : ℕ) → p ≤ x → x < p + nbytes → cover h.free x ≡ cover h'.free x + 1
  pub no_more : (x : ℕ) → cover h'.free x ≤ cover h.free x
  pub restored : 0 < h.base → (memfree p h').free ≡ h.free

abbrev pub Answers : Heap → ℕ → Option ℕ × Heap → Type 0
Answers h nbytes (none, h') =
    (h' ≡ h) × ((nbytes ≡ 0) ⊎ All (λ (b : Block). b.size < units_for nbytes) h.free)
Answers h nbytes (some p, h') =
    (nbytes ≢ 0) × ¬ All (λ (b : Block). b.size < units_for nbytes) h.free × Serves h nbytes p h'

units_for_bound :
    (n : ℕ) → n ≢ 0 → (1 < units_for n) × (n + header_size ≤ header_size * units_for n)
unfolding units_for
units_for_bound n h = omega arith

Taken-Serves :
    (h : Heap) (n a : ℕ) (left : List Block)
    → n ≢ 0
    → Taken h.base (h.base + h.base_size) (units_for n) h.free a left
    → insert (block a (units_for n)) left ≡ h.free
    → Serves h n
        (a + header_size)
        (record h { free = left; size_at = write_size h.size_at a (units_for n) })
unfolding memfree
Taken-Serves h n a left pos t back =
    let (big, fits) = units_for_bound n pos in
    record {
      above = omega (arith, t.from);
      within = omega (arith, t.upto);
      was_free = λ x lo hi. ground (arith, t.covered x);
      no_more = λ x. omega (arith, t.covered x);
      restored = λ above. ground (arith, t.from, t.upto, back);
    }

take_units-none :
    (n : ℕ) (bs : List Block) → All (λ (b : Block). b.size < n) bs → take_units n bs ≡ none
unfolding take_units
take_units-none n [] small = refl
take_units-none n (b ∷ bs) small = ground (arith, take_units-none n bs small.1)

hand_out-Answers :
    (h : Heap) (n : ℕ) (r : Option (ℕ × List Block))
    → take_units (units_for n) h.free ≡ r
    → n ≢ 0
    → Outcome h.base (h.base + h.base_size) (units_for n) h.free r
    → Restores (units_for n) h.free r
    → Answers h n (hand_out h (units_for n) r)
unfolding hand_out
hand_out-Answers h n none same pos o e = (refl, inr o)
hand_out-Answers h n (some (a, left)) same pos o e =
    (pos, λ small. cc (take_units-none (units_for n) h.free small), Taken-Serves h n a left pos o e)

-- On a heap whose free list is in order, `memalloc` returns `NULL`, and then changes nothing, exactly when no
-- byte is asked for or every free block has too few units; otherwise the bytes that it hands out
-- lie in the arena behind a header, they were free and now are not, no byte becomes free, and a
-- `memfree` of the pointer right away restores the free list, if the arena is not at address 0.
pub memalloc-Answers : (nbytes : ℕ) (h : Heap) → IsOrdered h → Answers h nbytes (memalloc nbytes h)
unfolding memalloc
memalloc-Answers nbytes h c = elim (Bool-cases (nbytes == 0)) [
  | inl zero ↦ rw zero (refl, inl (ground arith))
  | inr more ↦
      let pos : nbytes ≢ 0 = ground arith in
      let big : 0 < units_for nbytes = omega (arith, (units_for_bound nbytes pos).0) in
      rw more (
        hand_out-Answers h nbytes (take_units (units_for nbytes) h.free) refl pos
          (take_units-Outcome h.base (h.base + h.base_size) (units_for nbytes) h.free big c)
          (take_units-Restores h.base (h.base + h.base_size) (units_for nbytes) h.free big c))
]

abbrev pub Reports : Heap → Option MemInfo → Type 0
Reports h none = All (λ (b : Block). b.size < 3) h.free
Reports h (some i) =
    (i.free_blocks + 3 ≡ free_units h.free)
    × (i.mem_size ≡ h.base_size)
    × (i.block_size ≡ header_size)

hand_out-Reports :
    (h : Heap) (r : Option (ℕ × List Block))
    → Outcome h.base (h.base + h.base_size) 3 h.free r
    → Reports h (info_of (hand_out h 3 r)).0
unfolding hand_out info_of
hand_out-Reports h none o = o
hand_out-Reports h (some (a, left)) o = (omega (arith, o.units), refl, refl)

-- `getMemInfo` fails exactly when no free block has the three units of its own answer; otherwise
-- it reports the free units that are left once these are taken.
pub get_mem_info-Reports : (h : Heap) → IsOrdered h → Reports h (get_mem_info h).0
unfolding get_mem_info units_for
get_mem_info-Reports h c =
    hand_out-Reports h (take_units 3 h.free)
      (take_units-Outcome h.base (h.base + h.base_size) 3 h.free (omega arith) c)
