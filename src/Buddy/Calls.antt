-- ===== src/Buddy/Calls.antt =====
-- `memInitialize` and `memalloc` as their callers see them, and any sequence of calls after them.
use bizcocho_os.Prelude.{
  ℕ, ◌+◌, ◌-◌, ◌%◌, ◌^◌, ◌≤◌, ◌<◌, ◌≡◌, ◌≢◌, ◌⊎◌, refl, sym, ap, ◌∙◌, false, inl, inr, Option, none,
  some, List, [], arith, ltb, leb, ◌==◌, All, Bool-cases,
}
use bizcocho_os.Buddy.{
  Buddy, max_divisions, base_size, add_to_list, largest_for, mem_initialize, updating_lists,
  division_for, log_base2, hand_out, memalloc,
}
use bizcocho_os.Buddy.Log.{log_base2_lem}
use bizcocho_os.Buddy.Cover.{in_range, cover_empty}
use bizcocho_os.Buddy.Lists.{IsValid, in_arena, covers, add_to_list-Added}
use bizcocho_os.Buddy.Take.{Outcome, IsShort, updating_lists-Outcome}
use bizcocho_os.Buddy.Trace.{
  World, world, Held, Reach, IsHeld, IsSound, cover_live, live_bytes, Reach-IsSound, mem_size-le,
  division_for_bounds, pow_le,
}

-- The allocator before the first block is listed.
abbrev bare : ℕ → ℕ → Buddy
bare start largest = record {
  start = start;
  mem_size = 2 ^ largest;
  largest = largest;
  occupied = λ _. [];
  division_at = λ _. 0;
  mem_used = 0;
}

bare-IsValid : (start largest : ℕ) → largest < max_divisions → IsValid (bare start largest)
bare-IsValid start largest h = record {
  few = h;
  listed = λ d hd. tt;
  inside = λ x. omega (arith, cover_empty max_divisions x);
}

first-IsSound :
    (start largest : ℕ)
    → 0 < start
    → largest < max_divisions
    → IsSound (world (add_to_list largest start (bare start largest)) [])
first-IsSound start largest hs hl =
    let b = bare start largest in
    let a =
      add_to_list-Added largest start b (omega arith) (record { index = 0; place = omega arith })
        (λ x. omega (arith, cover_empty max_divisions x)) (bare-IsValid start largest hl) in
    let k = a.keeps in
    let c : Buddy = add_to_list largest start b in
    let arena : (x : ℕ) → in_arena c x ≡ in_range start (2 ^ largest) x =
      λ x. rw (k.start, k.largest) in
    record {
      above_null = omega (arith, k.start);
      valid = a.valid;
      size = k.mem_size ∙ ap (λ (m : ℕ). 2 ^ m) (sym k.largest);
      held = tt;
      once = λ x. omega (arith, a.covered x, cover_empty max_divisions x, arena x);
      used = omega (arith, k.mem_used);
    }

-- What `memInitialize` sets up in the memory that it is given.
pub record IsSetUp (mem_base mem_size : ℕ) (b : Buddy) : Type 0 where
  pub sound : IsSound (world b [])
  pub start : b.start ≡ mem_base + base_size
  pub inside : b.start + 2 ^ b.largest ≤ mem_base + mem_size

set_up :
    (mem_base mem_size largest : ℕ)
    → largest < max_divisions
    → base_size + 2 ^ largest ≤ mem_size
    → IsSetUp mem_base mem_size
        (add_to_list largest (mem_base + base_size) (bare (mem_base + base_size) largest))
unfolding add_to_list
set_up mem_base mem_size largest hl fits = record {
  sound = first-IsSound (mem_base + base_size) largest (omega arith) hl;
  start = refl;
  inside = omega arith;
}

largest_for_bounds :
    (mem_size : ℕ)
    → base_size < mem_size
    → mem_size < 2 ^ 32
    → (largest_for mem_size < max_divisions) × (base_size + 2 ^ largest_for mem_size ≤ mem_size)
unfolding largest_for
largest_for_bounds mem_size more small =
    let log = log_base2 (mem_size - base_size) false in
    let floor = (log_base2_lem (mem_size - base_size) (omega arith) (omega arith)).1 in
    elim (Bool-cases (leb max_divisions log)) [
      | inl big ↦ rw big (omega arith, omega (arith, floor.fits, pow_le 26 log (ground arith)))
      | inr fits ↦ rw fits (ground arith, omega (arith, floor.fits))
    ]

abbrev pub SetsUp : ℕ → ℕ → Option Buddy → Type 0
SetsUp mem_base mem_size none = mem_size ≤ base_size
SetsUp mem_base mem_size (some b) = (base_size < mem_size) × IsSetUp mem_base mem_size b

-- Given fewer than 2^32 bytes, `memInitialize` gives up exactly where they are no more than its own
-- record takes; otherwise it sets up an arena inside the memory, behind the record, that is one free
-- block.
pub mem_initialize-SetsUp :
    (mem_base mem_size : ℕ)
    → mem_size < 2 ^ 32
    → SetsUp mem_base mem_size (mem_initialize mem_base mem_size)
unfolding mem_initialize
mem_initialize-SetsUp mem_base mem_size small = elim (Bool-cases (leb mem_size base_size)) [
  | inl refused ↦ rw refused (ground arith)
  | inr more ↦
      let above : base_size < mem_size = ground arith in
      let bounds = largest_for_bounds mem_size above small in
      rw more (above, set_up mem_base mem_size (largest_for mem_size) bounds.0 bounds.1)
]

-- From a `memInitialize` that sets an arena up in fewer than 2^32 bytes, whatever is allocated and
-- given back in whatever order: each byte of the arena is in exactly one block, free or held, no
-- other byte is in any, each held block is aligned to its size and has its division in front, and
-- `memUsed` is the sum of the sizes of the held blocks, modulo 2^64.
pub Reach-covers :
    (mem_base mem_size : ℕ) {b : Buddy} {w : World}
    → mem_size < 2 ^ 32
    → mem_initialize mem_base mem_size ≡ some b
    → Reach (world b []) w
    → ((x : ℕ) → covers w.buddy x + cover_live w.live x ≡ in_arena w.buddy x)
      × All (IsHeld w.buddy) w.live
      × (w.buddy.mem_used ≡ live_bytes w.live % 2 ^ 64)
Reach-covers mem_base mem_size small e r =
    let set = rw e at (mem_initialize-SetsUp mem_base mem_size small) in
    let s = Reach-IsSound set.1.sound r in (s.once, s.held, s.used)

-- A caller's `nbytes` bytes from `p` on came out of the free lists, behind the byte of their division, and `memUsed`
-- counts their block.
pub record Serves (b : Buddy) (nbytes p : ℕ) (b' : Buddy) : Type 0 where
  pub above : b.start < p
  pub within : p + nbytes ≤ b.start + b.mem_size
  pub was_free : (x : ℕ) → p ≤ x → x < p + nbytes → covers b x ≡ covers b' x + 1
  pub no_more : (x : ℕ) → covers b' x ≤ covers b x
  pub tagged : b'.division_at (p - 1) ≡ division_for nbytes
  pub used : b'.mem_used ≡ (b.mem_used + 2 ^ division_for nbytes) % 2 ^ 64

abbrev pub Grants : Buddy → ℕ → Option ℕ × Buddy → Type 0
Grants b nbytes (none, b') =
    (b' ≡ b) × ((nbytes ≡ 0) ⊎ (b.mem_size < nbytes) ⊎ IsShort (division_for nbytes) b)
Grants b nbytes (some p, b') = (nbytes ≢ 0) × (nbytes ≤ b.mem_size) × Serves b nbytes p b'

back : (a : ℕ) → a + 1 - 1 ≡ a
back a = omega arith

hand_out-Grants :
    (b : Buddy) (nbytes : ℕ) (r : Option ℕ × Buddy)
    → nbytes ≢ 0
    → nbytes ≤ b.mem_size
    → b.mem_size ≡ 2 ^ b.largest
    → IsValid b
    → nbytes + 1 ≤ 2 ^ division_for nbytes
    → Outcome (division_for nbytes) b r
    → Grants b nbytes (hand_out (division_for nbytes) r)
unfolding hand_out
hand_out-Grants b nbytes (none, c) pos le size v fits o = (o.0, inr (inr o.1))
hand_out-Grants b nbytes (some a, c) pos le size v fits o = (
  pos,
  le,
  record {
    above = ground (arith, o.covered a, v.inside a);
    within = ground (arith, o.covered a, v.inside a, o.covered (a + nbytes), v.inside (a + nbytes));
    was_free = λ x lo hi. ground (arith, o.covered x);
    no_more = λ x. omega (arith, o.covered x);
    tagged = ap c.division_at (back a) ∙ o.tagged;
    used = ap (λ (m : ℕ). (m + 2 ^ division_for nbytes) % 2 ^ 64) o.keeps.mem_used;
  },
)

-- In any state that calls lead to, `memalloc` returns `NULL` only where no byte is asked for, more
-- bytes than the arena has, or every block of the division that it selects and of the larger ones is
-- taken, and then changes nothing; otherwise the bytes that it hands out lie in the arena, they were
-- free and now are not, and no byte becomes free; the byte in front of them holds the division that
-- it selects, and `memUsed` grows by the size of that, modulo 2^64.
pub memalloc-Grants :
    (nbytes : ℕ) (b : Buddy) (live : List Held)
    → IsSound (world b live)
    → Grants b nbytes (memalloc nbytes b)
unfolding memalloc
memalloc-Grants nbytes b live s = elim (Bool-cases (ltb b.mem_size nbytes)) [
  | inl big ↦ rw big (refl, inr (inl (ground arith)))
  | inr fits ↦ elim (Bool-cases (nbytes == 0)) [
    | inl nothing ↦ rw (fits, nothing) (refl, inl (ground arith))
    | inr more ↦
        let le : nbytes ≤ b.mem_size = ground arith in
        let bounds = division_for_bounds nbytes (omega (arith, mem_size-le b live s)) in
        rw (fits, more)
          (hand_out-Grants b nbytes (updating_lists (max_divisions + 1) (division_for nbytes) b)
            (ground arith) le s.size s.valid bounds.0
            (updating_lists-Outcome (max_divisions + 1) (division_for nbytes) b s.valid
              (omega (arith, s.valid.few))))
  ]
]
