-- ===== src/KrHeap/Trace.antt =====
-- The heap together with the blocks that its callers hold: every byte of the arena is free or held
-- by one caller, after any sequence of calls.
use bizcocho_os.Prelude.{
  ℕ, ◌+◌, ◌-◌, ◌/◌, ◌≤◌, ◌<◌, ◌≡◌, ◌≢◌, refl, sym, ap, ◌∙◌, Option, none, some, inl, inr, List, [],
  ◌∷◌, ◌++◌, arith, ◌==◌, All, Bool-cases,
}
use mathlib.Core.Path.{subst}
use bizcocho_os.KrHeap.{
  Block, Heap, end, block, header_size, mem_initialize, units_for, hand_out, take_units, memalloc,
  memfree, insert, write_size,
}
use bizcocho_os.KrHeap.Blocks.{IsChain, in_block, cover, Apart}
use bizcocho_os.KrHeap.Alloc.{Taken, Outcome, take_units-Outcome}
use bizcocho_os.KrHeap.Free.{insert-Joined}

-- The heap and the blocks that were handed out and not yet given back.
pub record World : Type 0 where
  pub heap : Heap
  pub live : List Block

abbrev pub world : Heap → List Block → World
world h l = record { heap = h; live = l }

-- A call of `memalloc` that returns a pointer, and a call of `memfree` with such a pointer.
pub data Step : World → World → Type 0 where
  alloc :
      (nbytes p : ℕ) (h h' : Heap) (live : List Block)
      → memalloc nbytes h ≡ (some p, h')
      → Step (world h live) (world h' (block (p - header_size) (units_for nbytes) ∷ live))
  give_back :
      (h : Heap) (before : List Block) (b : Block) (after : List Block)
      → Step
          (world h (before ++ b ∷ after))
          (world (memfree (b.addr + header_size) h) (before ++ after))

pub data Reach (s : World) : World → Type 0 where
  here : Reach s s
  next : {t u : World} → Reach s t → Step t u → Reach s u

-- The block that `memInitialize` makes of the arena.
abbrev pub arena : Heap → Block
arena h = block h.base (h.base_size / header_size)

-- What a block in a caller's hands satisfies; its header tells `memfree` the size.
pub record IsHeld (h : Heap) (b : Block) : Type 0 where
  pub two_units : 1 < b.size
  pub from : h.base ≤ b.addr
  pub upto : end b ≤ end (arena h)
  pub tagged : h.size_at b.addr ≡ b.size

pub record IsValid (w : World) : Type 0 where
  pub above_null : 0 < w.heap.base
  pub chain : IsChain w.heap.base (end (arena w.heap)) w.heap.free
  pub held : All (IsHeld w.heap) w.live
  pub once : (x : ℕ) → cover w.heap.free x + cover w.live x ≡ in_block (arena w.heap) x

-- A block that shares no byte with a chain is apart from it.
Apart-cover :
    (lo hi : ℕ) (b : Block) (cs : List Block)
    → 0 < b.size
    → IsChain lo hi cs
    → ((x : ℕ) → in_block b x + cover cs x ≤ 1)
    → Apart b cs
Apart-cover lo hi b [] pos ch once = tt
Apart-cover lo hi b (c ∷ cs) pos ch once = (
  ground (arith, once b.addr, once c.addr),
  Apart-cover (end c + 1) hi b cs pos ch.3 (λ x. omega (arith, once x)),
)

cover-append : (xs ys : List Block) (x : ℕ) → cover (xs ++ ys) x ≡ cover xs x + cover ys x
cover-append [] ys x = omega arith
cover-append (b ∷ xs) ys x = omega (arith, cover-append xs ys x)

in_block-le : (b : Block) (x : ℕ) → in_block b x ≤ 1
in_block-le b x = ground arith

All-append {ℓ κ} :
    {A : Type ℓ} (P : A → Type κ) (xs ys : List A) → All P xs → All P ys → All P (xs ++ ys)
All-append P [] ys hx hy = hy
All-append P (x ∷ xs) ys hx hy = (hx.0, All-append P xs ys hx.1 hy)

All-left {ℓ κ} :
    {A : Type ℓ} (P : A → Type κ) (xs ys : List A) → All P (xs ++ ys) → All P xs × All P ys
All-left P [] ys h = (tt, h)
All-left P (x ∷ xs) ys h = let (l, r) = All-left P xs ys h.1 in ((h.0, l), r)

-- A write to the header of a block that no holder's block overlaps.
IsHeld-write :
    (h : Heap) (left : List Block) (a n : ℕ) (bs : List Block)
    → 0 < n
    → ((x : ℕ) → in_block (block a n) x + cover bs x ≤ 1)
    → All (IsHeld h) bs
    → All (IsHeld (record h { free = left; size_at = write_size h.size_at a n })) bs
IsHeld-write h left a n [] pos once all = tt
IsHeld-write h left a n (b ∷ bs) pos once all = (
  record {
    two_units = all.0.two_units;
    from = all.0.from;
    upto = all.0.upto;
    tagged = ground (arith, once a, all.0.tagged, all.0.two_units);
  },
  IsHeld-write h left a n bs pos (λ x. omega (arith, once x)) all.1,
)

units_for-gt : (n : ℕ) → n ≢ 0 → 1 < units_for n
unfolding units_for
units_for-gt n h = omega arith

-- Handing out a block keeps the invariant.
Taken-IsValid :
    (h : Heap) (live : List Block) (n a : ℕ) (left : List Block)
    → 1 < n
    → IsValid (world h live)
    → Taken h.base (end (arena h)) n h.free a left
    → IsValid
        (world (record h { free = left; size_at = write_size h.size_at a n }) (block a n ∷ live))
Taken-IsValid h live n a left big v t = record {
  above_null = v.above_null;
  chain = t.chain;
  held = (
    record { two_units = big; from = t.from; upto = t.upto; tagged = ground arith },
    IsHeld-write h left a n live (omega arith)
        (λ x. omega (arith, t.covered x, v.once x, in_block-le (arena h) x)) v.held,
  );
  once = λ x. omega (arith, t.covered x, v.once x);
}

alloc_result :
    (h : Heap) (live : List Block) (n : ℕ) (r : Option (ℕ × List Block)) (p : ℕ) (h' : Heap)
    → 1 < n
    → IsValid (world h live)
    → Outcome h.base (end (arena h)) n h.free r
    → hand_out h n r ≡ (some p, h')
    → IsValid (world h' (block (p - header_size) n ∷ live))
unfolding hand_out
alloc_result h live n none p h' big v o e = absurd (ground arith)
alloc_result h live n (some (a, left)) p h' big v o e =
    let at : p - header_size ≡ a = ground arith in
    let same : record h { free = left; size_at = write_size h.size_at a n } ≡ h' =
      ap (λ t. t.1) e in
    rw (at, ← same) (Taken-IsValid h live n a left big v o)

pub alloc-IsValid :
    (nbytes p : ℕ) (h h' : Heap) (live : List Block)
    → memalloc nbytes h ≡ (some p, h')
    → IsValid (world h live)
    → IsValid (world h' (block (p - header_size) (units_for nbytes) ∷ live))
unfolding memalloc
alloc-IsValid nbytes p h h' live e v = elim (Bool-cases (nbytes == 0)) [
  | inl zero ↦ absurd (ground arith)
  | inr more ↦
      let big = units_for-gt nbytes (ground arith) in
      alloc_result h live (units_for nbytes) (take_units (units_for nbytes) h.free) p h' big v
        (take_units-Outcome h.base (end (arena h)) (units_for nbytes) h.free (omega (arith, big))
          v.chain)
        (rw more at e)
]

-- `memfree` of a block in a caller's hands passes the guard and finds the block's size.
memfree-held :
    (h : Heap) (b : Block)
    → 0 < h.base
    → IsHeld h b
    → memfree (b.addr + header_size) h ≡ record h { free = insert b h.free }
unfolding memfree
memfree-held h b above held = ground (arith, held.from, held.upto, held.two_units, held.tagged)

-- The free list says nothing of what is held.
IsHeld-free :
    (h : Heap) (l : List Block) (bs : List Block)
    → All (IsHeld h) bs
    → All (IsHeld (record h { free = l })) bs
IsHeld-free h l [] all = tt
IsHeld-free h l (b ∷ bs) all = (
  record {
    two_units = all.0.two_units;
    from = all.0.from;
    upto = all.0.upto;
    tagged = all.0.tagged;
  },
  IsHeld-free h l bs all.1,
)

cover-middle :
    (before : List Block) (b : Block) (after : List Block) (x : ℕ)
    → cover (before ++ b ∷ after) x ≡ in_block b x + cover (before ++ after) x
cover-middle before b after x =
    omega (arith, cover-append before (b ∷ after) x, cover-append before after x)

pub memfree-IsValid :
    (h : Heap) (before : List Block) (b : Block) (after : List Block)
    → IsValid (world h (before ++ b ∷ after))
    → IsValid (world (memfree (b.addr + header_size) h) (before ++ after))
memfree-IsValid h before b after v =
    let parts = All-left (IsHeld h) before (b ∷ after) v.held in
    let hb : IsHeld h b = parts.1.0 in
    let pos : 0 < b.size = omega (arith, hb.two_units) in
    let apart =
      Apart-cover h.base (end (arena h)) b h.free pos v.chain
        (λ x. omega (arith, v.once x, cover-middle before b after x, in_block-le (arena h) x)) in
    let j = insert-Joined h.base (end (arena h)) b h.free pos hb.from hb.upto v.chain apart in
    rw (memfree-held h b v.above_null hb) (record {
      above_null = v.above_null;
      chain = j.chain;
      held =
          IsHeld-free h (insert b h.free) (before ++ after)
            (All-append (IsHeld h) before after parts.0 parts.1.1);
      once = λ x. omega (arith, j.covered x, v.once x, cover-middle before b after x);
    })

pub Step-IsValid : {s t : World} → Step s t → IsValid s → IsValid t
Step-IsValid (alloc nbytes p h h' live e) v = alloc-IsValid nbytes p h h' live e v
Step-IsValid (give_back h before b after) v = memfree-IsValid h before b after v

pub Reach-IsValid : {s t : World} → IsValid s → Reach s t → IsValid t
Reach-IsValid v here = v
Reach-IsValid v (next r st) = Step-IsValid st (Reach-IsValid v r)

pub mem_initialize-IsValid :
    (mem_base mem_size : ℕ)
    → 0 < mem_base
    → header_size ≤ mem_size
    → IsValid (world (mem_initialize mem_base mem_size) [])
unfolding mem_initialize
mem_initialize-IsValid mem_base mem_size hb hs = record {
  above_null = hb;
  chain = omega arith;
  held = tt;
  once = λ x. omega arith;
}

hand_out-arena :
    (h : Heap) (n : ℕ) (r : Option (ℕ × List Block)) → arena (hand_out h n r).1 ≡ arena h
unfolding hand_out
hand_out-arena h n none = refl
hand_out-arena h n (some x) = refl

memalloc-arena : (n : ℕ) (h : Heap) → arena (memalloc n h).1 ≡ arena h
unfolding memalloc
memalloc-arena n h = elim (Bool-cases (n == 0)) [
  | inl zero ↦ rw zero
  | inr more ↦ rw more (hand_out-arena h (units_for n) (take_units (units_for n) h.free))
]

memfree-arena : (p : ℕ) (h : Heap) → arena (memfree p h) ≡ arena h
unfolding memfree
memfree-arena p h = ground arith

Step-arena : {s t : World} → Step s t → arena t.heap ≡ arena s.heap
Step-arena (alloc nbytes p h h' live e) = ap (λ r. arena r.1) (sym e) ∙ memalloc-arena nbytes h
Step-arena (give_back h before b after) = memfree-arena (b.addr + header_size) h

Reach-arena : {s t : World} → Reach s t → arena t.heap ≡ arena s.heap
Reach-arena here = refl
Reach-arena (next r st) = Step-arena st ∙ Reach-arena r

-- From `memInitialize` on, whatever is allocated and given back in whatever order: each byte of the
-- arena is in exactly one block, free or held, no byte outside it is in any, and the free list is
-- in ascending order with no two blocks that touch and none that is empty.
pub Reach-cover :
    (mem_base mem_size : ℕ) {w : World}
    → 0 < mem_base
    → header_size ≤ mem_size
    → Reach (world (mem_initialize mem_base mem_size) []) w
    → let whole = block mem_base (mem_size / header_size) in
      ((x : ℕ) → cover w.heap.free x + cover w.live x ≡ in_block whole x)
      × IsChain mem_base (end whole) w.heap.free
unfolding mem_initialize
Reach-cover mem_base mem_size {w} hb hs r =
    let v = Reach-IsValid (mem_initialize-IsValid mem_base mem_size hb hs) r in
    subst
      (λ (b : Block).
        ((x : ℕ) → cover w.heap.free x + cover w.live x ≡ in_block b x)
        × IsChain b.addr (end b) w.heap.free)
      (Reach-arena r) (v.once, v.chain)
