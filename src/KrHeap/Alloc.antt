-- ===== src/KrHeap/Alloc.antt =====
-- `memalloc`: what it takes from the free list.
use bizcocho_os.Prelude.{
  ℕ, ◌+◌, ◌-◌, ◌*◌, ◌≤◌, ◌<◌, ◌≡◌, Option, none, some, List, [], ◌∷◌, inl, inr, arith, leb, ◌==◌,
  All, Bool-cases,
}
use bizcocho_os.KrHeap.{Block, end, block, header_size, take_units, free_units}
use bizcocho_os.KrHeap.Blocks.{IsChain, in_block, cover, Apart}

-- what is known when the loop hands out `a`
pub record Taken (lo hi n : ℕ) (bs : List Block) (a : ℕ) (left : List Block) : Type 0 where
  pub chain : IsChain lo hi left
  pub from : lo ≤ a
  pub upto : end (block a n) ≤ hi
  pub apart : Apart (block a n) left
  pub covered : (x : ℕ) → cover bs x ≡ cover left x + in_block (block a n) x
  pub units : free_units bs ≡ free_units left + n

IsChain-mono : (lo lo' hi : ℕ) (bs : List Block) → lo' ≤ lo → IsChain lo hi bs → IsChain lo' hi bs
IsChain-mono lo lo' hi [] h c = tt
IsChain-mono lo lo' hi (b ∷ bs) h c = (omega arith, c.1, c.2, c.3)

-- The rest of a chain lies behind a block that ends before it.
Apart-behind :
    (lo hi : ℕ) (c : Block) (bs : List Block) → end c ≤ lo → IsChain lo hi bs → Apart c bs
Apart-behind lo hi c [] h ch = tt
Apart-behind lo hi c (b ∷ bs) h ch =
    (omega arith, Apart-behind (end b + 1) hi c bs (omega arith) ch.3)

-- A block that has too few units is passed over.
Taken-cons :
    (lo hi n : ℕ) (b : Block) (bs : List Block) (a : ℕ) (left : List Block)
    → IsChain lo hi (b ∷ bs)
    → Taken (end b + 1) hi n bs a left
    → Taken lo hi n (b ∷ bs) a (b ∷ left)
unfolding free_units
Taken-cons lo hi n b bs a left c t = record {
  chain = (c.0, c.1, c.2, t.chain);
  from = omega (arith, t.from);
  upto = t.upto;
  apart = (omega (arith, t.from), t.apart);
  covered = λ x. omega (arith, t.covered x);
  units = omega (arith, t.units);
}

-- A block of exactly the units asked for leaves the list.
Taken-exact :
    (lo hi n : ℕ) (b : Block) (bs : List Block)
    → b.size ≡ n
    → IsChain lo hi (b ∷ bs)
    → Taken lo hi n (b ∷ bs) b.addr bs
unfolding free_units
Taken-exact lo hi n b bs e c = record {
  chain = IsChain-mono (end b + 1) lo hi bs (omega arith) c.3;
  from = c.0;
  upto = omega arith;
  apart = Apart-behind (end b + 1) hi (block b.addr n) bs (omega arith) c.3;
  covered = λ x. ground arith;
  units = omega arith;
}

-- A larger block gives its tail.
Taken-tail :
    (lo hi n : ℕ) (b : Block) (bs : List Block)
    → n < b.size
    → 0 < n
    → IsChain lo hi (b ∷ bs)
    → Taken lo hi n (b ∷ bs) (b.addr + header_size * (b.size - n)) (block b.addr (b.size - n) ∷ bs)
unfolding free_units
Taken-tail lo hi n b bs h pos c = record {
  chain = (
    c.0,
    omega arith,
    omega arith,
    IsChain-mono (end b + 1) (end (block b.addr (b.size - n)) + 1) hi bs (omega arith) c.3,
  );
  from = omega arith;
  upto = omega arith;
  apart = (
    omega arith,
    Apart-behind (end b + 1) hi (block (b.addr + header_size * (b.size - n)) n) bs (omega arith)
        c.3,
  );
  covered = λ x. ground arith;
  units = omega arith;
}

-- What the loop returns: no block is large enough, or a block is handed out.
abbrev pub Outcome : ℕ → ℕ → ℕ → List Block → Option (ℕ × List Block) → Type 0
Outcome lo hi n bs none = All (λ b. b.size < n) bs
Outcome lo hi n bs (some (a, left)) = Taken lo hi n bs a left

abbrev pub keep_head : Block → Option (ℕ × List Block) → Option (ℕ × List Block)
keep_head b r = elim r [ none ↦ none | some (a, left) ↦ some (a, b ∷ left) ]

Outcome-cons :
    (lo hi n : ℕ) (b : Block) (bs : List Block) (r : Option (ℕ × List Block))
    → b.size < n
    → IsChain lo hi (b ∷ bs)
    → Outcome (end b + 1) hi n bs r
    → Outcome lo hi n (b ∷ bs) (keep_head b r)
Outcome-cons lo hi n b bs none small c o = (small, o)
Outcome-cons lo hi n b bs (some (a, left)) small c o = Taken-cons lo hi n b bs a left c o

pub take_units-Outcome :
    (lo hi n : ℕ) (bs : List Block)
    → 0 < n
    → IsChain lo hi bs
    → Outcome lo hi n bs (take_units n bs)
unfolding take_units
take_units-Outcome lo hi n [] pos c = tt
take_units-Outcome lo hi n (b ∷ bs) pos c = elim (Bool-cases (leb n b.size)) [
  | inl fits ↦ elim (Bool-cases (b.size == n)) [
    | inl same ↦ rw (fits, same) (Taken-exact lo hi n b bs (ground arith) c)
    | inr more ↦ rw (fits, more) (Taken-tail lo hi n b bs (ground arith) pos c)
  ]
  | inr small ↦ rw small (
      Outcome-cons lo hi n b bs (take_units n bs) (ground arith) c
        (take_units-Outcome (end b + 1) hi n bs pos c.3))
]
