-- ===== src/KrHeap/Free.antt =====
-- `memfree`: putting a block back keeps the free list a chain and loses no byte.
use bizcocho_os.Prelude.{
  ℕ, ◌+◌, ◌-◌, ◌*◌, ◌≤◌, ◌<◌, ◌≡◌, refl, false, ap, ◌∙◌, Option, none, some, inl, inr, List, [],
  ◌∷◌, arith, ltb, leb, ◌==◌, Bool-cases,
}
use bizcocho_os.KrHeap.{
  Block, end, block, header_size, join_next, link_between, insert_after, insert, free_units,
  take_units,
}
use bizcocho_os.KrHeap.Blocks.{IsChain, in_block, cover, Apart}
use bizcocho_os.KrHeap.Alloc.{Outcome, keep_head, take_units-Outcome}

-- What a list with `ins` put back satisfies.
pub record Joined (lo hi : ℕ) (ins : Block) (bs out : List Block) : Type 0 where
  pub chain : IsChain lo hi out
  pub covered : (x : ℕ) → cover out x ≡ cover bs x + in_block ins x
  pub units : free_units out ≡ free_units bs + ins.size

-- Between `curr` and what follows it, where `ins` ends before the next block begins.
link_between-Joined :
    (lo hi : ℕ) (ins curr : Block) (rest : List Block)
    → 0 < ins.size
    → end ins ≤ hi
    → end curr ≤ ins.addr
    → lo ≤ curr.addr
    → 0 < curr.size
    → IsChain (end ins) hi rest
    → Joined lo hi ins (curr ∷ rest) (link_between ins curr rest)
unfolding link_between join_next free_units
link_between-Joined lo hi ins curr [] pi he ha lc pc ch = ground arith
link_between-Joined lo hi ins curr (nx ∷ rest) pi he ha lc pc ch = ground arith

insert_after-Joined :
    (lo hi : ℕ) (ins curr : Block) (rest : List Block)
    → 0 < ins.size
    → end ins ≤ hi
    → end curr ≤ ins.addr
    → IsChain lo hi (curr ∷ rest)
    → Apart ins rest
    → Joined lo hi ins (curr ∷ rest) (insert_after ins curr rest)
unfolding insert_after free_units
insert_after-Joined lo hi ins curr [] pi he ha c apart =
    link_between-Joined lo hi ins curr [] pi he ha c.0 c.1 tt
insert_after-Joined lo hi ins curr (nx ∷ rest) pi he ha c apart =
    elim (Bool-cases (ltb nx.addr ins.addr)) [
      | inl on ↦
          let before : end nx ≤ ins.addr = ground arith in
          let ih = insert_after-Joined (end curr + 1) hi ins nx rest pi he before c.3 apart.1 in
          rw on (record {
            chain = (c.0, c.1, c.2, ih.chain);
            covered = λ x. omega (arith, ih.covered x);
            units = omega (arith, ih.units);
          })
      | inr stop ↦ rw stop (
          link_between-Joined lo hi ins curr (nx ∷ rest) pi he ha c.0 c.1
            (ground arith, c.3.1, c.3.2, c.3.3))
    ]

-- `memfree` keeps the chain: nothing is lost, and touching blocks are joined.
pub insert-Joined :
    (lo hi : ℕ) (ins : Block) (bs : List Block)
    → 0 < ins.size
    → lo ≤ ins.addr
    → end ins ≤ hi
    → IsChain lo hi bs
    → Apart ins bs
    → Joined lo hi ins bs (insert ins bs)
unfolding insert free_units
insert-Joined lo hi ins [] pi hl he c apart = ground arith
insert-Joined lo hi ins (fp ∷ rest) pi hl he c apart = elim (Bool-cases (ltb ins.addr fp.addr)) [
  | inl front ↦ let before : end ins ≤ fp.addr = ground arith in rw front (ground arith)
  | inr behind ↦ rw behind (insert_after-Joined lo hi ins fp rest pi he (ground arith) c apart.1)
]

-- Behind a block that does not touch it, `memfree` works on the rest of the list alone.
insert_after-insert :
    (lo hi : ℕ) (ins b : Block) (left : List Block)
    → 0 < ins.size
    → end b < ins.addr
    → IsChain lo hi left
    → Apart ins left
    → insert_after ins b left ≡ b ∷ insert ins left
unfolding insert insert_after link_between join_next
insert_after-insert lo hi ins b [] pi h c apart = ground arith
insert_after-insert lo hi ins b (nx ∷ rest) pi h c apart = ground arith

insert-exact :
    (lo hi : ℕ) (b : Block) (bs : List Block)
    → 0 < b.size
    → IsChain (end b + 1) hi bs
    → insert b bs ≡ b ∷ bs
unfolding insert
insert-exact lo hi b [] pi c = refl
insert-exact lo hi b (nx ∷ rest) pi c = ground arith

insert-tail :
    (hi n : ℕ) (b : Block) (bs : List Block)
    → 0 < n
    → n < b.size
    → IsChain (end b + 1) hi bs
    → insert (block (b.addr + header_size * (b.size - n)) n) (block b.addr (b.size - n) ∷ bs)
      ≡ b ∷ bs
unfolding insert insert_after link_between join_next
insert-tail hi n b [] pn h c = ground arith
insert-tail hi n b (nx ∷ rest) pn h c = ground arith

-- Giving back what the loop of `memalloc` took restores the free list.
abbrev pub Restores : ℕ → List Block → Option (ℕ × List Block) → Type 0
Restores n bs none = Unit
Restores n bs (some (a, left)) = insert (block a n) left ≡ bs

Restores-cons :
    (lo hi n : ℕ) (b : Block) (bs : List Block) (r : Option (ℕ × List Block))
    → 0 < n
    → Outcome (end b + 1) hi n bs r
    → Restores n bs r
    → Restores n (b ∷ bs) (keep_head b r)
unfolding insert
Restores-cons lo hi n b bs none pn o e = tt
Restores-cons lo hi n b bs (some (a, left)) pn o e =
    let on : ltb a b.addr ≡ false = ground (arith, o.from) in
    rw on (
      insert_after-insert (end b + 1) hi (block a n) b left pn (omega (arith, o.from)) o.chain
        o.apart
      ∙ ap (λ t. b ∷ t) e)

pub take_units-Restores :
    (lo hi n : ℕ) (bs : List Block) → 0 < n → IsChain lo hi bs → Restores n bs (take_units n bs)
unfolding take_units
take_units-Restores lo hi n [] pn c = tt
take_units-Restores lo hi n (b ∷ bs) pn c = elim (Bool-cases (leb n b.size)) [
  | inl fits ↦ elim (Bool-cases (b.size == n)) [
    | inl same ↦ rw (fits, same) (ground (arith, insert-exact lo hi b bs c.1 c.3))
    | inr more ↦ rw (fits, more) (insert-tail hi n b bs pn (ground arith) c.3)
  ]
  | inr small ↦ rw small (
      Restores-cons lo hi n b bs (take_units n bs) pn
        (take_units-Outcome (end b + 1) hi n bs pn c.3)
        (take_units-Restores (end b + 1) hi n bs pn c.3))
]
