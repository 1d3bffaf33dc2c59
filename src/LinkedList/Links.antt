-- ===== src/LinkedList/Links.antt =====
-- Chains of nodes, seen from a place in the list: the nodes before it, the nearest first, and the nodes
-- behind it.
use bizcocho_os.Prelude.{
  ℕ, ◌+◌, ◌≤◌, ◌≡◌, ◌≢◌, refl, sym, ap, ◌∙◌, true, false, Option, none, some, inl, inr, List, [],
  ◌∷◌, arith, ◌==◌, if◌then◌else◌, update, Bool-cases,
}
use bizcocho_os.LinkedList.{Node, Heap, write_next, write_prev}

-- The address and the element of a node.
abbrev pub Cell : Type 0
Cell = ℕ × ℕ

abbrev pub node : ℕ → ℕ → ℕ → Option Node
node e n p = some (record { elem = e; next = n; prev = p })

abbrev pub head : List Cell → ℕ
head [] = 0
head ((a, e) ∷ cs) = a

-- How many of the cells have the address.
abbrev pub uses : ℕ → List Cell → ℕ
uses a [] = 0
uses a ((b, e) ∷ cs) = (if b == a then 1 else 0) + uses a cs

-- From the first cell on the `next` pointers lead through the cells to `NULL`; the first has `prev` before it.
abbrev pub Ahead : Heap → ℕ → List Cell → Type 0
Ahead h prev [] = Unit
Ahead h prev ((a, e) ∷ cs) = (h a ≡ node e (head cs) prev) × (a ≢ 0) × Ahead h a cs

-- From the first cell on the `prev` pointers lead through the cells to `NULL`; the first has `next` behind it.
abbrev pub Behind : Heap → ℕ → List Cell → Type 0
Behind h next [] = Unit
Behind h next ((a, e) ∷ cs) = (h a ≡ node e next (head cs)) × (a ≢ 0) × Behind h a cs

-- A write to a node of neither chain changes neither.
pub Ahead-update :
    (h : Heap) (prev p : ℕ) (v : Option Node) (cs : List Cell)
    → uses p cs ≡ 0
    → Ahead h prev cs
    → Ahead (update h p v) prev cs
Ahead-update h prev p v [] out c = tt
Ahead-update h prev p v ((a, e) ∷ cs) out c =
    let other : (a == p) ≡ false = ground arith in
    (rw other c.0, c.1, Ahead-update h a p v cs (omega arith) c.2)

pub Behind-update :
    (h : Heap) (next p : ℕ) (v : Option Node) (cs : List Cell)
    → uses p cs ≡ 0
    → Behind h next cs
    → Behind (update h p v) next cs
Behind-update h next p v [] out c = tt
Behind-update h next p v ((a, e) ∷ cs) out c =
    let other : (a == p) ≡ false = ground arith in
    (rw other c.0, c.1, Behind-update h a p v cs (omega arith) c.2)

-- An address that no cell has.
pub uses-head : (cs : List Cell) → head cs ≢ 0 → 1 ≤ uses (head cs) cs
uses-head [] ne = absurd (ne refl)
uses-head ((a, e) ∷ cs) ne = ground arith

pub uses-cons :
    (a b e : ℕ) (cs : List Cell) → uses a ((b, e) ∷ cs) ≡ 0 → ((a == b) ≡ false) × (uses a cs ≡ 0)
uses-cons a b e cs o = (ground arith, ground arith)

pub uses-cons-le :
    (a p e : ℕ) (cs : List Cell) → uses p cs ≡ 0 → uses a cs ≤ 1 → uses a ((p, e) ∷ cs) ≤ 1
uses-cons-le a p e cs o d = elim (Bool-cases (p == a)) [
  | inl same ↦
      let at : p ≡ a = ground arith in
      let none_yet : uses a cs ≡ 0 = ap (λ (x : ℕ). uses x cs) (sym at) ∙ o in rw same (omega arith)
  | inr other ↦ rw other (omega arith)
]

-- The first cell gets another neighbour.
pub Ahead-write_prev :
    (h : Heap) (prev new : ℕ) (c : Cell) (cs : List Cell)
    → uses c.0 cs ≡ 0
    → Ahead h prev (c ∷ cs)
    → (write_prev c.0 new h ≡ some (update h c.0 (node c.1 (head cs) new)))
      × Ahead (update h c.0 (node c.1 (head cs) new)) new (c ∷ cs)
unfolding write_prev
Ahead-write_prev h prev new (a, e) cs out c =
    let self : (a == a) ≡ true = ground arith in
    (rw (c.0, write_prev), (rw self, c.1, Ahead-update h a a (node e (head cs) new) cs out c.2))

pub Behind-write_next :
    (h : Heap) (next new : ℕ) (c : Cell) (cs : List Cell)
    → uses c.0 cs ≡ 0
    → Behind h next (c ∷ cs)
    → (write_next c.0 new h ≡ some (update h c.0 (node c.1 new (head cs))))
      × Behind (update h c.0 (node c.1 new (head cs))) new (c ∷ cs)
unfolding write_next
Behind-write_next h next new (a, e) cs out c =
    let self : (a == a) ≡ true = ground arith in
    (rw (c.0, write_next), (rw self, c.1, Behind-update h a a (node e new (head cs)) cs out c.2))

-- The cells from the front of the list on.
abbrev pub rewind : List Cell → List Cell → List Cell
rewind [] cs = cs
rewind (d ∷ ds) cs = rewind ds (d ∷ cs)

pub Ahead-rewind :
    (h : Heap) (ds cs : List Cell)
    → Behind h (head cs) ds
    → Ahead h (head ds) cs
    → Ahead h 0 (rewind ds cs)
Ahead-rewind h [] cs b a = a
Ahead-rewind h ((p, e) ∷ ds) cs b a = Ahead-rewind h ds ((p, e) ∷ cs) b.2 (b.0, b.1, a)

pub uses-rewind : (a : ℕ) (ds cs : List Cell) → uses a (rewind ds cs) ≡ uses a ds + uses a cs
uses-rewind a [] cs = omega arith
uses-rewind a ((p, e) ∷ ds) cs = omega (arith, uses-rewind a ds ((p, e) ∷ cs))

-- Where there are cells before, the front does not depend on what is behind.
pub head-rewind :
    (d : Cell) (ds cs ks : List Cell) → head (rewind (d ∷ ds) cs) ≡ head (rewind (d ∷ ds) ks)
head-rewind d [] cs ks = refl
head-rewind d (b ∷ ds) cs ks = head-rewind b ds (d ∷ cs) (d ∷ ks)

-- An address of no node is of no cell.
pub uses_of_none :
    (h : Heap) (prev p : ℕ) (cs : List Cell) → h p ≡ none → Ahead h prev cs → uses p cs ≡ 0
uses_of_none h prev p [] free c = refl
uses_of_none h prev p ((a, e) ∷ cs) free c = elim (Bool-cases (a == p)) [
  | inl same ↦ let at : a ≡ p = ground arith in absurd (cc (ap h at))
  | inr other ↦ rw other (omega (arith, uses_of_none h a p cs free c.2))
]
