-- ===== src/LinkedList/Walks.antt =====
-- `find` and `freeList`, and what a client of a list can count on.
use bizcocho_os.Prelude.{
  ℕ, zero, suc, ◌+◌, ◌%◌, ◌^◌, ◌≤◌, ◌<◌, ◌≡◌, ◌≢◌, refl, ap, ◌∙◌, Bool, true, false, none, some,
  inl, inr, List, [], ◌∷◌, arith, ◌==◌, if◌then◌else◌, update, Bool-cases, length,
}
use bizcocho_os.LinkedList.{
  Heap, Store, Loop, ended, fault, out_of_fuel, add, has_next, next, remove, find_from, find,
  free_from, free_list,
}
use bizcocho_os.LinkedList.Links.{Cell, head, uses, Ahead, Ahead-update}
use bizcocho_os.LinkedList.Cursor.{IsList, next-end}
use bizcocho_os.LinkedList.Trace.{
  View, resting, iterating, items, elems, Runs, Refines, Refines-items, Refines-next,
  Refines-remove, Refines-add, Runs-Stands,
}

-- The first element that passes the test, 0 if none does.
abbrev pub first_such : (ℕ → Bool) → List ℕ → ℕ
first_such test [] = 0
first_such test (x ∷ xs) = if test x then x else first_such test xs

find_from_lem :
    (fuel : ℕ) (test : ℕ → Bool) (h : Heap) (prev : ℕ) (cs : List Cell)
    → Ahead h prev cs
    → length (elems cs) < fuel
    → find_from fuel test h (head cs) ≡ ended (first_such test (elems cs))
unfolding find_from
find_from_lem zero test h prev cs a lt = absurd (omega arith)
find_from_lem (suc fuel) test h prev [] a lt = refl
find_from_lem (suc fuel) test h prev ((p, e) ∷ cs) a lt =
    let far : (p == 0) ≡ false = ground (arith, a.1) in
    let ih = find_from_lem fuel test h p cs a.2 (omega arith) in
    rw (far, a.0) (elim (Bool-cases (test e)) [ inl hit ↦ rw hit | inr miss ↦ rw miss ih ])

-- What is left of the heap once the nodes of the cells are given back.
abbrev Freed : Heap → List Cell → Loop Heap → Type 0
Freed h cs (ended h') = (a : ℕ) → h' a ≡ (if uses a cs == 0 then h a else none)
Freed h cs _ = ⊥

Freed-cons :
    (h : Heap) (p e : ℕ) (cs : List Cell) (r : Loop Heap)
    → Freed (update h p none) cs r
    → Freed h ((p, e) ∷ cs) r
Freed-cons h p e cs (ended h') f = λ b. elim (Bool-cases (b == p)) [
  | inl same ↦ let at : b ≡ p = ground arith in ground (arith, f b)
  | inr other ↦ ground (arith, f b)
]
Freed-cons h p e cs fault f = f
Freed-cons h p e cs out_of_fuel f = f

free_from-Freed :
    (fuel : ℕ) (h : Heap) (prev : ℕ) (cs : List Cell)
    → Ahead h prev cs
    → ((a : ℕ) → uses a cs ≤ 1)
    → length (elems cs) < fuel
    → Freed h cs (free_from fuel (head cs) h)
unfolding free_from
free_from-Freed zero h prev cs a d lt = absurd (omega arith)
free_from-Freed (suc fuel) h prev [] a d lt = λ b. refl
free_from-Freed (suc fuel) h prev ((p, e) ∷ cs) a d lt =
    let far : (p == 0) ≡ false = ground (arith, a.1) in
    let out : uses p cs ≡ 0 = ground (arith, d p) in
    let h' = update h p none in
    let ih =
      free_from-Freed fuel h' p cs (Ahead-update h p p none cs out a.2) (λ b. omega (arith, d b))
        (omega arith) in
    rw (far, a.0) (Freed-cons h p e cs (free_from fuel (head cs) h') ih)

-- What `next` gives in a view, and that it has it to give.
abbrev pub Gives : View → Store → Type 0
Gives (resting xs) s = Unit
Gives (iterating bs [] m) s = (has_next s ≡ false) × (next s ≡ some (0, s))
Gives (iterating bs (x ∷ xs) m) s = (has_next s ≡ true) × ((s' : Store) × (next s ≡ some (x, s')))

abbrev pub Drops : View → Store → Type 0
Drops (iterating (x ∷ bs) xs true) s = (s' : Store) × (remove s ≡ some s')
Drops _ s = Unit

-- Every node is given back.
abbrev pub Empties : Loop Heap → Type 0
Empties (ended h) = (a : ℕ) → h a ≡ none
Empties _ = ⊥

-- What a client can count on.
pub record Serves (g : ℕ) (v : View) (s : Store) : Type 0 where
  pub adds :
      (p e : ℕ) → s.heap p ≡ none → p ≢ 0 → (s' : Store) × (add (some p) e s ≡ some (true, s'))
  pub gives : Gives v s
  pub drops : Drops v s
  pub finds :
      (fuel : ℕ) (test : ℕ → Bool)
      → length (items v) < fuel
      → find fuel test s ≡ ended (first_such test (items v))
  pub frees : (fuel : ℕ) → length (items v) < fuel → Empties (free_list fuel s)
  pub size : s.list.size % 2 ^ 32 ≡ (g + length (items v)) % 2 ^ 32

Refines-Gives : (v : View) (s : Store) → Refines v s → Gives v s
unfolding has_next
Refines-Gives (resting xs) s r = tt
Refines-Gives (iterating bs [] m) s (ds, [], p, eb, ex, k) =
    (ground (arith, p.current), next-end s ds p)
Refines-Gives (iterating bs [] m) s (ds, c ∷ cs, p, eb, ex, k) = absurd (cc)
Refines-Gives (iterating bs (x ∷ xs) m) s (ds, [], p, eb, ex, k) = absurd (cc)
Refines-Gives (iterating bs (x ∷ xs) m) s (ds, (a, e) ∷ cs, p, eb, ex, k) =
    let moved = Refines-next bs xs x m s (ds, (a, e) ∷ cs, p, eb, ex, k) in
    (ground (arith, p.current, p.ahead.1), (moved.0, moved.1))

Refines-Drops : (v : View) (s : Store) → Refines v s → Drops v s
Refines-Drops (resting xs) s r = tt
Refines-Drops (iterating [] xs m) s r = tt
Refines-Drops (iterating (x ∷ bs) xs false) s r = tt
Refines-Drops (iterating (x ∷ bs) xs true) s r =
    let gone = Refines-remove bs xs x s r in (gone.0, gone.1)

find-first_such :
    (fuel : ℕ) (test : ℕ → Bool) (s : Store) (cs : List Cell)
    → IsList s cs
    → length (elems cs) < fuel
    → find fuel test s ≡ ended (first_such test (elems cs))
unfolding find
find-first_such fuel test s cs l lt = rw (l.first) (find_from_lem fuel test s.heap 0 cs l.ahead lt)

Freed-Empties :
    (h : Heap) (cs : List Cell) (r : Loop Heap)
    → ((a : ℕ) → uses a cs ≡ 0 → h a ≡ none)
    → Freed h cs r
    → Empties r
Freed-Empties h cs (ended h') o f = λ a. elim (Bool-cases (uses a cs == 0)) [
  | inl out ↦ f a ∙ rw out (o a (ground arith))
  | inr used ↦ f a ∙ rw used
]
Freed-Empties h cs fault o f = f
Freed-Empties h cs out_of_fuel o f = f

free_list-Empties :
    (fuel : ℕ) (s : Store) (cs : List Cell)
    → IsList s cs
    → length (elems cs) < fuel
    → Empties (free_list fuel s)
unfolding free_list
free_list-Empties fuel s cs l lt = rw (l.first) (
    Freed-Empties s.heap cs (free_from fuel (head cs) s.heap) l.owns
      (free_from-Freed fuel s.heap 0 cs l.ahead l.distinct lt))

-- Any use of a list as its header asks for serves as a sequence of elements with an iterator: new elements go in
-- front, `next` gives the elements in the order of the list and `NULL` at the end, `remove` takes out
-- what `next` gave, `find` with more fuel than elements ends with the first element that passes, and
-- `freeList` gives every node back; no call goes through a pointer to no node. The size is the number of
-- elements and what stood in its memory at the start, modulo 2^32.
pub Runs-Serves : {g : ℕ} {v : View} {s : Store} → Runs g v s → Serves g v s
Runs-Serves {v = v} {s = s} r =
    let stands = Runs-Stands r in
    let whole = Refines-items v s stands.refines in
    record {
      adds = λ p e free far. let put = Refines-add (items v) p e s whole free far in (put.0, put.1);
      gives = Refines-Gives v s stands.refines;
      drops = Refines-Drops v s stands.refines;
      finds = λ fuel test lt.
          find-first_such fuel test s whole.0 whole.1
            (omega (arith, ap (λ (l : List ℕ). length l) whole.2, lt))
          ∙ ap (λ (l : List ℕ). ended (first_such test l)) whole.2;
      frees = λ fuel lt.
          free_list-Empties fuel s whole.0 whole.1
            (omega (arith, ap (λ (l : List ℕ). length l) whole.2, lt));
      size = stands.size;
    }
