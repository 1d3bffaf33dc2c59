-- ===== src/LinkedList/Trace.antt =====
-- The lists as sequences of elements with an iterator: what any use of the operations comes to.
use bizcocho_os.Prelude.{
  ℕ, ◌+◌, ◌-◌, ◌%◌, ◌^◌, ◌≡◌, ◌≢◌, refl, ap, ◌∙◌, Bool, true, false, none, some, List, [], ◌∷◌,
  arith, length,
}
use bizcocho_os.LinkedList.{Store, new_list, add, to_begin, next, remove}
use bizcocho_os.LinkedList.Links.{Cell, rewind}
use bizcocho_os.LinkedList.Cursor.{
  IsList, At, new_list-IsList, to_begin-At, At-IsList, next-At, remove-At, add-IsList,
}

-- What a client sees: the elements, or an iterator between the elements that `next` gave, the last
-- first, and those that it still gives. `removable` says that `next` was the last call.
pub data View : Type 0 where
  resting : List ℕ → View
  iterating : (before after : List ℕ) (removable : Bool) → View

abbrev pub onto : List ℕ → List ℕ → List ℕ
onto [] ys = ys
onto (x ∷ xs) ys = onto xs (x ∷ ys)

abbrev pub items : View → List ℕ
items (resting xs) = xs
items (iterating bs xs m) = onto bs xs

abbrev pub elems : List Cell → List ℕ
elems [] = []
elems ((a, e) ∷ cs) = e ∷ elems cs

elems-rewind : (ds cs : List Cell) → elems (rewind ds cs) ≡ onto (elems ds) (elems cs)
elems-rewind [] cs = refl
elems-rewind ((a, e) ∷ ds) cs = elems-rewind ds ((a, e) ∷ cs)

pub length-onto : (xs ys : List ℕ) → length (onto xs ys) ≡ length xs + length ys
length-onto [] ys = omega arith
length-onto (x ∷ xs) ys = omega (arith, length-onto xs (x ∷ ys))

-- Uses of a list as its header asks for: `memalloc` gives addresses of no node, `next` is called in an
-- iteration, and `remove` behind a `next` that gave an element. `g` is what stood in the memory of
-- the size.
pub data Runs (g : ℕ) : View → Store → Type 0 where
  start : {s : Store} → new_list true g ≡ some s → Runs g (resting []) s
  added :
      {v : View} {s s' : Store} (p e : ℕ)
      → Runs g v s
      → s.heap p ≡ none
      → p ≢ 0
      → add (some p) e s ≡ some (true, s')
      → Runs g (resting (e ∷ items v)) s'
  begun : {v : View} {s : Store} → Runs g v s → Runs g (iterating [] (items v) false) (to_begin s)
  stepped :
      {bs xs : List ℕ} {x e : ℕ} {m : Bool} {s s' : Store}
      → Runs g (iterating bs (x ∷ xs) m) s
      → next s ≡ some (e, s')
      → Runs g (iterating (x ∷ bs) xs true) s'
  removed :
      {bs xs : List ℕ} {x : ℕ} {s s' : Store}
      → Runs g (iterating (x ∷ bs) xs true) s
      → remove s ≡ some s'
      → Runs g (iterating bs xs false) s'

-- The node that `remove` takes out is the last that `next` gave.
abbrev pub Marks : Bool → List Cell → Store → Type 0
Marks false ds s = Unit
Marks true [] s = ⊥
Marks true ((a, e) ∷ ds) s = s.list.to_remove ≡ a

-- The store stands for the view.
abbrev pub Refines : View → Store → Type 0
Refines (resting xs) s = (cs : List Cell) × IsList s cs × (elems cs ≡ xs)
Refines (iterating bs xs m) s =
    (ds : List Cell) × (cs : List Cell) × At s ds cs
    × (elems ds ≡ bs)
    × (elems cs ≡ xs)
    × Marks m ds s

pub Refines-items : (v : View) (s : Store) → Refines v s → Refines (resting (items v)) s
Refines-items (resting xs) s r = r
Refines-items (iterating bs xs m) s (ds, cs, p, eb, ex, k) =
    (rewind ds cs, At-IsList s ds cs p, rw (← eb, ← ex) (elems-rewind ds cs))

pub Refines-begin :
    (xs : List ℕ) (s : Store)
    → Refines (resting xs) s
    → Refines (iterating [] xs false) (to_begin s)
Refines-begin xs s (cs, l, e) = ([], cs, to_begin-At s cs l, refl, e, tt)

pub Refines-next :
    (bs xs : List ℕ) (x : ℕ) (m : Bool) (s : Store)
    → Refines (iterating bs (x ∷ xs) m) s
    → (s' : Store) × (next s ≡ some (x, s'))
      × Refines (iterating (x ∷ bs) xs true) s'
      × (s'.list.size ≡ s.list.size)
Refines-next bs xs x m s (ds, [], p, eb, ex, k) = absurd (cc)
Refines-next bs xs x m s (ds, (a, e) ∷ cs, p, eb, ex, k) =
    let moved = next-At s ds cs (a, e) p in
    let at : e ≡ x = cc in
    (
      moved.0,
      moved.1 ∙ ap (λ (y : ℕ). some (y, moved.0)) at,
      ((a, e) ∷ ds, cs, moved.2, cc, cc, moved.3),
      moved.4,
    )

pub Refines-remove :
    (bs xs : List ℕ) (x : ℕ) (s : Store)
    → Refines (iterating (x ∷ bs) xs true) s
    → (s' : Store) × (remove s ≡ some s')
      × Refines (iterating bs xs false) s'
      × (s'.list.size ≡ (s.list.size + 2 ^ 32 - 1) % 2 ^ 32)
Refines-remove bs xs x s ([], cs, p, eb, ex, k) = absurd (cc)
Refines-remove bs xs x s ((a, e) ∷ ds, cs, p, eb, ex, k) =
    let gone = remove-At s ds cs (a, e) p k in
    (gone.0, gone.1, (ds, cs, gone.2, cc, ex, tt), gone.4)

pub Refines-add :
    (xs : List ℕ) (p e : ℕ) (s : Store)
    → Refines (resting xs) s
    → s.heap p ≡ none
    → p ≢ 0
    → (s' : Store) × (add (some p) e s ≡ some (true, s'))
      × Refines (resting (e ∷ xs)) s'
      × (s'.list.size ≡ (s.list.size + 1) % 2 ^ 32)
Refines-add xs p e s (cs, l, ex) free far =
    let put = add-IsList s p e cs l free far in
    (put.0, put.1, ((p, e) ∷ cs, put.2, ap (λ (ys : List ℕ). e ∷ ys) ex), put.3)

-- The store stands for the view, and the size is what it was at the start and the number of elements.
pub record Stands (g : ℕ) (v : View) (s : Store) : Type 0 where
  pub refines : Refines v s
  pub size : s.list.size % 2 ^ 32 ≡ (g + length (items v)) % 2 ^ 32

pub Runs-Stands : {g : ℕ} {v : View} {s : Store} → Runs g v s → Stands g v s
unfolding new_list to_begin
Runs-Stands {g} (start {s} made) =
    let fresh = new_list-IsList true g s made in
    record { refines = ([], fresh.0, refl); size = omega (arith, fresh.1) }
Runs-Stands (added {v} {s} {s'} p e r free far done) =
    let ih = Runs-Stands r in
    let put = Refines-add (items v) p e s (Refines-items v s ih.refines) free far in
    let same : put.0 ≡ s' = cc (put.1, done) in
    rw (← same) (record { refines = put.2; size = omega (arith, ih.size, put.3) })
Runs-Stands (begun {v} {s} r) =
    let ih = Runs-Stands r in
    record { refines = Refines-begin (items v) s (Refines-items v s ih.refines); size = ih.size }
Runs-Stands (stepped {bs} {xs} {x} {e} {m} {s} {s'} r done) =
    let ih = Runs-Stands r in
    let moved = Refines-next bs xs x m s ih.refines in
    let same : moved.0 ≡ s' = cc (moved.1, done) in
    rw (← same) (record { refines = moved.2; size = omega (arith, ih.size, moved.3) })
Runs-Stands (removed {bs} {xs} {x} {s} {s'} r done) =
    let ih = Runs-Stands r in
    let gone = Refines-remove bs xs x s ih.refines in
    let same : gone.0 ≡ s' = cc (gone.1, done) in
    rw (← same) (record {
      refines = gone.2;
      size = omega (arith, ih.size, gone.3, length-onto bs (x ∷ xs), length-onto bs xs);
    })
