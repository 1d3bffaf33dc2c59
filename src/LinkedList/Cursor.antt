-- ===== src/LinkedList/Cursor.antt =====
-- The operations at a place in the list.
use bizcocho_os.Prelude.{
  ℕ, ◌+◌, ◌-◌, ◌%◌, ◌^◌, ◌≤◌, ◌≡◌, ◌≢◌, refl, ap, ◌∙◌, Bool, true, false, none, some, inl, inr,
  List, [], ◌∷◌, arith, ◌==◌, update, Bool-cases,
}
use mathlib.Core.Path.{subst}
use mathlib.Core.Option.{some-injective, none-ne-some}
use bizcocho_os.LinkedList.{
  Node, Header, Store, set_heap, new_list, add, to_begin, next, link_back, link_front, release,
  unlink, remove,
}
use bizcocho_os.LinkedList.Links.{
  Cell, node, head, uses, Ahead, Behind, Ahead-update, Behind-update, Ahead-write_prev,
  Behind-write_next, rewind, Ahead-rewind, uses-rewind, head-rewind, uses_of_none, uses-cons-le,
  uses-cons,
}

-- The list has these cells, and the heap no other node.
pub record IsList (s : Store) (cs : List Cell) : Type 0 where
  pub first : s.list.first ≡ head cs
  pub ahead : Ahead s.heap 0 cs
  pub distinct : (a : ℕ) → uses a cs ≤ 1
  pub owns : (a : ℕ) → uses a cs ≡ 0 → s.heap a ≡ none

-- The iterator stands between `ds`, the nearest first, and `cs`.
pub record At (s : Store) (ds cs : List Cell) : Type 0 where
  pub first : s.list.first ≡ head (rewind ds cs)
  pub current : s.list.current ≡ head cs
  pub behind : Behind s.heap (head cs) ds
  pub ahead : Ahead s.heap (head ds) cs
  pub distinct : (a : ℕ) → uses a ds + uses a cs ≤ 1
  pub owns : (a : ℕ) → uses a ds + uses a cs ≡ 0 → s.heap a ≡ none

-- A list that is made is empty, and keeps the size that it finds.
pub new_list-IsList :
    (for_header : Bool) (garbage : ℕ) (s : Store)
    → new_list for_header garbage ≡ some s
    → IsList s [] × (s.list.size ≡ garbage)
unfolding new_list
new_list-IsList false garbage s e = absurd (none-ne-some _ e)
new_list-IsList true garbage s e =
    subst (λ (t : Store). IsList t [] × (t.list.size ≡ garbage)) (some-injective _ _ e)
      (record { first = refl; ahead = tt; distinct = λ a. omega arith; owns = λ a _. refl }, refl)

pub to_begin-At : (s : Store) (cs : List Cell) → IsList s cs → At (to_begin s) [] cs
unfolding to_begin
to_begin-At s cs l = record {
  first = l.first;
  current = l.first;
  behind = tt;
  ahead = l.ahead;
  distinct = λ a. omega (arith, l.distinct a);
  owns = λ a h. l.owns a (omega arith);
}

pub At-IsList : (s : Store) (ds cs : List Cell) → At s ds cs → IsList s (rewind ds cs)
At-IsList s ds cs p = record {
  first = p.first;
  ahead = Ahead-rewind s.heap ds cs p.behind p.ahead;
  distinct = λ a. omega (arith, uses-rewind a ds cs, p.distinct a);
  owns = λ a h. p.owns a (omega (arith, uses-rewind a ds cs));
}

-- `next` moves over a cell and gives its element.
pub next-At :
    (s : Store) (ds cs : List Cell) (c : Cell)
    → At s ds (c ∷ cs)
    → (s' : Store) × (next s ≡ some (c.1, s'))
      × At s' (c ∷ ds) cs
      × (s'.list.to_remove ≡ c.0)
      × (s'.list.size ≡ s.list.size)
unfolding next
next-At s ds cs (a, e) p =
    let here : (s.list.current == 0) ≡ false = ground (arith, p.current, p.ahead.1) in
    let s' = record s { list = record (s.list) { to_remove = a; current = head cs } } in
    (
      s',
      rw (here, p.current, p.ahead.0, p.current),
      record {
        first = p.first;
        current = refl;
        behind = (p.ahead.0, p.ahead.1, p.behind);
        ahead = p.ahead.2;
        distinct = λ b. omega (arith, p.distinct b);
        owns = λ b h. p.owns b (omega arith);
      },
      refl,
      refl,
    )

pub next-end : (s : Store) (ds : List Cell) → At s ds [] → next s ≡ some (0, s)
unfolding next
next-end s ds p = let end : (s.list.current == 0) ≡ true = ground (arith, p.current) in rw end

-- Between the halves of `remove` and behind both: the cells before and behind, with the node of `c` out.
record Mid (ds cs : List Cell) (s s' : Store) : Type 0 where
  first : s'.list.first ≡ head (rewind ds cs)
  list : s'.list ≡ record (s.list) { first = s'.list.first }
  behind : Behind s'.heap (head cs) ds
  same : (a : ℕ) → uses a ds + uses a cs ≡ 0 → s'.heap a ≡ s.heap a

link_back-Mid :
    (s : Store) (ds cs : List Cell) (c : Cell)
    → At s (c ∷ ds) cs
    → (s' : Store) × (link_back (record { elem = c.1; next = head cs; prev = head ds }) s ≡ some s')
      × Mid ds cs s s'
      × Ahead s'.heap c.0 cs
unfolding link_back
link_back-Mid s [] cs c p = (
  record s { list = record (s.list) { first = head cs } },
  refl,
  record { first = refl; list = refl; behind = tt; same = λ a _. refl },
  p.ahead,
)
link_back-Mid s ((d, f) ∷ ds) cs (a, e) p =
    let far : (d == 0) ≡ false = ground (arith, p.behind.2) in
    let out : uses d ds ≡ 0 = ground (arith, p.distinct d) in
    let apart : uses d cs ≡ 0 = ground (arith, p.distinct d) in
    let linked = Behind-write_next s.heap a (head cs) (d, f) ds out p.behind.2 in
    let h = update s.heap d (node f (head cs) (head ds)) in
    (
      set_heap s h,
      rw (far, linked.0),
      record {
        first = p.first ∙ head-rewind (d, f) ds ((a, e) ∷ cs) cs;
        list = refl;
        behind = linked.1;
        same = λ b o. let other : (b == d) ≡ false = ground arith in rw other;
      },
      Ahead-update s.heap a d (node f (head cs) (head ds)) cs apart p.ahead,
    )

link_front-Mid :
    (s s₁ : Store) (ds cs : List Cell) (c : Cell)
    → ((a : ℕ) → uses a ds + uses a cs ≤ 1)
    → Mid ds cs s s₁
    → Ahead s₁.heap c.0 cs
    → (s' : Store) × (link_front (record { elem = c.1; next = head cs; prev = head ds }) s₁
        ≡ some s')
      × Mid ds cs s s'
      × Ahead s'.heap (head ds) cs
unfolding link_front
link_front-Mid s s₁ ds [] c dist m ah = (s₁, refl, m, tt)
link_front-Mid s s₁ ds ((k, f) ∷ cs) c dist m ah =
    let far : (k == 0) ≡ false = ground (arith, ah.1) in
    let out : uses k cs ≡ 0 = ground (arith, dist k) in
    let apart : uses k ds ≡ 0 = ground (arith, dist k) in
    let linked = Ahead-write_prev s₁.heap c.0 (head ds) (k, f) cs out ah in
    let h = update s₁.heap k (node f (head cs) (head ds)) in
    (
      set_heap s₁ h,
      rw (far, linked.0),
      record {
        first = m.first;
        list = m.list;
        behind = Behind-update s₁.heap k k (node f (head cs) (head ds)) ds apart m.behind;
        same = λ b o. let other : (b == k) ≡ false = ground arith in rw other (m.same b o);
      },
      linked.1,
    )

release-At :
    (s s₂ : Store) (ds cs : List Cell) (c : Cell)
    → At s (c ∷ ds) cs
    → s.list.to_remove ≡ c.0
    → Mid ds cs s s₂
    → Ahead s₂.heap (head ds) cs
    → At (release s₂) ds cs
unfolding release
release-At s s₂ ds cs (a, e) p mark m ah =
    let at : s₂.list.to_remove ≡ a = ap (λ (l : Header). l.to_remove) m.list ∙ mark in
    let place : s₂.list.current ≡ head cs = ap (λ (l : Header). l.current) m.list ∙ p.current in
    let out : uses a ds + uses a cs ≡ 0 = ground (arith, p.distinct a) in
    rw at (record {
      first = m.first;
      current = place;
      behind = Behind-update s₂.heap (head cs) a none ds (omega (arith, out)) m.behind;
      ahead = Ahead-update s₂.heap (head ds) a none cs (omega (arith, out)) ah;
      distinct = λ b. ground (arith, p.distinct b);
      owns = λ b o. elim (Bool-cases (b == a)) [
        | inl same ↦ rw same
        | inr other ↦ rw other (m.same b o ∙ p.owns b (ground arith))
      ];
    })

remove-unlink :
    (s : Store) (n : Node)
    → (s.list.to_remove == 0) ≡ false
    → s.heap s.list.to_remove ≡ some n
    → remove s ≡ unlink n s
unfolding remove
remove-unlink s n far e = rw (far, e)

unlink-release :
    (n : Node) (s s₁ s₂ : Store)
    → link_back n s ≡ some s₁
    → link_front n s₁ ≡ some s₂
    → unlink n s ≡ some (release s₂)
unfolding unlink
unlink-release n s s₁ s₂ e f = rw (e, f, unlink)

-- `remove` takes out the cell that `next` gave, and its node is gone.
pub remove-At :
    (s : Store) (ds cs : List Cell) (c : Cell)
    → At s (c ∷ ds) cs
    → s.list.to_remove ≡ c.0
    → (s' : Store) × (remove s ≡ some s')
      × At s' ds cs
      × (s'.list.to_remove ≡ 0)
      × (s'.list.size ≡ (s.list.size + 2 ^ 32 - 1) % 2 ^ 32)
unfolding release
remove-At s ds cs (a, e) p mark =
    let far : (s.list.to_remove == 0) ≡ false = ground (arith, mark, p.behind.1) in
    let back = link_back-Mid s ds cs (a, e) p in
    let front =
      link_front-Mid s back.0 ds cs (a, e) (λ b. omega (arith, p.distinct b)) back.2 back.3 in
    let s₂ = front.0 in
    let n : Node = record { elem = e; next = head cs; prev = head ds } in
    let size = ap (λ (l : Header). (l.size + 2 ^ 32 - 1) % 2 ^ 32) front.2.list in
    (
      release s₂,
      remove-unlink s n far (ap s.heap mark ∙ p.behind.0)
          ∙ unlink-release n s back.0 s₂ back.1 front.1,
      release-At s s₂ ds cs (a, e) p mark front.2 front.3,
      refl,
      size,
    )

-- `add` before a node that is there.
add-second :
    (s : Store) (p e k : ℕ) (n : Node)
    → s.list.first ≡ k
    → (k == 0) ≡ false
    → update s.heap p (node e k 0) k ≡ some n
    → add (some p) e s
      ≡ some (
        true,
        record {
          list = record (s.list) { first = p; size = (s.list.size + 1) % 2 ^ 32 };
          heap = update (update s.heap p (node e k 0)) k (some (record n { prev = p }));
        },
      )
unfolding add
add-second s p e k n front far there = rw (front, far, there, front)

-- `add` puts a cell in front.
pub add-IsList :
    (s : Store) (p e : ℕ) (cs : List Cell)
    → IsList s cs
    → s.heap p ≡ none
    → p ≢ 0
    → (s' : Store) × (add (some p) e s ≡ some (true, s'))
      × IsList s' ((p, e) ∷ cs)
      × (s'.list.size ≡ (s.list.size + 1) % 2 ^ 32)
unfolding add
add-IsList s p e [] l free far =
    let self : (p == p) ≡ true = ground arith in
    let l' = record (s.list) { first = p; size = (s.list.size + 1) % 2 ^ 32 } in
    (
      record { list = l'; heap = update s.heap p (node e 0 0) },
      rw (l.first),
      record {
        first = refl;
        ahead = (rw self, far, tt);
        distinct = λ a. ground arith;
        owns = λ a o. let other : (a == p) ≡ false = ground arith in rw other (l.owns a refl);
      },
      refl,
    )
add-IsList s p e ((k, f) ∷ cs) l free far =
    let self : (p == p) ≡ true = ground arith in
    let there : (k == 0) ≡ false = ground (arith, l.ahead.1) in
    let fresh : uses p ((k, f) ∷ cs) ≡ 0 = uses_of_none s.heap 0 p ((k, f) ∷ cs) free l.ahead in
    let out : uses k cs ≡ 0 = ground (arith, l.distinct k) in
    let h = update s.heap p (node e k 0) in
    let before = Ahead-update s.heap 0 p (node e k 0) ((k, f) ∷ cs) fresh l.ahead in
    let linked = Ahead-write_prev h 0 p (k, f) cs out before in
    let l' = record (s.list) { first = p; size = (s.list.size + 1) % 2 ^ 32 } in
    let other : (p == k) ≡ false = ground (arith, fresh) in
    (
      record { list = l'; heap = update h k (node f (head cs) p) },
      add-second s p e k (record { elem = f; next = head cs; prev = 0 }) l.first there before.0,
      record {
        first = refl;
        ahead = (rw (other, self), far, linked.1);
        distinct = λ a. uses-cons-le a p e ((k, f) ∷ cs) fresh (l.distinct a);
        owns = λ a o.
            let from_p = uses-cons a p e ((k, f) ∷ cs) o in
            let from_k = uses-cons a k f cs from_p.1 in rw (from_k.0, from_p.0) (l.owns a from_p.1);
      },
      refl,
    )
