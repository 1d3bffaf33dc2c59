-- ===== src/LinkedList.antt =====
-- The doubly linked lists of Kernel/c/lib/ddlADT.c on a heap of nodes.
-- An address is a number, `NULL` is 0. The heap holds the nodes of one list; `memalloc` and
-- `memfree` stand for an address that is given and taken back. What a call does through a pointer to no
-- node is a fault, the result `none`.
pub mod Links
pub mod Cursor
pub mod Trace
pub mod Walks
mod Tests
use bizcocho_os.Prelude.{
  ℕ, zero, suc, ◌+◌, ◌-◌, ◌%◌, ◌^◌, Bool, true, false, not, Option, none, some, ◌==◌, if◌then◌else◌,
  update,
}

-- `TNode`
pub record Node : Type 0 where
  pub elem : ℕ
  pub next : ℕ
  pub prev : ℕ

abbrev pub Heap : Type 0
Heap = ℕ → Option Node

-- `struct ddlCDT`
pub record Header : Type 0 where
  pub first : ℕ
  pub current : ℕ
  pub to_remove : ℕ
  pub size : ℕ

pub record Store : Type 0 where
  pub list : Header
  pub heap : Heap

abbrev pub set_heap : Store → Heap → Store
set_heap s h = record s { heap = h }

-- `p->next = q` and `p->prev = q`
unfoldable pub write_next : ℕ → ℕ → Heap → Option Heap
write_next p q h = elim (h p) [
  | none ↦ none
  | some n ↦ some (update h p (some (record n { next = q })))
]

unfoldable pub write_prev : ℕ → ℕ → Heap → Option Heap
write_prev p q h = elim (h p) [
  | none ↦ none
  | some n ↦ some (update h p (some (record n { prev = q })))
]

-- `newList`, `none` where `memalloc` fails; the size is what stood in the memory.
unfoldable pub new_list : (for_header : Bool) → ℕ → Option Store
new_list for_header garbage =
    if for_header
    then some (record {
      list = record { first = 0; current = 0; to_remove = 0; size = garbage };
      heap = λ _. none;
    })
    else none

-- `add` with the address that `memalloc` gives the node, `none` where memory runs out: whether it added.
unfoldable pub add : Option ℕ → ℕ → Store → Option (Bool × Store)
unfolding write_prev
add none e s = some (false, record s { list = record (s.list) { first = 0 } })
add (some p) e s =
    let second = s.list.first in
    let h = update s.heap p (some (record { elem = e; next = second; prev = 0 })) in
    let l = record (s.list) { first = p; size = (s.list.size + 1) % 2 ^ 32 } in
    if second == 0
    then some (true, record { list = l; heap = h })
    else elim (write_prev second p h) [
      | none ↦ none
      | some h' ↦ some (true, record { list = l; heap = h' })
    ]

-- `toBegin`
unfoldable pub to_begin : Store → Store
to_begin s = record s { list = record (s.list) { current = s.list.first } }

-- `hasNext`
unfoldable pub has_next : Store → Bool
has_next s = not (s.list.current == 0)

-- `next`: the element, `NULL` at the end.
unfoldable pub next : Store → Option (ℕ × Store)
unfolding has_next
next s =
    let l = s.list in
    if not (has_next s) then some (0, s) else elim (s.heap l.current) [
      | none ↦ none
      | some n ↦
          some (n.elem, record s { list = record l { to_remove = l.current; current = n.next } })
    ]

-- The first half of `remove`: the node before, or the list, goes on behind the node.
unfoldable pub link_back : Node → Store → Option Store
unfolding write_next
link_back n s =
    if n.prev == 0
    then some (record s { list = record (s.list) { first = n.next } })
    else elim (write_next n.prev n.next s.heap) [ none ↦ none | some h ↦ some (set_heap s h) ]

-- The second half: the node behind has the node before in front of it.
unfoldable pub link_front : Node → Store → Option Store
unfolding write_prev
link_front n s =
    if n.next == 0
    then some s
    else elim (write_prev n.next n.prev s.heap) [ none ↦ none | some h ↦ some (set_heap s h) ]

-- The end of `remove`: the node is given back.
unfoldable pub release : Store → Store
release s = record {
  heap = update s.heap s.list.to_remove none;
  list = record (s.list) { to_remove = 0; size = (s.list.size + 2 ^ 32 - 1) % 2 ^ 32 };
}

-- `remove` of a node that is there.
unfoldable pub unlink : Node → Store → Option Store
unfolding link_back link_front release
unlink n s = elim (link_back n s) [
  | none ↦ none
  | some s₁ ↦ elim (link_front n s₁) [ none ↦ none | some s₂ ↦ some (release s₂) ]
]

-- `remove`
unfoldable pub remove : Store → Option Store
unfolding unlink
remove s =
    if s.list.to_remove == 0
    then some s
    else elim (s.heap s.list.to_remove) [ none ↦ none | some n ↦ unlink n s ]

-- What a loop over the nodes comes to: it may run out of fuel, or fault.
pub data Loop (A : Type 0) : Type 0 where
  ended : A → Loop A
  fault : Loop A
  out_of_fuel : Loop A

-- The loop of `find` from a node on, with the comparison as a test of the element.
unfoldable pub find_from : ℕ → (ℕ → Bool) → Heap → ℕ → Loop ℕ
find_from zero test h p = out_of_fuel
find_from (suc fuel) test h p =
    let at = λ (n : Node).
      let rest = find_from fuel test h n.next in if test n.elem then ended n.elem else rest in
    if p == 0 then ended 0 else elim (h p) [ none ↦ fault | some n ↦ at n ]

-- `find`
unfoldable pub find : ℕ → (ℕ → Bool) → Store → Loop ℕ
unfolding find_from
find fuel test s = find_from fuel test s.heap s.list.first

-- The loop of `freeList` from `head` on.
unfoldable pub free_from : ℕ → ℕ → Heap → Loop Heap
free_from zero head h = out_of_fuel
free_from (suc fuel) head h =
    let at = λ (n : Node). free_from fuel n.next (update h head none) in
    if head == 0 then ended h else elim (h head) [ none ↦ fault | some n ↦ at n ]

-- `freeList`, less the memory of the header.
unfoldable pub free_list : ℕ → Store → Loop Heap
unfolding free_from
free_list fuel s = free_from fuel s.list.first s.heap
