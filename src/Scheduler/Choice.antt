-- ===== src/Scheduler/Choice.antt =====
-- Which process `findNextProcess` and `scheduler` choose.
use bizcocho_os.Prelude.{
  ℕ, zero, suc, ◌+◌, ◌-◌, ◌%◌, ◌<◌, ◌≡◌, refl, sym, ap, ◌∙◌, true, false, ◌||◌, Option, none, some,
  inl, inr, List, [], ◌∷◌, ◌++◌, ◌==◌, arith, Bool-cases,
}
use mathlib.Core.List.{append-nil}
use bizcocho_os.Process.{Process, Schedule, change, is_ready_pid, priority_count, mem}
use bizcocho_os.Scheduler.{first_ready, after, search_from, find_next_process}

-- `n` lists, from the one behind `priority` on, round and round.
unfoldable pub lists_behind : ℕ → Schedule → ℕ → List ℕ
lists_behind zero s priority = []
lists_behind (suc n) s priority =
    s.queues ((priority + 1) % priority_count) ++ lists_behind n s ((priority + 1) % priority_count)

-- The round: what follows the running process in its list, and then each list in turn, its own last.
unfoldable pub rotation : Schedule → List ℕ
unfolding lists_behind
rotation s =
    let priority = (s.process s.running).priority in
    after s.running (s.queues priority) ++ lists_behind priority_count s priority

abbrev pub or_else : Option ℕ → Option ℕ → Option ℕ
or_else none o = o
or_else (some p) o = some p

first_ready-append :
    (s : Schedule) (xs ys : List ℕ)
    → first_ready s (xs ++ ys) ≡ or_else (first_ready s xs) (first_ready s ys)
unfolding first_ready
first_ready-append s [] ys = refl
first_ready-append s (x ∷ xs) ys = ground (arith, first_ready-append s xs ys)

search_from-first_ready :
    (n : ℕ) (s : Schedule) (priority : ℕ) (head : List ℕ)
    → search_from n s priority head ≡ first_ready s (head ++ lists_behind n s priority)
unfolding search_from lists_behind
search_from-first_ready zero s priority head = ap (first_ready s) (sym (append-nil head))
search_from-first_ready (suc n) s priority head =
    let q = (priority + 1) % priority_count in
    let ih = search_from-first_ready n s q (s.queues q) in
    rw (first_ready-append s head (s.queues q ++ lists_behind n s q), ← ih) (ground arith)

-- `findNextProcess` returns the first ready process of the round.
pub find_next_process-rotation : (s : Schedule) → find_next_process s ≡ first_ready s (rotation s)
unfolding find_next_process rotation
find_next_process-rotation s =
    search_from-first_ready priority_count s (s.process s.running).priority
      (after s.running (s.queues (s.process s.running).priority))

mem-append : (a : ℕ) (xs ys : List ℕ) → mem a (xs ++ ys) ≡ (mem a xs || mem a ys)
unfolding mem
mem-append a [] ys = refl
mem-append a (x ∷ xs) ys = ground (arith, mem-append a xs ys)

pub first_ready-mem :
    (s : Schedule) (xs : List ℕ) (p : ℕ)
    → first_ready s xs ≡ some p
    → (is_ready_pid s p ≡ true) × (mem p xs ≡ true)
unfolding first_ready mem
first_ready-mem s [] p e = absurd (cc)
first_ready-mem s (x ∷ xs) p e = elim (Bool-cases (is_ready_pid s x)) [
  | inl hit ↦ let at : x ≡ p = ground arith in (rw at at hit, ground arith)
  | inr miss ↦ let ih = first_ready-mem s xs p (rw miss at e) in (ih.0, ground (arith, ih.1))
]

first_ready-total :
    (s : Schedule) (xs : List ℕ) (p : ℕ)
    → mem p xs ≡ true
    → is_ready_pid s p ≡ true
    → (q : ℕ) × (first_ready s xs ≡ some q)
unfolding first_ready mem
first_ready-total s [] p m r = absurd (cc)
first_ready-total s (x ∷ xs) p m r = elim (Bool-cases (is_ready_pid s x)) [
  | inl hit ↦ (x, ground arith)
  | inr miss ↦
      let other : (x == p) ≡ false = elim (Bool-cases (x == p)) [
        | inl same ↦ let at : x ≡ p = ground arith in let miss' = rw at at miss in absurd (cc)
        | inr ne ↦ ne
      ] in
      let ih = first_ready-total s xs p (rw other at m) r in (ih.0, rw miss ih.1)
]

-- The list `k` moves on is among the next `n`.
mem-lists_behind :
    (n k i p priority : ℕ) (s : Schedule)
    → k < n
    → i ≡ (priority + 1 + k) % priority_count
    → mem p (s.queues i) ≡ true
    → mem p (lists_behind n s priority) ≡ true
unfolding lists_behind
mem-lists_behind zero k i p priority s h e m = absurd (omega arith)
mem-lists_behind (suc n) zero i p priority s h e m =
    let q = (priority + 1) % priority_count in
    let at : i ≡ q = omega arith in rw (mem-append p (s.queues q) (lists_behind n s q), ← at, m)
mem-lists_behind (suc n) (suc k) i p priority s h e m =
    let q = (priority + 1) % priority_count in
    let ih = mem-lists_behind n k i p q s (omega arith) (omega arith) m in
    ground (arith, mem-append p (s.queues q) (lists_behind n s q), ih)

mem-rotation :
    (s : Schedule) (i p : ℕ)
    → i < priority_count
    → mem p (s.queues i) ≡ true
    → mem p (rotation s) ≡ true
unfolding rotation
mem-rotation s i p hi m =
    let priority = (s.process s.running).priority in
    let k = (i + 9 - priority % priority_count) % priority_count in
    let ih = mem-lists_behind priority_count k i p priority s (omega arith) (omega arith) m in
    ground (
      arith,
      mem-append p (after s.running (s.queues priority)) (lists_behind priority_count s priority),
      ih,
    )

-- Some process of the lists is ready.
pub record HasReady (s : Schedule) : Type 0 where
  pub pid : ℕ
  pub list : ℕ
  pub in_range : list < priority_count
  pub listed : mem pid (s.queues list) ≡ true
  pub is_ready : is_ready_pid s pid ≡ true

-- Where a process of the lists is ready, the loop of `findNextProcess` ends, with a ready process.
pub find_next_process-total :
    (s : Schedule)
    → HasReady s
    → (p : ℕ) × (find_next_process s ≡ some p)
      × (is_ready_pid s p ≡ true)
      × (mem p (rotation s) ≡ true)
find_next_process-total s h =
    let found =
      first_ready-total s (rotation s) h.pid (mem-rotation s h.list h.pid h.in_range h.listed)
        h.is_ready in
    let e = find_next_process-rotation s in
    let facts = first_ready-mem s (rotation s) found.0 found.1 in
    (found.0, e ∙ found.1, facts.0, facts.1)

-- The call leaves a state in which the same processes are ready, so the same one is found.
pub first_ready-change :
    (s : Schedule) (pid : ℕ) (f : Process → Process) (xs : List ℕ)
    → (f (s.process pid)).state ≡ (s.process pid).state
    → first_ready (change s pid f) xs ≡ first_ready s xs
unfolding first_ready
first_ready-change s pid f [] same = refl
first_ready-change s pid f (x ∷ xs) same =
    let ready_same : is_ready_pid (change s pid f) x ≡ is_ready_pid s x =
      elim (Bool-cases (x == pid)) [
        | inl e ↦ let at : x ≡ pid = ground arith in rw (e, same, at)
        | inr e ↦ rw e
      ] in
    ground (arith, ready_same, first_ready-change s pid f xs same)

lists_behind-change :
    (n : ℕ) (s : Schedule) (pid : ℕ) (f : Process → Process) (priority : ℕ)
    → lists_behind n (change s pid f) priority ≡ lists_behind n s priority
unfolding lists_behind
lists_behind-change zero s pid f priority = refl
lists_behind-change (suc n) s pid f priority =
    let q = (priority + 1) % priority_count in
    ap (λ (l : List ℕ). s.queues q ++ l) (lists_behind-change n s pid f q)

pub rotation-change :
    (s : Schedule) (f : Process → Process)
    → (f (s.process s.running)).priority ≡ (s.process s.running).priority
    → rotation (change s s.running f) ≡ rotation s
unfolding rotation
rotation-change s f same =
    let t = change s s.running f in
    let e : (t.process s.running).priority ≡ (s.process s.running).priority = ground arith in
    ap (λ (k : ℕ). after s.running (s.queues k) ++ lists_behind priority_count t k) e
    ∙ ap (λ (l : List ℕ). after s.running (s.queues (s.process s.running).priority) ++ l)
        (lists_behind-change priority_count s s.running f (s.process s.running).priority)
