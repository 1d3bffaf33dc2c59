-- ===== src/Scheduler/Round.antt =====
-- The choice of `findNextProcess` without the functions that make it: the lists in their order, and the states.
use bizcocho_os.Prelude.{
  ℕ, ◌+◌, ◌%◌, ◌<◌, ◌≡◌, ◌≢◌, refl, ap, ◌∙◌, true, false, Option, none, some, inl, inr, List, [],
  ◌∷◌, ◌++◌, ◌==◌, arith, All, Bool-cases,
}
use mathlib.Core.Path.{subst}
use mathlib.Core.List.{append-nil}
use bizcocho_os.Process.{
  State, blocked, ready, finished, Process, Schedule, is_ready, is_ready_pid, priority_count, mem,
}
use bizcocho_os.Scheduler.{first_ready, after, find_next_process}
use bizcocho_os.Scheduler.Choice.{rotation, lists_behind, find_next_process-rotation}

-- The process is the first of the round whose state is READY; `none` where no process of the round is.
abbrev pub IsFirst : (ℕ → Process) → List ℕ → Option ℕ → Type 0
IsFirst f round none = All (λ q. (f q).state ≢ ready) round
IsFirst f round (some p) =
    (before : List ℕ) × (behind : List ℕ) × (round ≡ before ++ p ∷ behind)
    × ((f p).state ≡ ready)
    × All (λ q. (f q).state ≢ ready) before

-- A state that the test takes for READY is, and no other.
ready_state : (st : State) → is_ready st ≡ true → st ≡ ready
ready_state blocked h = absurd (cc)
ready_state ready h = refl
ready_state finished h = absurd (cc)

not_ready_state : (st : State) → is_ready st ≡ false → st ≢ ready
not_ready_state st h e = let yes : is_ready st ≡ true = ap is_ready e in absurd (cc)

IsFirst-cons :
    (f : ℕ → Process) (x : ℕ) (xs : List ℕ) (o : Option ℕ)
    → (f x).state ≢ ready
    → IsFirst f xs o
    → IsFirst f (x ∷ xs) o
IsFirst-cons f x xs none not_it h = (not_it, h)
IsFirst-cons f x xs (some p) not_it (before, behind, e, is, h) =
    (x ∷ before, behind, ap (λ (l : List ℕ). x ∷ l) e, is, (not_it, h))

first_ready-IsFirst : (s : Schedule) (xs : List ℕ) → IsFirst s.process xs (first_ready s xs)
unfolding first_ready
first_ready-IsFirst s [] = tt
first_ready-IsFirst s (x ∷ xs) = elim (Bool-cases (is_ready_pid s x)) [
  | inl hit ↦ rw hit ([], xs, refl, ready_state (s.process x).state hit, tt)
  | inr miss ↦ rw miss (
      IsFirst-cons s.process x xs (first_ready s xs) (not_ready_state (s.process x).state miss)
        (first_ready-IsFirst s xs))
]

after-append : (pid : ℕ) (xs ys : List ℕ) → mem pid xs ≡ false → after pid (xs ++ pid ∷ ys) ≡ ys
unfolding after mem
after-append pid [] ys out = let self : (pid == pid) ≡ true = ground arith in rw self refl
after-append pid (x ∷ xs) ys out = elim (Bool-cases (x == pid)) [
  | inl same ↦ absurd (ground arith)
  | inr other ↦ rw other (after-append pid xs ys (rw other at out))
]

-- The lists of all priorities, from the one behind `k` on to that of `k`.
abbrev pub all_lists : Schedule → ℕ → List ℕ
all_lists s k =
    s.queues ((k + 1) % 5)
    ++ (s.queues ((k + 2) % 5)
        ++ (s.queues ((k + 3) % 5) ++ (s.queues ((k + 4) % 5) ++ s.queues k)))

lists_behind-all_lists :
    (s : Schedule) (k : ℕ) → k < priority_count → lists_behind priority_count s k ≡ all_lists s k
unfolding lists_behind
lists_behind-all_lists s k lt =
    let two : ((k + 1) % 5 + 1) % 5 ≡ (k + 2) % 5 = omega arith in
    let three : ((k + 2) % 5 + 1) % 5 ≡ (k + 3) % 5 = omega arith in
    let four : ((k + 3) % 5 + 1) % 5 ≡ (k + 4) % 5 = omega arith in
    let five : ((k + 4) % 5 + 1) % 5 ≡ k = omega arith in
    rw (two, three, four, five, append-nil (s.queues k)) refl

-- `findNextProcess` for a process that runs and stands in the list of its priority: it ends within a round, and returns
-- the first process with the state READY of those that stand behind the running one in its list, then of
-- the lists of the other priorities in turn, and last of the whole list again; there is no such process
-- exactly where it would go round for ever.
pub find_next_process-IsFirst :
    (s : Schedule) (in_front behind : List ℕ)
    → (s.process s.running).priority < priority_count
    → s.queues (s.process s.running).priority ≡ in_front ++ s.running ∷ behind
    → mem s.running in_front ≡ false
    → IsFirst s.process (behind ++ all_lists s (s.process s.running).priority) (find_next_process s)
unfolding rotation
find_next_process-IsFirst s in_front behind lt e out =
    let k = (s.process s.running).priority in
    let rest : after s.running (s.queues k) ≡ behind =
      ap (after s.running) e ∙ after-append s.running in_front behind out in
    let round : rotation s ≡ behind ++ all_lists s k =
      ap (λ (l : List ℕ). l ++ lists_behind priority_count s k) rest
      ∙ ap (λ (l : List ℕ). behind ++ l) (lists_behind-all_lists s k lt) in
    rw (find_next_process-rotation s) (
      subst (λ (l : List ℕ). IsFirst s.process l (first_ready s (rotation s))) round
        (first_ready-IsFirst s (rotation s)))
