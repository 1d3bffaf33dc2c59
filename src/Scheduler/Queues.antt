-- ===== src/Scheduler/Queues.antt =====
-- `changePriority` and the lists of processes.
use bizcocho_os.Prelude.{
  ℕ, ◌+◌, ◌-◌, ◌≤◌, ◌≡◌, ◌≢◌, true, List, [], ◌∷◌, ◌==◌, if◌then◌else◌, arith,
}
use bizcocho_os.Process.{Schedule, priority_count, mem, remove_pid}

abbrev pub count : ℕ → List ℕ → ℕ
count a [] = 0
count a (x ∷ xs) = (if x == a then 1 else 0) + count a xs

pub count-remove_pid :
    (a p : ℕ) (l : List ℕ)
    → count p (remove_pid a l) ≡ (if p == a then count p l - 1 else count p l)
unfolding remove_pid
count-remove_pid a p [] = ground arith
count-remove_pid a p (x ∷ xs) = ground (arith, count-remove_pid a p xs)

pub count_pos : (a : ℕ) (l : List ℕ) → mem a l ≡ true → 1 ≤ count a l
unfolding mem
count_pos a [] m = absurd (ground arith)
count_pos a (x ∷ xs) m = ground (arith, count_pos a xs)

-- Each process stands at most once in the list of its priority, and in no other.
abbrev pub IsPlaced : Schedule → Type 0
IsPlaced s = (p i : ℕ) → count p (s.queues i) ≤ (if i == (s.process p).priority then 1 else 0)

-- What `changePriority` promises where it returns 1.
pub record Moved (pid new : ℕ) (s s' : Schedule) : Type 0 where
  pub placed : IsPlaced s'
  pub there : count pid (s'.queues new) ≡ 1
  pub priority : (s'.process pid).priority ≡ new
  pub quantum : (s'.process pid).remaining_quantum ≡ priority_count - new
  pub others : (p i : ℕ) → p ≢ pid → count p (s'.queues i) ≡ count p (s.queues i)
  pub kept : (p : ℕ) → p ≢ pid → s'.process p ≡ s.process p
