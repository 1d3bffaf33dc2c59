-- ===== src/Phylo.antt =====
-- The philosophers of Userland/SampleCodeModule/c/phylo.c at a table of a fixed size: the loop of
-- `eatingPhylo` once the seat is taken, and the table that `startPhylo` lays. A seat stands for its
-- process. The forks are semaphores: `ids` has their ids by seat, as `eatingSemaphores` does. A wait passes where
-- the value is above 0, or where no semaphore has the id. A wake-up in
-- `postSem` is the post and the wait that passes, here two steps between which others may come.
-- What is printed is left out.
pub mod Forks
pub mod Safety
pub mod Progress
mod Tests
use bizcocho_os.Prelude.{
  ℕ, zero, suc, ◌+◌, ◌-◌, ◌%◌, ◌^◌, ◌<◌, ◌≡◌, Bool, not, true, false, ◌&&◌, ◌||◌, Option, none,
  some, List, [], ◌∷◌, ◌==◌, if◌then◌else◌, update,
}

-- Where a philosopher stands in the loop.
pub data Pc : Type 0 where
  hungry : Pc  -- at its head
  waits_first : Pc  -- at the first `sys_wait_sem`
  waits_second : Pc  -- at the second one
  eating : Pc  -- in `sys_sleep`
  half : Pc  -- behind the first `sys_post_sem`

-- The variables that all share, and where each philosopher stands.
pub record Table : Type 0 where
  pub forks : ℕ → ℕ  -- the value of each semaphore, by its id
  pub there : ℕ → Bool  -- whether a semaphore has the id
  pub table : ℕ → ℕ
  pub second_to_last_waiting_in_left : Bool
  pub must_skip : Bool
  pub last_one_waiting_in_first_sem : Bool
  pub father_waiting : Bool
  pub pc : ℕ → Pc

-- The table that `startPhylo` lays, among the semaphores that there are.
abbrev pub start_table : (ℕ → ℕ) → (ℕ → Bool) → Table
start_table forks there = record {
  forks = forks;
  there = there;
  table = λ _. b'-';
  second_to_last_waiting_in_left = false;
  must_skip = false;
  last_one_waiting_in_first_sem = false;
  father_waiting = false;
  pc = λ _. hungry;
}

-- `seat % 2` is 0.
abbrev pub is_even : ℕ → Bool
is_even seat = seat % 2 == 0

-- `right`, for a table of `n`.
unfoldable pub right_of : ℕ → ℕ → ℕ
right_of n seat = (seat + 1) % n

-- `left` and `right`, which keep 8 bits of the ids.
abbrev pub left_sem : (ℕ → ℕ) → ℕ → ℕ
left_sem ids seat = ids seat % 2 ^ 8

abbrev pub right_sem : (ℕ → ℕ) → ℕ → ℕ → ℕ
right_sem ids n seat = ids (right_of n seat) % 2 ^ 8

-- What the seat waits for first, and the other one.
unfoldable pub first_fork : (ℕ → ℕ) → ℕ → ℕ → ℕ
first_fork ids n seat = if is_even seat then left_sem ids seat else right_sem ids n seat

unfoldable pub second_fork : (ℕ → ℕ) → ℕ → ℕ → ℕ
second_fork ids n seat = if is_even seat then right_sem ids n seat else left_sem ids seat

abbrev pub go_to : ℕ → Pc → Table → Table
go_to seat p t = record t { pc = update t.pc seat p }

-- A wait that passes, and a post; both change nothing where no semaphore has the id.
abbrev pub take_fork : ℕ → Table → Table
take_fork f t = record t {
  forks = (if t.there f then update t.forks f (t.forks f - 1) else t.forks);
}

abbrev pub put_fork : ℕ → Table → Table
put_fork f t = record t {
  forks = (if t.there f then update t.forks f ((t.forks f + 1) % 2 ^ 64) else t.forks);
}

-- What is set before the first wait, between the two, and behind the second.
abbrev pub before_first : ℕ → ℕ → Table → Table
before_first n seat t = record t {
  second_to_last_waiting_in_left = (t.second_to_last_waiting_in_left || seat == n - 2);
  last_one_waiting_in_first_sem =
      (t.last_one_waiting_in_first_sem || (not (is_even seat) && seat == n - 1));
}

abbrev pub between : ℕ → ℕ → Table → Table
between n seat t = record t {
  second_to_last_waiting_in_left =
      (t.second_to_last_waiting_in_left && not (is_even seat && seat == n - 2));
  last_one_waiting_in_first_sem =
      (if seat == n - 1 then is_even seat else t.last_one_waiting_in_first_sem);
}

abbrev pub behind_second : ℕ → ℕ → Table → Table
behind_second n seat t = record t {
  second_to_last_waiting_in_left =
      (t.second_to_last_waiting_in_left && not (not (is_even seat) && seat == n - 2));
  last_one_waiting_in_first_sem =
      (t.last_one_waiting_in_first_sem && not (is_even seat && seat == n - 1));
}

abbrev pub lay : ℕ → ℕ → Table → Table
lay seat c t = record t { table = update t.table seat c }

-- Both forks are there: the philosopher eats, or is the last one and skips.
unfoldable pub sit_down : ℕ → ℕ → Table → Table
sit_down n seat t =
    if not t.must_skip || not (seat == n - 1)
    then go_to seat eating (lay seat b'E' t)
    else go_to seat hungry (record t { must_skip = false })

-- One step of a seat from where it stands; `none` where it waits.
-- The seat goes on without its fork where the wait returns -1.
unfoldable pub move : Pc → (ℕ → ℕ) → ℕ → ℕ → Table → Option Table
move hungry ids n seat t = some (go_to seat waits_first (before_first n seat t))
move waits_first ids n seat t =
    let f = first_fork ids n seat in
    if t.there f && t.forks f == 0
    then none
    else some (go_to seat waits_second (between n seat (take_fork f t)))
move waits_second ids n seat t =
    let f = second_fork ids n seat in
    if t.there f && t.forks f == 0
    then none
    else some (sit_down n seat (behind_second n seat (take_fork f t)))
move eating ids n seat t =
    let u = put_fork (first_fork ids n seat) (lay seat b'-' t) in
    let last = u.last_one_waiting_in_first_sem && not (seat == 0 && not u.father_waiting) in
    some (go_to seat half (record u { last_one_waiting_in_first_sem = last }))
move half ids n seat t = some (go_to seat hungry (put_fork (second_fork ids n seat) t))

unfoldable pub step : (ℕ → ℕ) → ℕ → ℕ → Table → Option Table
unfolding move
step ids n seat t = move (t.pc seat) ids n seat t

-- What the philosophers come to, in any order of their steps.
pub data Reach (ids : ℕ → ℕ) (n : ℕ) : Table → Type 0 where
  laid :
      (forks : ℕ → ℕ) (there : ℕ → Bool)
      → ((seat : ℕ) → seat < n → there (ids seat) ≡ true)
      → ((seat : ℕ) → seat < n → forks (ids seat) ≡ 1)
      → Reach ids n (start_table forks there)
  later :
      {t u : Table}
      → Reach ids n t
      → (seat : ℕ) → seat < n
      → step ids n seat t ≡ some u
      → Reach ids n u
