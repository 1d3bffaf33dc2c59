-- ===== src/SyncTest.antt =====
-- The processes of Userland/SampleCodeModule/c/test_sync.c that add to one counter: the loop of `my_process_inc` with
-- `slowInc`, as steps in any order. The semaphore is its value: a wait passes where it is above 0. What is printed is
-- left out.
pub mod Totals
pub mod Exclusion
mod Tests
use bizcocho_os.Prelude.{
  ℕ, zero, suc, ◌+◌, ◌-◌, ◌%◌, ◌^◌, ◌<◌, ◌≡◌, Bool, true, false, ◌&&◌, Option, none, some, ltb,
  ◌==◌, if◌then◌else◌, update,
}

-- Where a process stands in its loop.
pub data SyncPc : Type 0 where
  looping : SyncPc  -- at the test of the loop
  holding : SyncPc  -- behind the wait
  loaded : SyncPc  -- in `slowInc`, with the sum in `aux`
  stored : SyncPc  -- behind `slowInc`

pub record Worker : Type 0 where
  pub left : ℕ  -- `n - i`
  pub aux : ℕ
  pub pc : SyncPc

pub record Counter : Type 0 where
  pub sem : ℕ
  pub global : ℕ
  pub worker : ℕ → Worker

-- The start, with `n` rounds for each process.
abbrev pub sync_start : ℕ → Counter
sync_start n = record {
  sem = 1;
  global = 0;
  worker = λ _. record { left = n; aux = 0; pc = looping };
}

abbrev pub put_worker : ℕ → Worker → Counter → Counter
put_worker w x s = record s { worker = update s.worker w x }

-- One step of a process that adds `inc`; `none` where it waits or is at its end.
unfoldable pub sync_move : SyncPc → Bool → ℕ → ℕ → Counter → Option Counter
sync_move looping use_sem inc w s =
    let x = s.worker w in
    let entered = put_worker w (record x { pc = holding }) s in
    let taken = record entered { sem = s.sem - 1 } in
    if x.left == 0
    then none
    else (if use_sem then (if s.sem == 0 then none else some taken) else some entered)
sync_move holding use_sem inc w s =
    some (put_worker w (record (s.worker w) { aux = (s.global + inc) % 2 ^ 64; pc = loaded }) s)
sync_move loaded use_sem inc w s =
    some
      (record (put_worker w (record (s.worker w) { pc = stored }) s) { global = (s.worker w).aux })
sync_move stored use_sem inc w s =
    let x = s.worker w in
    some (record (put_worker w (record x { left = x.left - 1; pc = looping }) s) {
      sem = (if use_sem then (s.sem + 1) % 2 ^ 64 else s.sem);
    })

unfoldable pub sync_step : Bool → (ℕ → ℕ) → ℕ → Counter → Option Counter
unfolding sync_move
sync_step use_sem inc w s = sync_move (s.worker w).pc use_sem (inc w) w s

-- What `count` processes come to, in any order of their steps.
pub data SyncReach (use_sem : Bool) (inc : ℕ → ℕ) (count n : ℕ) : Counter → Type 0 where
  begun : SyncReach use_sem inc count n (sync_start n)
  then_one :
      {s u : Counter}
      → SyncReach use_sem inc count n s
      → (w : ℕ) → w < count
      → sync_step use_sem inc w s ≡ some u
      → SyncReach use_sem inc count n u

-- The processes of `test_sync`: three that take away 1, then three that add it.
abbrev pub pair_processes : ℕ
pair_processes = 3

abbrev pub test_inc : ℕ → ℕ
test_inc w = if ltb w pair_processes then 2 ^ 64 - 1 else 1
