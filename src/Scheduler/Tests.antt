-- ===== src/Scheduler/Tests.antt =====
-- The theorems on the scheduler at a schedule of three processes.
use bizcocho_os.Prelude.{[], ◌∷◌, ◌≡◌, refl, some, arith}
use bizcocho_os.Process.{mem}
use bizcocho_os.Scheduler.{first_ready, after, search_from, find_next_process, scheduler}
use bizcocho_os.Scheduler.Choice.{HasReady}
use bizcocho_os.Scheduler.Round.{IsFirst, all_lists, find_next_process-IsFirst}
use bizcocho_os.Scheduler.Tick.{Returns, scheduler-Returns}
use bizcocho_os.Samples.{three}

chosen : find_next_process three ≡ some 1
unfolding find_next_process search_from first_ready after
chosen = refl

three-HasReady : HasReady three
unfolding mem
three-HasReady = record {
  pid = 1;
  list = 4;
  in_range = omega arith;
  listed = refl;
  is_ready = refl;
}

find_next_process-IsFirst_example :
    IsFirst three.process (1 ∷ all_lists three 4) (find_next_process three)
unfolding mem
find_next_process-IsFirst_example =
    find_next_process-IsFirst three [] (1 ∷ []) (omega arith) refl refl

scheduler-Returns_example : Returns 9000 three (scheduler 9000 three)
scheduler-Returns_example = scheduler-Returns 9000 three refl (omega arith) three-HasReady
