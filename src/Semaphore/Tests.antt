-- ===== src/Semaphore/Tests.antt =====
-- Two semaphores: the first with a process that waits.
use bizcocho_os.Prelude.{◌≡◌, refl, true, false, inl, [], ◌∷◌, arith, some}
use bizcocho_os.Semaphore.{
  Semaphore, Hub, find_sem, wait_on, wait_for, wait_reason, sleeps, woke, post, post_on, split_last,
}
use bizcocho_os.Semaphore.Tokens.{Balanced, Reach, here, waits, posted, Reach-Balanced}
use bizcocho_os.Semaphore.Order.{Hands, post-wait_for}
use bizcocho_os.Semaphore.Info.{get_semaphore_info, init_semaphore_hub, get_sem_count}
use bizcocho_os.Blocking.{block_process_with_reason}
use bizcocho_os.Samples.{three}

abbrev taken : Semaphore
taken = record {
  name = b'm' ∷ [];
  id = 5;
  value = 0;
  locked = false;
  waiting = 1 ∷ [];
  amount_blocked = 1;
}

abbrev open_one : Semaphore
open_one = record {
  name = b'n' ∷ [];
  id = 6;
  value = 1;
  locked = false;
  waiting = [];
  amount_blocked = 0;
}

abbrev hub : Hub
hub = record {
  semaphores = taken ∷ open_one ∷ [];
  global_id = 7;
  sem_count = 2;
  locked = false;
  schedule = three;
}

taken-found : find_sem 5 hub.semaphores ≡ some taken
unfolding find_sem
taken-found = refl

open_one-Balanced : Balanced 1 0 0 (find_sem 6 hub.semaphores)
unfolding find_sem
open_one-Balanced = record {
  now = open_one;
  found = refl;
  tokens = refl;
  small = omega arith;
  handed = inl refl;
}

abbrev passed_twice : Hub
passed_twice = (post 6 (wait_for true true 6 (wait_for true true 6 hub).1).1).1

reached : Reach 6 hub 2 1 passed_twice
unfolding wait_for wait_on post post_on find_sem split_last
reached = posted 6 (waits 6 true true (waits 6 true true here))

Reach-Balanced_example : Balanced 1 2 1 (find_sem 6 passed_twice.semaphores)
Reach-Balanced_example = Reach-Balanced open_one-Balanced reached

post-wait_for_example :
    ((wait_for true true 5 hub).0 ≡ sleeps)
    × ((wait_for true true 5 hub).1.schedule
        ≡ (block_process_with_reason true 2 (wait_reason 5) three).1)
    × ((post 5 (wait_for true true 5 hub).1).0 ≡ woke 1)
    × Hands 5 1 (2 ∷ []) (wait_for true true 5 hub).1 (post 5 (wait_for true true 5 hub).1).1
post-wait_for_example = post-wait_for 5 1 (2 ∷ []) hub taken taken-found refl refl refl

reported :
    get_semaphore_info hub
    ≡ some (
        record { name = b'm' ∷ []; id = 5; value = 0; blocked = 1 ∷ 0 ∷ [] }
        ∷ record { name = b'n' ∷ []; id = 6; value = 1; blocked = 0 ∷ [] }
        ∷ [])
unfolding get_semaphore_info
reported = refl

begun_once : init_semaphore_hub true hub ≡ (true, hub)
unfolding init_semaphore_hub
begun_once = refl

two_counted : get_sem_count hub ≡ 2
unfolding get_sem_count
two_counted = refl
