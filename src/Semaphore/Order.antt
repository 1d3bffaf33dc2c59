-- ===== src/Semaphore/Order.antt =====
-- Whom `postSem` wakes.
use bizcocho_os.Prelude.{
  ℕ, ◌+◌, ◌-◌, ◌%◌, ◌^◌, ◌≡◌, refl, ◌∙◌, true, false, some, List, [], ◌∷◌, ◌++◌, arith,
}
use bizcocho_os.Semaphore.{
  Semaphore, Hub, find_sem, change_sem, wait_reason, sleeps, wait_on, wait_for, woke, split_last,
  post_on, post,
}
use bizcocho_os.Blocking.{block_process_with_reason, unblock_process_with_reason}
use bizcocho_os.Semaphore.Tokens.{find_sem-change_sem}

split_last-append :
    (front : List ℕ) (old : ℕ) → split_last (front ++ (old ∷ [])) ≡ some (front, old)
unfolding split_last
split_last-append [] old = refl
split_last-append (x ∷ front) old = rw (split_last-append front old)

find_changed :
    (id : ℕ) (f : Semaphore → Semaphore) (cs : List Semaphore) (c : Semaphore)
    → ((q : Semaphore) → (f q).id ≡ q.id)
    → find_sem id cs ≡ some c
    → find_sem id (change_sem id f cs) ≡ some (f c)
find_changed id f cs c same e = find_sem-change_sem id id f cs same ∙ ground (arith, e)

-- Where a process waits, and who is woken next.
pub record Hands (id old : ℕ) (front : List ℕ) (h h' : Hub) : Type 0 where
  pub now : Semaphore
  pub found : find_sem id h'.semaphores ≡ some now
  pub waiting : now.waiting ≡ front
  pub value : now.value ≡ 0
  pub woken : h'.schedule ≡ (unblock_process_with_reason old (wait_reason id) h.schedule).1

post-Hands :
    (id old : ℕ) (front : List ℕ) (h : Hub) (c : Semaphore)
    → find_sem id h.semaphores ≡ some c
    → c.locked ≡ false
    → c.value ≡ 0
    → c.waiting ≡ front ++ (old ∷ [])
    → ((post id h).0 ≡ woke old) × Hands id old front h (post id h).1
unfolding post post_on
post-Hands id old front h c e free gone w =
    let hand = λ (q : Semaphore). record q {
      waiting = front;
      amount_blocked = (q.amount_blocked + 2 ^ 32 - 1) % 2 ^ 32;
    } in
    rw (e, free, gone, w, split_last-append front old, post, post_on)
      (
        refl,
        record {
          now = hand c;
          found = find_changed id hand h.semaphores c (λ q. refl) e;
          waiting = refl;
          value = gone;
          woken = refl;
        },
      )

-- `waitSem` where the process is to sleep.
abbrev join_queue : ℕ → Semaphore → Semaphore
join_queue pid q = record q {
  amount_blocked = (q.amount_blocked + 1) % 2 ^ 32;
  waiting = pid ∷ q.waiting;
}

abbrev asleep : ℕ → Hub → Hub
asleep id h = record h {
  semaphores = change_sem id (join_queue h.schedule.running) h.semaphores;
  schedule = (block_process_with_reason true h.schedule.running (wait_reason id) h.schedule).1;
}

-- A process that calls `waitSem` of an unlocked semaphore with value 0, where there is memory, is to
-- sleep, and `blockProcessWithReason` is called for it with the semaphore. The next `postSem` calls
-- `unblockProcessWithReason` for the process that waits longest, this one only if no other waits, leaves
-- the others waiting in their order, and leaves the value 0.
pub post-wait_for :
    (id old : ℕ) (front : List ℕ) (h : Hub) (c : Semaphore)
    → find_sem id h.semaphores ≡ some c
    → c.locked ≡ false
    → c.value ≡ 0
    → h.schedule.running ∷ c.waiting ≡ front ++ (old ∷ [])
    → let h' = (wait_for true true id h).1 in
      ((wait_for true true id h).0 ≡ sleeps)
      × (h'.schedule
          ≡ (block_process_with_reason true h.schedule.running (wait_reason id) h.schedule).1)
      × ((post id h').0 ≡ woke old)
      × Hands id old front h' (post id h').1
unfolding wait_for wait_on
post-wait_for id old front h c e free gone w =
    let queued =
      post-Hands id old front (asleep id h) (join_queue h.schedule.running c)
        (find_changed id (join_queue h.schedule.running) h.semaphores c (λ q. refl) e) free gone
        w in
    rw (e, free, gone, wait_for, wait_on) (refl, refl, queued.0, queued.1)
