-- ===== src/Scheduler/Tick.antt =====
-- One call of `scheduler`.
use mathlib.Core.Path.{subst}
use bizcocho_os.Prelude.{
  ℕ, ◌+◌, ◌-◌, ◌≤◌, ◌<◌, ◌≡◌, ◌≢◌, ◌⊎◌, refl, sym, ap, ◌∙◌, true, false, ◌&&◌, Option, none, some,
  inl, inr, ltb, ◌==◌, if◌then◌else◌, arith, Bool-cases,
}
use bizcocho_os.Process.{Process, Schedule, change, is_ready_pid, priority_count}
use bizcocho_os.Scheduler.{
  first_ready, find_next_process, Switch, stay, switch_to, run_or_switch, scheduler,
}
use bizcocho_os.Scheduler.Choice.{
  rotation, HasReady, find_next_process-rotation, find_next_process-total, first_ready-change,
  rotation-change,
}

-- No process has more quantum left than its priority gives.
abbrev pub IsQuantumBounded : Schedule → Type 0
IsQuantumBounded s =
    (p : ℕ) → (s.process p).remaining_quantum ≤ priority_count - (s.process p).priority

-- The quantum of a process that is left: what it had, or all that its priority gives if it had none.
abbrev pub left_after : Process → ℕ
left_after p = if p.remaining_quantum == 0 then priority_count - p.priority else p.remaining_quantum

-- What one call of `scheduler` does with the process that runs.
pub record Ticks (rsp : ℕ) (s s' : Schedule) (w : Switch) : Type 0 where
  pub runs_ready : is_ready_pid s' s'.running ≡ true
  pub bounded : IsQuantumBounded s → IsQuantumBounded s'
  pub others : (p : ℕ) → p ≢ s.running → s'.process p ≡ s.process p
  pub states : (p : ℕ) → (s'.process p).state ≡ (s.process p).state
  pub goes_on :
      is_ready_pid s s.running ≡ true
      → 0 < (s.process s.running).remaining_quantum
      → (s'.running ≡ s.running)
        × ((s'.process s.running).remaining_quantum + 1 ≡ (s.process s.running).remaining_quantum)
        × (w ≡ stay)
  pub moves_on :
      (is_ready_pid s s.running ≡ false) ⊎ ((s.process s.running).remaining_quantum ≡ 0)
      → (first_ready s (rotation s) ≡ some s'.running)
        × ((s'.process s.running).stack_pointer ≡ rsp)
        × ((s'.process s.running).remaining_quantum ≡ left_after (s.process s.running))

-- A running process that is ready and has quantum left goes on.
stays :
    (rsp : ℕ) (s : Schedule)
    → is_ready_pid s s.running ≡ true
    → 0 < (s.process s.running).remaining_quantum
    → Ticks rsp s
        (change s s.running (λ q. record q { remaining_quantum = q.remaining_quantum - 1 }))
        stay
stays rsp s r q = record {
  runs_ready = ground arith;
  bounded = λ b p. ground (arith, b p);
  others = λ p ne. ground arith;
  states = λ p. ground arith;
  goes_on = λ _ _. ground arith;
  moves_on = λ h. absurd (ground arith);
}

-- The process that runs, with its quantum filled up if it is used up.
abbrev refill : Process → Process → Process
refill p q = record q {
  remaining_quantum =
      p.remaining_quantum + (if ltb 0 p.remaining_quantum then 0 else priority_count - p.priority);
}

abbrev refilled : Schedule → Schedule
refilled s = change s s.running (refill (s.process s.running))

moves :
    (rsp next : ℕ) (s : Schedule) (w : Switch)
    → (is_ready_pid s s.running ≡ false) ⊎ ((s.process s.running).remaining_quantum ≡ 0)
    → first_ready s (rotation s) ≡ some next
    → is_ready_pid s next ≡ true
    → Ticks rsp s
        (record (change (refilled s) s.running (λ p. record p { stack_pointer = rsp })) {
          running = next;
        })
        w
moves rsp next s w why found r = record {
  runs_ready = ground arith;
  bounded = λ b p. ground (arith, b p);
  others = λ p ne. ground arith;
  states = λ p. ground arith;
  goes_on = λ r' q. absurd (ground arith);
  moves_on = λ _. (found, ground arith, ground arith);
}

-- What `scheduler` returns where a next process is found.
abbrev pub Returns : ℕ → Schedule → Option (Schedule × Switch) → Type 0
Returns rsp s none = ⊥
Returns rsp s (some (s', w)) = Ticks rsp s s' w

switch_to-Returns :
    (rsp : ℕ) (s : Schedule) (o : Option ℕ)
    → HasReady s
    → (is_ready_pid s s.running ≡ false) ⊎ ((s.process s.running).remaining_quantum ≡ 0)
    → o ≡ first_ready s (rotation s)
    → Returns rsp s (switch_to rsp (refilled s) o)
unfolding switch_to
switch_to-Returns rsp s none h why e =
    let found = find_next_process-total s h in absurd (cc (find_next_process-rotation s, found.1))
switch_to-Returns rsp s (some next) h why e =
    let found = find_next_process-total s h in
    let same : next ≡ found.0 = ground (arith, find_next_process-rotation s, found.1) in
    moves rsp next s _ why (sym e) (rw same found.2)

run_or_switch-Returns : (rsp : ℕ) (s : Schedule) → HasReady s → Returns rsp s (run_or_switch rsp s)
unfolding run_or_switch
run_or_switch-Returns rsp s h =
    elim (Bool-cases (is_ready_pid s s.running && ltb 0 (s.process s.running).remaining_quantum)) [
      | inl go ↦ rw go (stays rsp s (ground arith) (ground arith))
      | inr stop ↦ rw stop (
          switch_to-Returns rsp s (find_next_process (refilled s)) h (ground arith) (
            find_next_process-rotation (refilled s)
            ∙ ap (first_ready (refilled s)) (rotation-change s (refill (s.process s.running)) refl)
            ∙ first_ready-change s s.running (refill (s.process s.running)) (rotation s) refl))
    ]

scheduler-run_or_switch :
    (rsp : ℕ) (s : Schedule)
    → s.started ≡ true
    → s.running ≢ 0
    → scheduler rsp s ≡ run_or_switch rsp s
unfolding scheduler
scheduler-run_or_switch rsp s on run = ground arith

-- Once a process was started and one runs, and while some process of the lists is ready, `scheduler`
-- returns, and a ready process runs. The process that ran goes on with one tick less, and nothing is
-- switched, if it is ready and has quantum left; else its stack pointer is saved, its quantum is what
-- it was, or all that its priority gives if it was used up, and the first ready process of the round
-- runs. No other process changes, none changes its state, and none gets more quantum than its
-- priority gives.
pub scheduler-Returns :
    (rsp : ℕ) (s : Schedule)
    → s.started ≡ true
    → s.running ≢ 0
    → HasReady s
    → Returns rsp s (scheduler rsp s)
scheduler-Returns rsp s on run h =
    subst (Returns rsp s) (sym (scheduler-run_or_switch rsp s on run))
      (run_or_switch-Returns rsp s h)
