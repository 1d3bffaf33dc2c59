-- ===== src/Blocking/Laws.antt =====
-- What blocking and unblocking promise.
use bizcocho_os.Prelude.{
  ℕ, ◌+◌, ◌≤◌, ◌≡◌, refl, sym, ap, ◌∙◌, Bool, true, false, ◌&&◌, List, [], ◌∷◌, ltb, ◌==◌,
  if◌then◌else◌, update, arith, Bool-cases, inl, inr,
}
use bizcocho_os.Process.{
  State, blocked, ready, finished, source_code, Reason, same_reason, is_ready, is_blocked, Process,
  Schedule, is_ready_pid, find_by_pid,
}
use bizcocho_os.Scheduler.Queues.{count}
use bizcocho_os.Blocking.{set_ready, block_process_with_reason, unblock_loop, unblock_all}

-- 1 if the process is blocked for a reason of this source, else 0.
abbrev pub waits : Process → ℕ → ℕ
waits p code = if is_blocked p.state && source_code p.reason.source == code then 1 else 0

-- Each blocked process is once on the list of its reason's source, and no other process is on a list.
abbrev pub IsListed : Schedule → Type 0
IsListed s = (p code : ℕ) → count p (s.blocked_lists code) ≡ waits (s.process p) code

-- What becomes of each process in the loop of `unblockAllProcessesBecauseReason`.
unblock_loop_process :
    (r : Reason) (l : List ℕ) (f : ℕ → Process) (p : ℕ)
    → (unblock_loop r l f).0 p
      ≡ (if ltb 0 (count p l) && (f p).reason.id == r.id then set_ready (f p) else f p)
unfolding unblock_loop
unblock_loop_process r [] f p = ground arith
unblock_loop_process r (x ∷ xs) f p = ground (
  arith,
  unblock_loop_process r xs f p,
  unblock_loop_process r xs (update f x (set_ready (f x))) p,
)

unblock_loop_fewer :
    (r : Reason) (l : List ℕ) (f : ℕ → Process) (p : ℕ) → count p (unblock_loop r l f).1 ≤ count p l
unfolding unblock_loop
unblock_loop_fewer r [] f p = omega arith
unblock_loop_fewer r (x ∷ xs) f p =
    ground
      (arith, unblock_loop_fewer r xs f p, unblock_loop_fewer r xs (update f x (set_ready (f x))) p)

-- What stays on the list.
unblock_loop_left :
    (r : Reason) (l : List ℕ) (f : ℕ → Process) (p : ℕ)
    → count p l ≤ 1
    → count p (unblock_loop r l f).1 ≡ (if (f p).reason.id == r.id then 0 else count p l)
unfolding unblock_loop
unblock_loop_left r [] f p h = ground arith
unblock_loop_left r (x ∷ xs) f p h = elim (Bool-cases (x == p)) [
  | inl same ↦
      let at : x ≡ p = ground arith in
      ground (
        arith,
        unblock_loop_fewer r xs f p,
        unblock_loop_fewer r xs (update f x (set_ready (f x))) p,
      )
  | inr other ↦
      ground
        (arith, unblock_loop_left r xs f p, unblock_loop_left r xs (update f x (set_ready (f x))) p)
]

-- A process that is made ready waits for nothing.
waits_woken :
    (b : Bool) (q : Process) (k : ℕ)
    → waits (if b then set_ready q else q) k ≡ (if b then 0 else waits q k)
waits_woken true q k = refl
waits_woken false q k = refl

waits_le : (b : Bool) → (if b then 1 else 0) ≤ 1
waits_le b = ground arith

other_waits :
    (b : Bool) (c id code wanted k : ℕ)
    → (k == code) ≡ false
    → ◌≡◌ {A = ℕ}
        (if b && c == k then 1 else 0)
        (if b && (c == code && id == wanted) then 0 else (if b && c == k then 1 else 0))
other_waits b c id code wanted k h = ground arith

-- The same count with the process's state, source and id as values: `n` on the list, `m` left on it.
still_waits :
    (b : Bool) (c id code wanted n m : ℕ)
    → n ≡ (if b && c == code then 1 else 0)
    → m ≡ (if id == wanted then 0 else n)
    → m ≡ (if b && (c == code && id == wanted) then 0 else (if b && c == code then 1 else 0))
still_waits b c id code wanted n m hn hm = ground arith

waits_count :
    (code id : ℕ) (lists : ℕ → List ℕ) (left : List ℕ) (q : Process) (p k : ℕ)
    → ((c : ℕ) → count p (lists c) ≡ waits q c)
    → (count p (lists code) ≤ 1
        → count p left ≡ (if q.reason.id == id then 0 else count p (lists code)))
    → count p (update lists code left k) ≡ (
        if is_blocked q.state && (source_code q.reason.source == code && q.reason.id == id)
        then 0
        else waits q k)
waits_count code id lists left q p k listed h =
    let c = source_code q.reason.source in
    let one : waits q code ≤ 1 = waits_le (is_blocked q.state && c == code) in
    elim (Bool-cases (k == code)) [
      | inl same ↦
          let at : k ≡ code = ground arith in
          rw (same, at)
            (still_waits (is_blocked q.state) c q.reason.id code id (count p (lists code))
              (count p left) (listed code) (h (omega (arith, listed code, one))))
      | inr other ↦
          rw (other, listed k) (other_waits (is_blocked q.state) c q.reason.id code id k other)
    ]

listed_after :
    (r : Reason) (lists : ℕ → List ℕ) (left : List ℕ) (q : Process) (p k : ℕ)
    → ((c : ℕ) → count p (lists c) ≡ waits q c)
    → (count p (lists (source_code r.source)) ≤ 1
        → count p left
          ≡ (if q.reason.id == r.id then 0 else count p (lists (source_code r.source))))
    → count p (update lists (source_code r.source) left k)
      ≡ waits (if is_blocked q.state && same_reason q.reason r then set_ready q else q) k
listed_after r lists left q p k listed h =
    waits_count (source_code r.source) r.id lists left q p k listed h
    ∙ sym (waits_woken (is_blocked q.state && same_reason q.reason r) q k)

-- `unblockAllProcessesBecauseReason` makes ready exactly the processes that are blocked for that source and
-- id, changes no other process, and leaves each process that is still blocked once on its list.
pub unblock_all_lem :
    (r : Reason) (s : Schedule)
    → IsListed s
    → IsListed (unblock_all r s)
      × ((p : ℕ)
          → (unblock_all r s).process p ≡ (
              if is_blocked (s.process p).state && same_reason (s.process p).reason r
              then set_ready (s.process p)
              else s.process p))
unfolding unblock_all
unblock_all_lem r s listed =
    let code = source_code r.source in
    let l = s.blocked_lists code in
    let now : (p : ℕ)
        → (unblock_loop r l s.process).0 p ≡ (
            if is_blocked (s.process p).state && same_reason (s.process p).reason r
            then set_ready (s.process p)
            else s.process p) =
      λ p. ground (arith, listed p code, unblock_loop_process r l s.process p) in
    let left = λ (p : ℕ). unblock_loop_left r l s.process p in
    (
      λ p k.
          listed_after r s.blocked_lists (unblock_loop r l s.process).1 (s.process p) p k (listed p)
            (left p)
          ∙ ap (λ (q : Process). waits q k) (sym (now p)),
      now,
    )

not_blocked : (st : State) → is_ready st ≡ true → is_blocked st ≡ false
not_blocked blocked h = absurd (cc)
not_blocked ready h = refl
not_blocked finished h = refl

count_cons :
    (lists : ℕ → List ℕ) (c pid p k : ℕ)
    → count p (update lists c (pid ∷ lists c) k)
      ≡ (if k == c then (if pid == p then 1 else 0) else 0) + count p (lists k)
count_cons lists c pid p k = elim (Bool-cases (k == c)) [
  | inl same ↦ let at : k ≡ c = ground arith in rw (same, at)
  | inr other ↦ rw other (omega arith)
]

block_count :
    (c pid k n : ℕ)
    → n ≡ 0
    → (if k == c then (if pid == pid then 1 else 0) else 0) + n ≡ (if c == k then 1 else 0)
block_count c pid k n h = ground arith

count_other :
    (lists : ℕ → List ℕ) (c pid p k : ℕ)
    → (p == pid) ≡ false
    → count p (update lists c (pid ∷ lists c) k) ≡ count p (lists k)
count_other lists c pid p k other = count_cons lists c pid p k ∙ ground arith

block_listed :
    (pid : ℕ) (r : Reason) (s : Schedule)
    → IsListed s
    → is_ready_pid s pid ≡ true
    → (p k : ℕ)
    → count p (
        update s.blocked_lists
          (source_code r.source)
          (pid ∷ s.blocked_lists (source_code r.source))
          k)
      ≡ waits (update s.process pid (record (s.process pid) { state = blocked; reason = r }) p) k
block_listed pid r s listed hr p k =
    let c = source_code r.source in
    let idle = not_blocked (s.process pid).state hr in
    elim (Bool-cases (p == pid)) [
      | inl same ↦
          let at : p ≡ pid = ground arith in
          let none_yet : waits (s.process pid) k ≡ 0 =
            ap (λ (b : Bool). if b && source_code (s.process pid).reason.source == k then 1 else 0)
              idle in
          rw same (
            count_cons s.blocked_lists c pid p k
            ∙ rw at (block_count c pid k (count pid (s.blocked_lists k)) (listed pid k ∙ none_yet)))
      | inr other ↦ rw other (count_other s.blocked_lists c pid p k other ∙ listed p k)
    ]

-- Where there is memory for a node, `blockProcessWithReason` blocks a process that is there and ready,
-- for the reason, and puts it on the list of the reason's source; else it changes nothing. Each blocked process is
-- still once on its list. Without that memory it answers the same and does the same to the processes, but
-- where it blocks, the list of the source is empty afterwards, so that its processes are on no list.
pub block_process_with_reason_lem :
    (pid : ℕ) (r : Reason) (s : Schedule)
    → IsListed s
    → let (done, s') = block_process_with_reason true pid r s in
      IsListed s'
      × (done ≡ (find_by_pid s pid && is_ready_pid s pid))
      × ((p : ℕ)
          → s'.process p ≡ (
              if done && p == pid
              then record (s.process p) { state = blocked; reason = r }
              else s.process p))
      × (block_process_with_reason false pid r s ≡ (
        done,
        record s' {
          blocked_lists =
              (if done then update s.blocked_lists (source_code r.source) [] else s.blocked_lists);
        },
      ))
unfolding block_process_with_reason
block_process_with_reason_lem pid r s listed =
    elim (Bool-cases (find_by_pid s pid && is_ready_pid s pid)) [
      | inl go ↦ rw go (
        block_listed pid r s listed (ground arith),
        refl,
        λ p. elim (Bool-cases (p == pid)) [
          | inl same ↦ let at : p ≡ pid = ground arith in rw (same, at)
          | inr other ↦ rw other
        ],
        refl,
      )
      | inr stays ↦ rw stays (listed, refl, λ p. refl, refl)
    ]
