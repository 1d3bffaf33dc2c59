-- ===== src/SyncTest/Exclusion.antt =====
-- With the semaphore, no sum is lost.
use bizcocho_os.Prelude.{
  ℕ, zero, suc, ◌+◌, ◌*◌, ◌-◌, ◌%◌, ◌^◌, ◌≤◌, ◌<◌, ◌≡◌, refl, ap, sym, ◌∙◌, true, false, some, ◌==◌,
  update, Bool-cases, ◌⊎◌, inl, inr, arith,
}
use mathlib.Core.Path.{subst}
use mathlib.Core.Option.{some-injective, none-ne-some}
use bizcocho_os.SyncTest.{
  SyncPc, looping, holding, loaded, stored, Worker, Counter, sync_start, sync_move, sync_step,
  SyncReach, begun, then_one, pair_processes, test_inc,
}
use bizcocho_os.SyncTest.Totals.{total, total-update, total-two}

-- Whether a process is between the wait and the post.
abbrev inside : SyncPc → ℕ
inside looping = 0
inside _ = 1

-- The rounds in which a process has still to store a sum.
abbrev remaining : SyncPc → ℕ → ℕ
remaining stored left = left - 1
remaining _ left = left

abbrev pub owed : ℕ → ℕ → ℕ
owed zero inc = 0
owed (suc n) inc = inc + owed n inc

abbrev is_inside : ℕ → Worker → ℕ
is_inside w x = inside x.pc

abbrev owes : (ℕ → ℕ) → ℕ → Worker → ℕ
owes inc w x = owed (remaining x.pc x.left) (inc w)

-- A sum that is loaded is the one that is to be stored.
abbrev IsFresh : (ℕ → ℕ) → ℕ → ℕ → Worker → Type 0
IsFresh inc global w x = x.pc ≡ loaded → x.aux ≡ (global + inc w) % 2 ^ 64

abbrev HasWork : Worker → Type 0
HasWork x = inside x.pc ≡ 1 → 0 < x.left

-- All rounds of all processes.
abbrev pub all_rounds : (ℕ → ℕ) → ℕ → ℕ → ℕ
all_rounds inc zero n = 0
all_rounds inc (suc m) n = owed n (inc m) + all_rounds inc m n

record Inv (inc : ℕ → ℕ) (m n : ℕ) (s : Counter) : Type 0 where
  mutex : s.sem + total is_inside m s.worker ≡ 1
  fresh : (w : ℕ) → w < m → IsFresh inc s.global w (s.worker w)
  has_work : (w : ℕ) → w < m → HasWork (s.worker w)
  balance : (s.global + total (owes inc) m s.worker) % 2 ^ 64 ≡ all_rounds inc m n % 2 ^ 64
  small : s.global < 2 ^ 64

owed-step : (left inc : ℕ) → 0 < left → owed left inc ≡ inc + owed (left - 1) inc
owed-step zero inc h = absurd (omega (arith, h))
owed-step (suc k) inc h = let e : suc k - 1 ≡ k = omega arith in rw e refl

module _ (inc : ℕ → ℕ) (m n w : ℕ) (lt : w < m) (s : Counter) (inv : Inv inc m n s) where
  abbrev x : Worker
  x = s.worker w

  -- Another process is not inside while this one is.
  fresh-other :
      (v global : ℕ)
      → v < m
      → (v == w) ≡ false
      → (global ≡ s.global) ⊎ (inside x.pc ≡ 1)
      → IsFresh inc global v (s.worker v)
  fresh-other v global h ne (inl same) e = inv.fresh v h e ∙ rw same refl
  fresh-other v global h ne (inr mine) e =
      let both = total-two is_inside m v w s.worker h lt ne in
      let other : inside (s.worker v).pc ≡ 1 = rw e refl in
      absurd (omega (arith, both, other, mine, inv.mutex))

  Inv-step :
      (y : Worker) (sem global : ℕ)
      → sem + inside y.pc ≡ s.sem + inside x.pc
      → (global + owes inc w y) % 2 ^ 64 ≡ (s.global + owes inc w x) % 2 ^ 64
      → IsFresh inc global w y
      → HasWork y
      → (global ≡ s.global) ⊎ (inside x.pc ≡ 1)
      → global < 2 ^ 64
      → Inv inc m n (record { sem = sem; global = global; worker = update s.worker w y })
  Inv-step y sem global e_sem e_owed fresh work others small =
      let count = total-update is_inside m w y s.worker lt in
      let debt = total-update (owes inc) m w y s.worker lt in
      record {
        mutex = omega (arith, count, e_sem, inv.mutex);
        fresh = λ v h. elim (Bool-cases (v == w)) [
          | inl here ↦
              let same : v ≡ w = ground arith in
              rw here (subst (λ (i : ℕ). IsFresh inc global i y) (sym same) fresh)
          | inr other ↦ rw other (fresh-other v global h other others)
        ];
        has_work = λ v h. elim (Bool-cases (v == w)) [
          | inl here ↦ rw here work
          | inr other ↦ rw other (inv.has_work v h)
        ];
        balance = omega (arith, debt, e_owed, inv.balance);
        small = small;
      }

  move-Inv :
      (p : SyncPc) (u : Counter) → x.pc ≡ p → sync_move p true (inc w) w s ≡ some u → Inv inc m n u
  unfolding sync_move
  move-Inv looping u here e = elim (Bool-cases (x.left == 0)) [
    | inl done ↦ absurd (none-ne-some _ (rw done at e))
    | inr more ↦ elim (Bool-cases (s.sem == 0)) [
      | inl taken ↦ absurd (none-ne-some _ (rw (more, taken) at e))
      | inr free ↦
          let step =
            Inv-step (record x { pc = holding }) (s.sem - 1) s.global
              (rw here (ground (arith, free))) (rw here refl) (λ l. absurd (cc))
              (λ i. ground (arith, more)) (inl refl) inv.small in
          subst (Inv inc m n) (some-injective _ _ (rw (more, free) at e)) step
    ]
  ]
  move-Inv holding u here e = subst (Inv inc m n) (some-injective _ _ e) (
      Inv-step (record x { aux = (s.global + inc w) % 2 ^ 64; pc = loaded }) s.sem s.global
        (rw here refl) (rw here refl) (λ l. refl) (λ i. inv.has_work w lt (rw here refl)) (inl refl)
        inv.small)
  move-Inv loaded u here e =
      let work = inv.has_work w lt (rw here refl) in
      let sum = inv.fresh w lt here in
      let debt = owed-step x.left (inc w) work in
      let fits : x.aux < 2 ^ 64 = omega (arith, sum) in
      subst (Inv inc m n) (some-injective _ _ e) (
        Inv-step (record x { pc = stored }) s.sem x.aux (rw here refl)
          (rw here (omega (arith, sum, debt))) (λ l. absurd (cc)) (λ i. work) (inr (rw here refl))
          fits)
  move-Inv stored u here e =
      let low : s.sem ≤ 1 = omega (arith, inv.mutex) in
      subst (Inv inc m n) (some-injective _ _ e) (
        Inv-step (record x { left = x.left - 1; pc = looping }) ((s.sem + 1) % 2 ^ 64) s.global
          (rw here (omega (arith, low))) (rw here refl) (λ l. absurd (cc))
          (λ i. absurd (omega (arith, i))) (inl refl) inv.small)

start-total : (inc : ℕ → ℕ) (m n : ℕ) → total is_inside m (sync_start n).worker ≡ 0
start-total inc zero n = refl
start-total inc (suc m) n = omega (arith, start-total inc m n)

start-owes : (inc : ℕ → ℕ) (m n : ℕ) → total (owes inc) m (sync_start n).worker ≡ all_rounds inc m n
start-owes inc zero n = refl
start-owes inc (suc m) n = ap (λ (r : ℕ). owed n (inc m) + r) (start-owes inc m n)

start-Inv : (inc : ℕ → ℕ) (m n : ℕ) → Inv inc m n (sync_start n)
start-Inv inc m n = record {
  mutex = omega (arith, start-total inc m n);
  fresh = λ w h l. absurd (cc);
  has_work = λ w h i. absurd (omega (arith, i));
  balance = omega (arith, start-owes inc m n);
  small = omega arith;
}

Reach-Inv : (inc : ℕ → ℕ) (m n : ℕ) (s : Counter) → SyncReach true inc m n s → Inv inc m n s
unfolding sync_step
Reach-Inv inc m n s begun = start-Inv inc m n
Reach-Inv inc m n u (then_one {s} r w lt e) =
    move-Inv inc m n w lt s (Reach-Inv inc m n s r) (s.worker w).pc u refl e

remaining-zero : (p : SyncPc) → remaining p 0 ≡ 0
remaining-zero looping = refl
remaining-zero holding = refl
remaining-zero loaded = refl
remaining-zero stored = refl

all_done :
    (inc : ℕ → ℕ) (m : ℕ) (ws : ℕ → Worker)
    → ((w : ℕ) → w < m → (ws w).left ≡ 0)
    → total (owes inc) m ws ≡ 0
all_done inc zero ws d = refl
all_done inc (suc m) ws d =
    let none_left : owes inc m (ws m) ≡ 0 =
      ap (λ (l : ℕ). owed (remaining (ws m).pc l) (inc m)) (d m (omega arith))
      ∙ ap (λ (l : ℕ). owed l (inc m)) (remaining-zero (ws m).pc) in
    omega (arith, none_left, all_done inc m ws (λ w h. d w (omega (arith, h))))

-- With the semaphore, in whatever order the processes take their steps: once all have made their rounds, the counter is
-- the sum of all that they add, in 64 bits.
pub global-IsSum :
    (inc : ℕ → ℕ) (m n : ℕ) (s : Counter)
    → SyncReach true inc m n s
    → ((w : ℕ) → w < m → (s.worker w).left ≡ 0)
    → s.global ≡ all_rounds inc m n % 2 ^ 64
global-IsSum inc m n s r done =
    let inv = Reach-Inv inc m n s r in
    omega (arith, inv.balance, inv.small, all_done inc m s.worker done)

pairs-cancel : (n : ℕ) → owed n (2 ^ 64 - 1) + owed n 1 ≡ 2 ^ 64 * n
pairs-cancel zero = refl
pairs-cancel (suc n) = omega (arith, pairs-cancel n)

-- The processes of `test_sync`: the final value is 0.
pub global-test_inc :
    (n : ℕ) (s : Counter)
    → SyncReach true test_inc (2 * pair_processes) n s
    → ((w : ℕ) → w < 2 * pair_processes → (s.worker w).left ≡ 0)
    → s.global ≡ 0
global-test_inc n s r done =
    let sum = global-IsSum test_inc (2 * pair_processes) n s r done in
    omega (arith, sum, pairs-cancel n)
