-- ===== src/Semaphore/Tokens.antt =====
-- What a semaphore counts, over any sequence of the calls.
use bizcocho_os.Prelude.{
  ℕ, ◌+◌, ◌-◌, ◌%◌, ◌^◌, ◌<◌, ◌≡◌, ◌⊎◌, refl, Bool, true, false, Option, none, some, inl, inr, List,
  [], ◌∷◌, arith, ◌==◌, if◌then◌else◌, Bool-cases, Option-cases,
}
use bizcocho_os.Process.{Schedule}
use bizcocho_os.Semaphore.{
  Semaphore, Hub, find_sem, change_sem, Waited, passed, wait_on, wait_for, Posted, woke, raised,
  split_last, post_on, post,
}

pub find_sem-id :
    (id : ℕ) (cs : List Semaphore) (c : Semaphore) → find_sem id cs ≡ some c → c.id ≡ id
unfolding find_sem
find_sem-id id [] c e = absurd (cc)
find_sem-id id (x ∷ cs) c e = elim (Bool-cases (x.id == id)) [
  | inl hit ↦ ground arith
  | inr miss ↦ find_sem-id id cs c (rw miss at e)
]

abbrev pub change_found : (Semaphore → Semaphore) → Option Semaphore → Option Semaphore
change_found f none = none
change_found f (some c) = some (f c)

-- What a write through the pointer leaves for a later `find`.
pub find_sem-change_sem :
    (a id : ℕ) (f : Semaphore → Semaphore) (cs : List Semaphore)
    → ((c : Semaphore) → (f c).id ≡ c.id)
    → find_sem a (change_sem id f cs)
      ≡ (if a == id then change_found f (find_sem a cs) else find_sem a cs)
unfolding find_sem
find_sem-change_sem a id f [] same = ground arith
find_sem-change_sem a id f (c ∷ cs) same =
    ground (arith, find_sem-change_sem a id f cs same, same c)

abbrev token_mod : ℕ
token_mod = 2 ^ 64

-- The semaphore is there; its value and `m` passes make up the value `v` at the start and `n` posts,
-- and processes wait only while the value is 0.
pub record Balanced (v m n : ℕ) (o : Option Semaphore) : Type 0 where
  pub now : Semaphore
  pub found : o ≡ some now
  pub tokens : (now.value + m) % token_mod ≡ (v + n) % token_mod
  pub small : now.value < token_mod
  pub handed : (now.waiting ≡ []) ⊎ (now.value ≡ 0)

-- What a write to a semaphore may do: `x` passes more and `y` posts more.
record Writes (x y : ℕ) (c d : Semaphore) : Type 0 where
  tokens : (d.value + x) % token_mod ≡ (c.value + y) % token_mod
  small : c.value < token_mod → d.value < token_mod
  handed : (c.waiting ≡ []) ⊎ (c.value ≡ 0) → (d.waiting ≡ []) ⊎ (d.value ≡ 0)

add_tokens :
    (d c v m n x y : ℕ)
    → (d + x) % token_mod ≡ (c + y) % token_mod
    → (c + m) % token_mod ≡ (v + n) % token_mod
    → (d + (m + x)) % token_mod ≡ (v + (n + y)) % token_mod
add_tokens d c v m n x y h g = omega arith

Balanced-change_sem :
    (a id v m n x y : ℕ) (f : Semaphore → Semaphore) (cs : List Semaphore) (c : Semaphore)
    → ((q : Semaphore) → (f q).id ≡ q.id)
    → find_sem id cs ≡ some c
    → Writes x y c (f c)
    → Balanced v m n (find_sem a cs)
    → Balanced v
        (m + (if a == id then x else 0))
        (n + (if a == id then y else 0))
        (find_sem a (change_sem id f cs))
Balanced-change_sem a id v m n x y f cs c same e w b = elim (Bool-cases (a == id)) [
  | inl hit ↦
      let at : a ≡ id = ground arith in
      let which : b.now ≡ c = ground (arith, b.found, e) in
      rw (find_sem-change_sem a id f cs same, hit, at, e)
        (record {
          now = f c;
          found = refl;
          tokens = add_tokens (f c).value c.value v m n x y w.tokens (rw which at b.tokens);
          small = w.small (rw which at b.small);
          handed = w.handed (rw which at b.handed);
        })
  | inr miss ↦
      rw (find_sem-change_sem a id f cs same, miss)
        (record {
          now = b.now;
          found = b.found;
          tokens = omega (arith, b.tokens);
          small = b.small;
          handed = b.handed;
        })
]

-- What the calls count at the semaphore.
abbrev pub passes : Waited → ℕ
passes (passed _) = 1
passes _ = 0

abbrev pub wakes : Posted → ℕ
wakes (woke _) = 1
wakes _ = 0

abbrev pub posts : Posted → ℕ
posts (woke _) = 1
posts raised = 1
posts _ = 0

-- What the calls may come to at the semaphore `a`, where they count `x` and `y` at the semaphore `id`.
abbrev Keeps : ℕ → ℕ → ℕ → ℕ → Hub → Hub → Type 0
Keeps a id x y h h' =
    (v m n : ℕ)
    → Balanced v m n (find_sem a h.semaphores)
    → Balanced v (m + (if a == id then x else 0)) (n + (if a == id then y else 0))
        (find_sem a h'.semaphores)

Keeps-refl : (a id : ℕ) (h : Hub) → Keeps a id 0 0 h h
Keeps-refl a id h v m n b = record {
  now = b.now;
  found = b.found;
  tokens = ground (arith, b.tokens);
  small = b.small;
  handed = b.handed;
}

Writes-sleep :
    (c : Semaphore) (q : List ℕ) (k : ℕ) (l : Bool)
    → (c.value == 0) ≡ true
    → Writes 0 0 c (record c { amount_blocked = k; waiting = q; locked = l })
Writes-sleep c q k l zero_left = record {
  tokens = refl;
  small = λ h. h;
  handed = λ _. inr (ground arith);
}

still_handed :
    (c : Semaphore) → (c.waiting ≡ []) ⊎ (c.value ≡ 0) → (c.waiting ≡ []) ⊎ (c.value - 1 ≡ 0)
still_handed c (inl idle) = inl idle
still_handed c (inr gone) = inr (omega arith)

wait_on-sleep :
    (a id : ℕ) (for_pid for_node : Bool) (h : Hub) (c : Semaphore)
    → find_sem id h.semaphores ≡ some c
    → c.locked ≡ false
    → (c.value == 0) ≡ true
    → Keeps a id
        (passes (wait_on for_pid for_node id h c).0)
        0
        h
        (wait_on for_pid for_node id h c).1
unfolding wait_on
wait_on-sleep a id false for_node h c e free gone =
    rw (free, gone)
      (λ v m n b.
        Balanced-change_sem a id v m n 0 0 (λ q. record q { locked = true }) h.semaphores c
          (λ q. refl) e (Writes-sleep c c.waiting c.amount_blocked true gone) b)
wait_on-sleep a id true false h c e free gone =
    rw (free, gone)
      (λ v m n b.
        Balanced-change_sem a id v m n 0 0
          (λ q. record q {
            amount_blocked = (q.amount_blocked + 1) % 2 ^ 32;
            waiting = [];
            locked = true;
          })
          h.semaphores c (λ q. refl) e
          (Writes-sleep c [] ((c.amount_blocked + 1) % 2 ^ 32) true gone) b)
wait_on-sleep a id true true h c e free gone =
    rw (free, gone)
      (λ v m n b.
        Balanced-change_sem a id v m n 0 0
          (λ q. record q {
            amount_blocked = (q.amount_blocked + 1) % 2 ^ 32;
            waiting = h.schedule.running ∷ q.waiting;
          })
          h.semaphores c (λ q. refl) e
          (Writes-sleep c (h.schedule.running ∷ c.waiting) ((c.amount_blocked + 1) % 2 ^ 32)
            c.locked gone)
          b)

wait_on-Keeps :
    (a id : ℕ) (for_pid for_node : Bool) (h : Hub) (c : Semaphore)
    → find_sem id h.semaphores ≡ some c
    → Keeps a id
        (passes (wait_on for_pid for_node id h c).0)
        0
        h
        (wait_on for_pid for_node id h c).1
unfolding wait_on
wait_on-Keeps a id for_pid for_node h c e = elim (Bool-cases c.locked) [
  | inl taken ↦ rw taken (Keeps-refl a id h)
  | inr free ↦ elim (Bool-cases (c.value == 0)) [
    | inl gone ↦ wait_on-sleep a id for_pid for_node h c e free gone
    | inr left ↦
        rw (free, left)
          (λ v m n b.
            Balanced-change_sem a id v m n 1 0 (λ q. record q { value = q.value - 1 }) h.semaphores
              c (λ q. refl) e
              (record { tokens = ground arith; small = λ s. omega arith; handed = still_handed c })
              b)
  ]
]

wait_for-Keeps :
    (a id : ℕ) (for_pid for_node : Bool) (h : Hub)
    → Keeps a id (passes (wait_for for_pid for_node id h).0) 0 h (wait_for for_pid for_node id h).1
unfolding wait_for
wait_for-Keeps a id for_pid for_node h = elim (Option-cases (find_sem id h.semaphores)) [
  | inl missing ↦ rw (missing, wait_for) (Keeps-refl a id h)
  | inr (c, e) ↦ rw (e, wait_for) (wait_on-Keeps a id for_pid for_node h c e)
]

split_last-empty : (l : List ℕ) → split_last l ≡ none → l ≡ []
unfolding split_last
split_last-empty [] e = refl
split_last-empty (x ∷ xs) e = elim (Option-cases (split_last xs)) [
  | inl nothing ↦ absurd (ground (arith, nothing, e))
  | inr (r, more) ↦ absurd (ground (arith, more, e))
]

Writes-raise :
    (c : Semaphore)
    → ((c.value ≡ 0) → c.waiting ≡ [])
    → Writes 0 1 c (record c { value = (c.value + 1) % 2 ^ 64 })
Writes-raise c idle = record {
  tokens = omega arith;
  small = λ s. omega arith;
  handed = λ o. inl (elim o [ inl w ↦ w | inr z ↦ idle z ]);
}

post_on-Keeps :
    (a id : ℕ) (h : Hub) (c : Semaphore)
    → find_sem id h.semaphores ≡ some c
    → Keeps a id (wakes (post_on id h c).0) (posts (post_on id h c).0) h (post_on id h c).1
unfolding post_on
post_on-Keeps a id h c e = elim (Bool-cases (c.value == 0)) [
  | inr left ↦ rw left (λ v m n b.
      Balanced-change_sem a id v m n 0 1 (λ q. record q { value = (q.value + 1) % 2 ^ 64 })
        h.semaphores c (λ q. refl) e (Writes-raise c (λ z. absurd (ground arith))) b)
  | inl gone ↦ elim (Option-cases (split_last c.waiting)) [
    | inl idle ↦
        rw (gone, idle)
          (λ v m n b.
            Balanced-change_sem a id v m n 0 1 (λ q. record q { value = (q.value + 1) % 2 ^ 64 })
              h.semaphores c (λ q. refl) e (Writes-raise c (λ z. split_last-empty c.waiting idle))
              b)
    | inr ((front, pid), more) ↦
        rw (gone, more)
          (λ v m n b.
            Balanced-change_sem a id v m n 1 1
              (λ q. record q {
                waiting = front;
                amount_blocked = (q.amount_blocked + 2 ^ 32 - 1) % 2 ^ 32;
              })
              h.semaphores c (λ q. refl) e
              (record { tokens = refl; small = λ s. s; handed = λ o. inr (ground arith) }) b)
  ]
]

post-Keeps :
    (a id : ℕ) (h : Hub) → Keeps a id (wakes (post id h).0) (posts (post id h).0) h (post id h).1
unfolding post
post-Keeps a id h = elim (Option-cases (find_sem id h.semaphores)) [
  | inl missing ↦ rw (missing, post) (Keeps-refl a id h)
  | inr (c, e) ↦ elim (Bool-cases c.locked) [
    | inl taken ↦ rw (e, taken, post) (Keeps-refl a id h)
    | inr free ↦ rw (e, free, post) (post_on-Keeps a id h c e)
  ]
]

unposted :
    {v m n : ℕ} {o : Option Semaphore} (b : Bool)
    → Balanced v m (n + (if b then 0 else 0)) o
    → Balanced v m n o
unposted b r = record {
  now = r.now;
  found = r.found;
  tokens = ground (arith, r.tokens);
  small = r.small;
  handed = r.handed;
}

-- Sequences of calls, from `h₀` on: how often the semaphore `a` was passed, at once or when woken, and
-- how often a post counted at it. Between the calls the schedule changes in any way.
pub data Reach (a : ℕ) (h₀ : Hub) : ℕ → ℕ → Hub → Type 0 where
  here : Reach a h₀ 0 0 h₀
  waits :
      {m n : ℕ} {h : Hub} (id : ℕ) (for_pid for_node : Bool)
      → Reach a h₀ m n h
      → Reach a h₀
          (m + (if a == id then passes (wait_for for_pid for_node id h).0 else 0))
          n
          (wait_for for_pid for_node id h).1
  posted :
      {m n : ℕ} {h : Hub} (id : ℕ)
      → Reach a h₀ m n h
      → Reach a h₀
          (m + (if a == id then wakes (post id h).0 else 0))
          (n + (if a == id then posts (post id h).0 else 0))
          (post id h).1
  runs :
      {m n : ℕ} {h : Hub} (s : Schedule)
      → Reach a h₀ m n h
      → Reach a h₀ m n (record h { schedule = s })

-- Over any sequence of `waitSem` and `postSem` calls of any semaphores, memory failures included, a
-- semaphore that starts with no process waiting keeps its account, modulo 2^64: its value and the passes through it
-- make up the value at the start and the posts at it. And processes wait at it only while its value is 0.
pub Reach-Balanced :
    {a v : ℕ} {h₀ : Hub} {m n : ℕ} {h : Hub}
    → Balanced v 0 0 (find_sem a h₀.semaphores)
    → Reach a h₀ m n h
    → Balanced v m n (find_sem a h.semaphores)
Reach-Balanced b here = b
Reach-Balanced {a = a} {v = v} b (waits {m = m} {n = n} {h = h} id for_pid for_node r) =
    unposted (a == id) (wait_for-Keeps a id for_pid for_node h v m n (Reach-Balanced b r))
Reach-Balanced {a = a} {v = v} b (posted {m = m} {n = n} {h = h} id r) =
    post-Keeps a id h v m n (Reach-Balanced b r)
Reach-Balanced b (runs s r) = Reach-Balanced b r
