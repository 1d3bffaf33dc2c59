-- ===== src/Buddy/Restore.antt =====
-- `restoreToList`: it puts the block back, joined with its buddy as long as that is free.
use bizcocho_os.Prelude.{
  ℕ, zero, suc, ◌+◌, ◌-◌, ◌^◌, ◌≤◌, ◌<◌, ◌≡◌, ◌≢◌, refl, ap, ◌∙◌, false, Option, none, some, List,
  arith, ltb, update,
}
use bizcocho_os.Buddy.{
  Buddy, max_divisions, add_to_list, find_and_remove, pair_start, restore_to_list,
}
use bizcocho_os.Buddy.Cover.{in_range, in_range-le}
use bizcocho_os.Buddy.Pair.{IsAligned, pow_pos, pair_start-IsHalf, buddy_lem}
use bizcocho_os.Buddy.Lists.{
  IsListed, IsValid, in_arena, covers, Added, Taken, Found, add_to_list-Added, unlist-Taken,
  find_and_remove-Found,
}

-- A block of the largest division is the arena, so it has no buddy.
whole_arena :
    (b : Buddy) (d p q : ℕ)
    → d ≡ b.largest
    → ((x : ℕ) → in_range p (2 ^ d) x ≤ in_arena b x)
    → ((x : ℕ) → in_range q (2 ^ d) x ≤ in_arena b x)
    → p ≡ q
whole_arena b d p q e hp hq =
    let s = pow_pos d in
    let same : 2 ^ d ≡ 2 ^ b.largest = ap (λ (k : ℕ). 2 ^ k) e in
    let at_p : p ≡ b.start = ground (arith, hp p, hp (p + 2 ^ d - 1)) in
    let at_q : q ≡ b.start = ground (arith, hq q, hq (q + 2 ^ d - 1)) in omega arith

join-Added :
    (d p q : ℕ) (b c b' : Buddy)
    → ((x : ℕ)
        → in_range p (2 ^ d) x + in_range q (2 ^ d) x
          ≡ in_range (pair_start b.start d p) (2 ^ (d + 1)) x)
    → Taken d q b c
    → Added (d + 1) (pair_start b.start d p) c b'
    → Added d p b b'
join-Added d p q b c b' pair t a = record {
  valid = a.valid;
  keeps = record {
    start = a.keeps.start ∙ t.keeps.start;
    mem_size = a.keeps.mem_size ∙ t.keeps.mem_size;
    largest = a.keeps.largest ∙ t.keeps.largest;
    mem_used = a.keeps.mem_used ∙ t.keeps.mem_used;
  };
  covered = λ x. omega (arith, pair x, t.covered x, a.covered x);
  kept = λ k free out.
      a.kept k (omega (arith, t.covered k)) (omega (arith, pair k, t.covered k)) ∙ t.kept k free;
}

-- What the call one division up promises.
abbrev Climbs : (largest d p : ℕ) → (Buddy → Buddy) → Type 0
Climbs largest d p up =
    (c : Buddy)
    → IsValid c
    → c.largest ≡ largest
    → d ≤ c.largest
    → IsAligned c.start d p
    → ((x : ℕ) → in_range p (2 ^ d) x + covers c x ≤ in_arena c x)
    → Added d p c (up c)

-- The buddy `q` was on the list: the pair goes one division up.
climb :
    (d p q : ℕ) (b : Buddy) (rest : List ℕ) (up : Buddy → Buddy)
    → d ≤ b.largest
    → IsAligned b.start d p
    → ((x : ℕ) → in_range p (2 ^ d) x + covers b x ≤ in_arena b x)
    → Climbs b.largest (d + 1) (pair_start b.start d p) up
    → pair_start b.start d p ≤ q
    → q < pair_start b.start d p + 2 ^ (d + 1)
    → IsAligned b.start d q
    → Taken d q b (record b { occupied = update b.occupied d rest })
    → Added d p b (up (record b { occupied = update b.occupied d rest }))
climb d p q b rest up hd al room ih lo hi alq t =
    let c : Buddy = record b { occupied = update b.occupied d rest } in
    let half = pair_start-IsHalf b.start d p al in
    let ne : p ≢ q = λ e.
      let same = rw (← e) at t.covered p in
      absurd (ground (arith, room p, same, pow_pos d, in_range-le b.start (2 ^ b.largest) p)) in
    let pair = λ (x : ℕ). buddy_lem b.start d p q (pair_start b.start d p) x half alq lo hi ne in
    let inner : d ≢ b.largest = λ e. ne (
      whole_arena b d p q e (λ x. omega (arith, room x))
        (λ x. omega (arith, room x, t.covered x))) in
    join-Added d p q b c (up c) pair t (
      ih c t.valid refl (omega (arith, inner)) half.above
        (λ x. omega (arith, pair x, room x, t.covered x)))

join :
    (d p : ℕ) (b : Buddy) (r : Option (List ℕ)) (up : Buddy → Buddy)
    → IsValid b
    → d ≤ b.largest
    → IsAligned b.start d p
    → ((x : ℕ) → in_range p (2 ^ d) x + covers b x ≤ in_arena b x)
    → Climbs b.largest (d + 1) (pair_start b.start d p) up
    → Found
        (IsListed b.start b.division_at d)
        (2 ^ d)
        (pair_start b.start d p)
        (2 ^ (d + 1))
        (b.occupied d)
        r
    → Added d p b (elim r [
      | none ↦ add_to_list d p b
      | some rest ↦ up (record b { occupied = update b.occupied d rest })
    ])
join d p b none up v hd al room ih f = add_to_list-Added d p b hd al room v
join d p b (some rest) up v hd al room ih f =
    climb d p f.0 b rest up hd al room ih f.3 f.4 f.1.aligned
      (unlist-Taken d f.0 b rest hd v f.1 f.2 f.5)

pub restore_to_list-Added :
    (fuel d p : ℕ) (b : Buddy)
    → IsValid b
    → b.largest < d + fuel
    → d ≤ b.largest
    → IsAligned b.start d p
    → ((x : ℕ) → in_range p (2 ^ d) x + covers b x ≤ in_arena b x)
    → Added d p b (restore_to_list fuel d p b)
unfolding restore_to_list
restore_to_list-Added zero d p b v enough hd al room = absurd (omega arith)
restore_to_list-Added (suc fuel) d p b v enough hd al room =
    let below : ltb b.largest d ≡ false = ground arith in
    let small : d < max_divisions = omega (arith, v.few) in
    let from = pair_start b.start d p in
    rw below (
      join d p b (find_and_remove from (2 ^ (d + 1)) (b.occupied d))
        (restore_to_list fuel (d + 1) from) v hd al room
        (λ c vc same hc alc roomc.
          restore_to_list-Added fuel (d + 1) from c vc (omega arith) hc alc roomc)
        (find_and_remove-Found (IsListed b.start b.division_at d) (2 ^ d) from (2 ^ (d + 1))
          (b.occupied d) (v.listed d small)))
