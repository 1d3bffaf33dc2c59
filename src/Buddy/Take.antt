-- ===== src/Buddy/Take.antt =====
-- `updatingLists`: it hands out an aligned block of the division asked for, and loses no byte.
use bizcocho_os.Prelude.{
  ℕ, zero, suc, ◌+◌, ◌*◌, ◌^◌, ◌≤◌, ◌<◌, ◌≡◌, refl, ◌∙◌, inl, inr, Option, none, some, List, [],
  arith, ltb, ◌==◌, update, Bool-cases,
}
use bizcocho_os.Buddy.{Buddy, max_divisions, remove_last, add_to_list, split, updating_lists}
use bizcocho_os.Prelude.{pow_step}
use bizcocho_os.Buddy.Cover.{in_range, in_range-le}
use bizcocho_os.Buddy.Pair.{IsAligned, pow_pos}
use bizcocho_os.Buddy.Lists.{
  IsListed, IsValid, in_arena, covers, Taken, Removed, add_to_list-Added, unlist-Taken,
  remove_last-Removed, IsListed-write_all,
}

-- No block of the division `d` or a larger one is free.
abbrev pub IsShort : ℕ → Buddy → Type 0
IsShort d b = (e : ℕ) → d ≤ e → e ≤ b.largest → b.occupied e ≡ []

abbrev pub Outcome : ℕ → Buddy → Option ℕ × Buddy → Type 0
Outcome d b (none, b') = (b' ≡ b) × IsShort d b
Outcome d b (some p, b') = Taken d p b b'

-- The lower half of an aligned block is aligned, and so is the upper.
halves-IsAligned :
    (start d p : ℕ)
    → IsAligned start (d + 1) p
    → IsAligned start d p × IsAligned start d (p + 2 ^ d)
halves-IsAligned start d p a =
    let place : p ≡ start + a.index * (2 * 2 ^ d) = rw (← pow_step d) a.place in
    (
      record { index = 2 * a.index; place = omega arith },
      record { index = 2 * a.index + 1; place = omega arith },
    )

in_halves :
    (d p x : ℕ) → in_range p (2 ^ (d + 1)) x ≡ in_range p (2 ^ d) x + in_range (p + 2 ^ d) (2 ^ d) x
in_halves d p x = rw (pow_step d) (ground arith)

-- The write of the upper half's division keeps the lists valid.
tag_upper :
    (d p : ℕ) (b b' : Buddy)
    → IsValid b
    → Taken (d + 1) p b b'
    → IsValid (record b' { division_at = update b'.division_at (p + 2 ^ d) d })
tag_upper d p b b' v t =
    let once : (x : ℕ) → in_range (p + 2 ^ d) (2 ^ d) x + covers b' x ≤ 1 = λ x.
      omega
        (arith, t.covered x, v.inside x, in_halves d p x, in_range-le b.start (2 ^ b.largest) x) in
    record {
      few = t.valid.few;
      listed = IsListed-write_all b' (p + 2 ^ d) (2 ^ d) d (pow_pos d) once t.valid.listed;
      inside = t.valid.inside;
    }

split-Taken :
    (d p : ℕ) (b b' : Buddy)
    → d ≤ b.largest
    → IsValid b
    → Taken (d + 1) p b b'
    → Taken d
        (p + 2 ^ d)
        b
        (add_to_list d p (record b' { division_at = update b'.division_at (p + 2 ^ d) d }))
split-Taken d p b b' hd v t =
    let c : Buddy = record b' { division_at = update b'.division_at (p + 2 ^ d) d } in
    let halves = halves-IsAligned b.start d p t.aligned in
    let k = t.keeps in
    let arena : (x : ℕ) → in_arena b' x ≡ in_arena b x = λ x. rw (k.start, k.largest) in
    let room : (x : ℕ) → in_range p (2 ^ d) x + covers c x ≤ in_arena c x =
      λ x. omega (arith, t.covered x, v.inside x, in_halves d p x, arena x) in
    let added =
      add_to_list-Added d p c (omega (arith, k.largest)) (rw k.start halves.0) room
        (tag_upper d p b b' v t) in
    record {
      valid = added.valid;
      keeps = record {
        start = added.keeps.start ∙ k.start;
        mem_size = added.keeps.mem_size ∙ k.mem_size;
        largest = added.keeps.largest ∙ k.largest;
        mem_used = added.keeps.mem_used ∙ k.mem_used;
      };
      covered = λ x. omega (arith, t.covered x, added.covered x, in_halves d p x);
      aligned = halves.1;
      tagged = ground (
        arith,
        added.kept (p + 2 ^ d),
        pow_pos d,
        t.covered (p + 2 ^ d),
        v.inside (p + 2 ^ d),
        in_range-le b.start (2 ^ b.largest) (p + 2 ^ d),
        pow_step d,
      );
      kept =
          λ q out. ground (arith, added.kept q, t.kept q, t.covered q, in_halves d p q, pow_pos d);
    }

split-Outcome :
    (d : ℕ) (b : Buddy) (r : Option ℕ × Buddy)
    → d ≤ b.largest
    → b.occupied d ≡ []
    → IsValid b
    → Outcome (d + 1) b r
    → Outcome d b (split d r)
unfolding split
split-Outcome d b (none, b') hd e v o = (
  o.0,
  λ k lo hi. elim (Bool-cases (k == d)) [
    | inl same ↦ let at : k ≡ d = ground arith in rw at e
    | inr other ↦ o.1 k (ground arith) hi
  ],
)
split-Outcome d b (some p, b') hd e v o = split-Taken d p b b' hd v o

off_list :
    (d : ℕ) (b : Buddy) (r : Option (ℕ × List ℕ)) (up : Option ℕ × Buddy)
    → d ≤ b.largest
    → IsValid b
    → Removed (IsListed b.start b.division_at d) (2 ^ d) (b.occupied d) r
    → Outcome (d + 1) b up
    → Outcome d b (elim r [
      | some (p, rest) ↦ (some p, record b { occupied = update b.occupied d rest })
      | none ↦ split d up
    ])
off_list d b none up hd v h o = split-Outcome d b up hd h v o
off_list d b (some (p, rest)) up hd v h o = unlist-Taken d p b rest hd v h.0 h.1 h.2

pub updating_lists-Outcome :
    (fuel d : ℕ) (b : Buddy)
    → IsValid b
    → b.largest < d + fuel
    → Outcome d b (updating_lists fuel d b)
unfolding updating_lists
updating_lists-Outcome zero d b v enough = (refl, λ e lo hi. absurd (omega arith))
updating_lists-Outcome (suc fuel) d b v enough = elim (Bool-cases (ltb b.largest d)) [
  | inl above ↦ rw above (refl, λ e lo hi. absurd (ground arith))
  | inr below ↦
      let hd : d ≤ b.largest = ground arith in
      let small : d < max_divisions = omega (arith, v.few) in
      rw below (
        off_list d b (remove_last (b.occupied d)) (updating_lists fuel (d + 1) b) hd v
          (remove_last-Removed (IsListed b.start b.division_at d) (2 ^ d) (b.occupied d)
            (v.listed d small))
          (updating_lists-Outcome fuel (d + 1) b v (omega arith)))
]
