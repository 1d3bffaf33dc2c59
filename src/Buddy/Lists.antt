-- ===== src/Buddy/Lists.antt =====
-- The free lists of a valid allocator, and what putting a block on a list or taking it off does.
use bizcocho_os.Prelude.{
  ℕ, ◌+◌, ◌^◌, ◌≤◌, ◌<◌, ◌≡◌, refl, ◌&&◌, inl, inr, Option, none, some, List, [], ◌∷◌, arith, ltb,
  leb, ◌==◌, All, update, Bool-cases,
}
use bizcocho_os.Buddy.{Buddy, max_divisions, remove_last, add_to_list, find_and_remove}
use bizcocho_os.Buddy.Cover.{
  in_range, cover_list, cover, cover-update, cover_list-le-cover, in_range-le,
}
use bizcocho_os.Buddy.Pair.{IsAligned, pow_pos}

-- A node of the list of division `d`: aligned, with its division in front.
pub record IsListed (start : ℕ) (division_at : ℕ → ℕ) (d p : ℕ) : Type 0 where
  pub aligned : IsAligned start d p
  pub tagged : division_at p ≡ d

-- The arena: all its bytes, as one block of the largest division.
abbrev pub in_arena : Buddy → ℕ → ℕ
in_arena b x = in_range b.start (2 ^ b.largest) x

abbrev pub covers : Buddy → ℕ → ℕ
covers b x = cover max_divisions b.occupied x

pub record IsValid (b : Buddy) : Type 0 where
  pub few : b.largest < max_divisions
  pub listed : (d : ℕ) → d < max_divisions → All (IsListed b.start b.division_at d) (b.occupied d)
  pub inside : (x : ℕ) → covers b x ≤ in_arena b x

-- A write in front of a block that shares no byte with the list.
IsListed-write :
    (start : ℕ) (f : ℕ → ℕ) (d a s v : ℕ) (l : List ℕ)
    → 0 < s
    → ((x : ℕ) → in_range a s x + cover_list (2 ^ d) l x ≤ 1)
    → All (IsListed start f d) l
    → All (IsListed start (update f a v) d) l
IsListed-write start f d a s v [] pos once all = tt
IsListed-write start f d a s v (p ∷ ps) pos once all = (
  record { aligned = all.0.aligned; tagged = ground (arith, once a, pow_pos d, all.0.tagged) },
  IsListed-write start f d a s v ps pos (λ x. omega (arith, once x)) all.1,
)

pub IsListed-write_all :
    (b : Buddy) (a s v : ℕ)
    → 0 < s
    → ((x : ℕ) → in_range a s x + covers b x ≤ 1)
    → ((d : ℕ) → d < max_divisions → All (IsListed b.start b.division_at d) (b.occupied d))
    → (d : ℕ) → d < max_divisions
    → All (IsListed b.start (update b.division_at a v) d) (b.occupied d)
IsListed-write_all b a s v pos once listed d hd =
    IsListed-write b.start b.division_at d a s v (b.occupied d) pos
      (λ x. omega (arith, once x, cover_list-le-cover max_divisions d b.occupied x hd))
      (listed d hd)

-- A list changed at one division.
IsListed-update :
    (start : ℕ) (f : ℕ → ℕ) (occ : ℕ → List ℕ) (d : ℕ) (l : List ℕ)
    → All (IsListed start f d) l
    → ((e : ℕ) → e < max_divisions → All (IsListed start f e) (occ e))
    → (e : ℕ) → e < max_divisions
    → All (IsListed start f e) (update occ d l e)
IsListed-update start f occ d l new listed e he = elim (Bool-cases (e == d)) [
  | inl same ↦ let at : e ≡ d = ground arith in rw (same, at) new
  | inr other ↦ rw other (listed e he)
]

-- What a change of the free lists leaves alone.
pub record Keeps (b b' : Buddy) : Type 0 where
  pub start : b'.start ≡ b.start
  pub mem_size : b'.mem_size ≡ b.mem_size
  pub largest : b'.largest ≡ b.largest
  pub mem_used : b'.mem_used ≡ b.mem_used

-- `addToList` of a block whose bytes are not free.
pub record Added (d p : ℕ) (b b' : Buddy) : Type 0 where
  pub valid : IsValid b'
  pub keeps : Keeps b b'
  pub covered : (x : ℕ) → covers b' x ≡ covers b x + in_range p (2 ^ d) x
  pub kept :
      (q : ℕ) → covers b q ≡ 0 → in_range p (2 ^ d) q ≡ 0 → b'.division_at q ≡ b.division_at q

pub add_to_list-covered :
    (d p : ℕ) (b : Buddy) (x : ℕ)
    → d < max_divisions
    → covers (add_to_list d p b) x ≡ covers b x + in_range p (2 ^ d) x
unfolding add_to_list
add_to_list-covered d p b x hd =
    omega (arith, cover-update max_divisions d b.occupied (p ∷ b.occupied d) x hd)

pub add_to_list-Added :
    (d p : ℕ) (b : Buddy)
    → d ≤ b.largest
    → IsAligned b.start d p
    → ((x : ℕ) → in_range p (2 ^ d) x + covers b x ≤ in_arena b x)
    → IsValid b
    → Added d p b (add_to_list d p b)
unfolding add_to_list
add_to_list-Added d p b hd al room v =
    let small : d < max_divisions = omega (arith, v.few) in
    let once : (x : ℕ) → in_range p (2 ^ d) x + covers b x ≤ 1 =
      λ x. omega (arith, room x, in_range-le b.start (2 ^ b.largest) x) in
    let old = IsListed-write_all b p (2 ^ d) d (pow_pos d) once v.listed in
    record {
      valid = record {
        few = v.few;
        listed =
            IsListed-update b.start (update b.division_at p d) b.occupied d (p ∷ b.occupied d)
              (record { aligned = al; tagged = ground arith }, old d small) old;
        inside = λ x. omega (arith, add_to_list-covered d p b x small, room x);
      };
      keeps = record { start = refl; mem_size = refl; largest = refl; mem_used = refl };
      covered = λ x. add_to_list-covered d p b x small;
      kept = λ q free out. ground (arith, pow_pos d);
    }

-- Taking a block off the list of its division.
pub record Taken (d p : ℕ) (b b' : Buddy) : Type 0 where
  pub valid : IsValid b'
  pub keeps : Keeps b b'
  pub covered : (x : ℕ) → covers b x ≡ covers b' x + in_range p (2 ^ d) x
  pub aligned : IsAligned b.start d p
  pub tagged : b'.division_at p ≡ d
  pub kept : (q : ℕ) → covers b q ≡ 0 → b'.division_at q ≡ b.division_at q

pub unlist-Taken :
    (d p : ℕ) (b : Buddy) (rest : List ℕ)
    → d ≤ b.largest
    → IsValid b
    → IsListed b.start b.division_at d p
    → All (IsListed b.start b.division_at d) rest
    → ((x : ℕ)
        → cover_list (2 ^ d) (b.occupied d) x ≡ cover_list (2 ^ d) rest x + in_range p (2 ^ d) x)
    → Taken d p b (record b { occupied = update b.occupied d rest })
unlist-Taken d p b rest hd v hp hr e =
    let small : d < max_divisions = omega (arith, v.few) in
    let covered : (x : ℕ)
        → covers b x ≡ cover max_divisions (update b.occupied d rest) x + in_range p (2 ^ d) x =
      λ x. omega (arith, cover-update max_divisions d b.occupied rest x small, e x) in
    record {
      valid = record {
        few = v.few;
        listed = IsListed-update b.start b.division_at b.occupied d rest hr v.listed;
        inside = λ x. omega (arith, covered x, v.inside x);
      };
      keeps = record { start = refl; mem_size = refl; largest = refl; mem_used = refl };
      covered = covered;
      aligned = hp.aligned;
      tagged = hp.tagged;
      kept = λ q out. refl;
    }

-- `removeLast`: nothing on an empty list, else one block less.
abbrev pub Removed : (ℕ → Type 0) → ℕ → List ℕ → Option (ℕ × List ℕ) → Type 0
Removed P s l none = l ≡ []
Removed P s l (some (p, rest)) =
    P p × All P rest × ((x : ℕ) → cover_list s l x ≡ cover_list s rest x + in_range p s x)

Removed-cons :
    (P : ℕ → Type 0) (s p q : ℕ) (ps : List ℕ) (r : Option (ℕ × List ℕ))
    → P p
    → Removed P s (q ∷ ps) r
    → Removed P s (p ∷ q ∷ ps) (elim r [ none ↦ none | some (l, rest) ↦ some (l, p ∷ rest) ])
Removed-cons P s p q ps none hp h = absurd (cc)
Removed-cons P s p q ps (some (l, rest)) hp h = (h.0, (hp, h.1), λ x. omega (arith, h.2 x))

pub remove_last-Removed :
    (P : ℕ → Type 0) (s : ℕ) (l : List ℕ) → All P l → Removed P s l (remove_last l)
unfolding remove_last
remove_last-Removed P s [] h = refl
remove_last-Removed P s (p ∷ []) h = (h.0, tt, λ x. omega arith)
remove_last-Removed P s (p ∷ q ∷ ps) h =
    Removed-cons P s p q ps (remove_last (q ∷ ps)) h.0 (remove_last-Removed P s (q ∷ ps) h.1)

-- `findAndRemove`: no node in the pair, or one less.
abbrev pub Found : (ℕ → Type 0) → (s from size : ℕ) → List ℕ → Option (List ℕ) → Type 0
Found P s from size l none = Unit
Found P s from size l (some rest) =
    (q : ℕ) × P q
    × All P rest
    × (from ≤ q)
    × (q < from + size)
    × ((x : ℕ) → cover_list s l x ≡ cover_list s rest x + in_range q s x)

Found-cons :
    (P : ℕ → Type 0) (s from size p : ℕ) (ps : List ℕ) (r : Option (List ℕ))
    → P p
    → Found P s from size ps r
    → Found P s from size (p ∷ ps) (elim r [ none ↦ none | some qs ↦ some (p ∷ qs) ])
Found-cons P s from size p ps none hp h = tt
Found-cons P s from size p ps (some rest) hp h =
    (h.0, h.1, (hp, h.2), h.3, h.4, λ x. omega (arith, h.5 x))

pub find_and_remove-Found :
    (P : ℕ → Type 0) (s from size : ℕ) (l : List ℕ)
    → All P l
    → Found P s from size l (find_and_remove from size l)
unfolding find_and_remove
find_and_remove-Found P s from size [] h = tt
find_and_remove-Found P s from size (p ∷ ps) h =
    elim (Bool-cases (leb from p && ltb p (from + size))) [
      | inl hit ↦ rw hit (p, h.0, h.1, ground arith, ground arith, λ x. omega arith)
      | inr miss ↦ rw miss (
          Found-cons P s from size p ps (find_and_remove from size ps) h.0
            (find_and_remove-Found P s from size ps h.1))
    ]
