-- ===== src/Buddy/Cover.antt =====
-- Which bytes the free lists hold.
use bizcocho_os.Prelude.{
  ℕ, zero, suc, ◌+◌, ◌^◌, ◌≤◌, ◌<◌, ◌≡◌, refl, inl, inr, ◌&&◌, List, [], ◌∷◌, arith, ltb, leb, ◌==◌,
  if◌then◌else◌, update, Bool-cases,
}

-- 1 if the byte at `x` is one of the `s` bytes from `p` on, else 0.
abbrev pub in_range : (p s x : ℕ) → ℕ
in_range p s x = if leb p x && ltb x (p + s) then 1 else 0

-- How many of the blocks of size `s` at `ps` hold the byte at `x`.
abbrev pub cover_list : ℕ → List ℕ → ℕ → ℕ
cover_list s [] x = 0
cover_list s (p ∷ ps) x = in_range p s x + cover_list s ps x

-- The same for the lists of the divisions below `n`.
pub cover : ℕ → (ℕ → List ℕ) → ℕ → ℕ
cover zero occ x = 0
cover (suc n) occ x = cover_list (2 ^ n) (occ n) x + cover n occ x

cover-update_above :
    (n d : ℕ) (occ : ℕ → List ℕ) (l : List ℕ) (x : ℕ)
    → n ≤ d
    → cover n (update occ d l) x ≡ cover n occ x
unfolding cover
cover-update_above zero d occ l x h = refl
cover-update_above (suc n) d occ l x h = ground (arith, cover-update_above n d occ l x)

-- A change of one list changes the cover by that list's.
pub cover-update :
    (n d : ℕ) (occ : ℕ → List ℕ) (l : List ℕ) (x : ℕ)
    → d < n
    → cover n (update occ d l) x + cover_list (2 ^ d) (occ d) x
      ≡ cover n occ x + cover_list (2 ^ d) l x
unfolding cover
cover-update zero d occ l x h = absurd (omega arith)
cover-update (suc n) d occ l x h = elim (Bool-cases (n == d)) [
  | inl same ↦
      let e : n ≡ d = ground arith in rw (same, e) (omega (arith, cover-update_above d d occ l x))
  | inr other ↦ rw other (omega (arith, cover-update n d occ l x (ground arith)))
]

pub cover_list-le-cover :
    (n d : ℕ) (occ : ℕ → List ℕ) (x : ℕ) → d < n → cover_list (2 ^ d) (occ d) x ≤ cover n occ x
unfolding cover
cover_list-le-cover zero d occ x h = absurd (omega arith)
cover_list-le-cover (suc n) d occ x h = elim (Bool-cases (n == d)) [
  | inl same ↦ let e : n ≡ d = ground arith in rw e (omega arith)
  | inr other ↦ omega (arith, cover_list-le-cover n d occ x (ground arith))
]

pub in_range-le : (p s x : ℕ) → in_range p s x ≤ 1
in_range-le p s x = ground arith

pub cover_empty : (n x : ℕ) → cover n (λ _. []) x ≡ 0
unfolding cover
cover_empty zero x = refl
cover_empty (suc n) x = omega (arith, cover_empty n x)
