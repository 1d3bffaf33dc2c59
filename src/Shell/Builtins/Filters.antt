-- ===== src/Shell/Builtins/Filters.antt =====
-- What `cat`, `wc` and `filter` make of an input that ends.
use bizcocho_os.Prelude.{
  ℕ, ◌+◌, ◌%◌, ◌^◌, ◌<◌, ◌≡◌, ◌≢◌, refl, ap, ◌∙◌, false, some, List, [], ◌∷◌, ◌++◌, ◌==◌,
  if◌then◌else◌, All, Bool-cases, inl, inr, arith,
}
use bizcocho_os.Shell.Builtins.{cat, wc, is_vowel, filter}

abbrev pub newlines : List ℕ → ℕ
newlines [] = 0
newlines (c ∷ cs) = (if c == b'\n' then 1 else 0) + newlines cs

abbrev pub without_vowels : List ℕ → List ℕ
without_vowels [] = []
without_vowels (c ∷ cs) = let rest = without_vowels cs in if is_vowel c then rest else c ∷ rest

-- The text, the end of the file, and what may be typed behind it.
abbrev pub ended : List ℕ → List ℕ → List ℕ
ended cs rest = cs ++ (0 ∷ rest)

cat-ended :
    (cs rest : List ℕ) → All (λ (c : ℕ). c ≢ 0) cs → cat (ended cs rest) ≡ some (cs ++ (0 ∷ []))
unfolding cat
cat-ended [] rest t = refl
cat-ended (c ∷ cs) rest t =
    let letter : (c == 0) ≡ false = ground (arith, t.0) in rw (letter, cat-ended cs rest t.1) refl

wc-ended :
    (n : ℕ) (cs rest : List ℕ)
    → All (λ (c : ℕ). c ≢ 0) cs
    → n < 2 ^ 16
    → wc n (ended cs rest) ≡ some ((n + newlines cs) % 2 ^ 16)
unfolding wc
wc-ended n [] rest t small = ap some (omega (arith, small))
wc-ended n (c ∷ cs) rest t small =
    let letter : (c == 0) ≡ false = ground (arith, t.0) in
    elim (Bool-cases (c == b'\n')) [
      | inl line ↦
          rw (letter, line)
            (wc-ended ((n + 1) % 2 ^ 16) cs rest t.1 (omega arith) ∙ ap some (omega arith))
      | inr other ↦ rw (letter, other) (wc-ended n cs rest t.1 small ∙ ap some (omega arith))
    ]

filter-ended :
    (cs rest : List ℕ)
    → All (λ (c : ℕ). c ≢ 0) cs
    → filter (ended cs rest) ≡ some (without_vowels cs ++ (0 ∷ []))
unfolding filter
filter-ended [] rest t = refl
filter-ended (c ∷ cs) rest t =
    let letter : (c == 0) ≡ false = ground (arith, t.0) in
    elim (Bool-cases (is_vowel c)) [
      | inl vowel ↦ rw (letter, filter-ended cs rest t.1, vowel) refl
      | inr other ↦ rw (letter, filter-ended cs rest t.1, other) refl
    ]

-- On a text with no 0, the 0 at the end of a file, and anything behind it: `cat` prints the text and the 0; `wc`
-- counts the newlines of the text in 16 bits; `filter` prints the text without its vowels, and the 0. None
-- reads on.
pub filters-ended :
    (cs rest : List ℕ)
    → All (λ (c : ℕ). c ≢ 0) cs
    → (cat (ended cs rest) ≡ some (cs ++ (0 ∷ [])))
      × (wc 0 (ended cs rest) ≡ some (newlines cs % 2 ^ 16))
      × (filter (ended cs rest) ≡ some (without_vowels cs ++ (0 ∷ [])))
filters-ended cs rest t = (
  cat-ended cs rest t,
  wc-ended 0 cs rest t (omega arith) ∙ ap some (omega arith),
  filter-ended cs rest t,
)
