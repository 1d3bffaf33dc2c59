-- ===== src/Strings/Prefix.antt =====
-- What `strPrefix` finds.
use bizcocho_os.Prelude.{
  ℕ, ◌≡◌, ◌≢◌, refl, ap, List, [], ◌∷◌, ◌++◌, arith, ◌==◌, inl, inr, Bool-cases,
}
use bizcocho_os.Strings.{skip_spaces, Match, found, too_short, differs, match_from, str_prefix}

-- The texts of which the prefix is longer, and those that differ from it.
pub data TooShort : List ℕ → List ℕ → Type 0 where
  ends : (p : ℕ) (ps : List ℕ) → TooShort (p ∷ ps) []
  same : (p : ℕ) {ps cs : List ℕ} → TooShort ps cs → TooShort (p ∷ ps) (p ∷ cs)

-- What the answer says of a text without its spaces in front.
abbrev pub Says : List ℕ → List ℕ → Match → Type 0
Says ps cs (found rest) = cs ≡ ps ++ rest
Says ps cs too_short = TooShort ps cs
Says ps cs differs = (rest : List ℕ) → cs ≢ ps ++ rest

match_from-Says : (ps cs : List ℕ) → Says ps cs (match_from ps cs)
unfolding match_from
match_from-Says [] cs = refl
match_from-Says (p ∷ ps) [] = ends p ps
match_from-Says (p ∷ ps) (c ∷ cs) = elim (Bool-cases (p == c)) [
  | inr other ↦ rw other (λ rest e. absurd (ground (arith, other, e)))
  | inl hit ↦
      let at : c ≡ p = ground arith in
      rw (hit, at) (step (match_from ps cs) (match_from-Says ps cs))
]
  where
    step : (r : Match) → Says ps cs r → Says (p ∷ ps) (p ∷ cs) r
    step (found rest) s = ap (λ (l : List ℕ). p ∷ l) s
    step too_short s = same p s
    step differs s = λ rest e. s rest (cc)

-- `strPrefix`: the text behind its leading spaces is the prefix and the rest where it returns 1; else
-- the prefix does not stand there, and `*afterPrefix` is cleared only where the text ends inside the prefix.
pub str_prefix-Says : (prefix str : List ℕ) → Says prefix (skip_spaces str) (str_prefix prefix str)
unfolding str_prefix
str_prefix-Says prefix str = match_from-Says prefix (skip_spaces str)
