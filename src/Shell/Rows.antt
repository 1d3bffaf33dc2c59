-- ===== src/Shell/Rows.antt =====
-- C strings in the rows of tokens, and in the line that is typed.
use bizcocho_os.Prelude.{ℕ, ◌+◌, ◌<◌, ◌≡◌, ◌≢◌, ◌∙◌, List, [], ◌∷◌, ◌++◌, update, length, arith}
use bizcocho_os.Strings.{Bytes, IsString}

-- The memory holds the characters there, with no 0 behind them yet.
abbrev pub Holds : Bytes → ℕ → List ℕ → Type 0
Holds m p [] = Unit {0}
Holds m p (c ∷ cs) = (m p ≡ c) × (c ≢ 0) × Holds m (p + 1) cs

pub Holds-put :
    (m : Bytes) (p : ℕ) (w : List ℕ) (c a : ℕ)
    → a ≡ p + length w
    → c ≢ 0
    → Holds m p w
    → Holds (update m a c) p (w ++ (c ∷ []))
Holds-put m p [] c a e ne h = let self : update m a c p ≡ c = ground (arith, e) in (self, ne, tt)
Holds-put m p (x ∷ xs) c a e ne h =
    let other : update m a c p ≡ x = ground (arith, e, h.0) in
    (other, h.1, Holds-put m (p + 1) xs c a (omega (arith, e)) ne h.2)

pub IsString-end :
    (m : Bytes) (p : ℕ) (w : List ℕ) (a : ℕ)
    → a ≡ p + length w
    → Holds m p w
    → IsString (update m a 0) p w
IsString-end m p [] a e h = ground (arith, e)
IsString-end m p (x ∷ xs) a e h =
    let other : update m a 0 p ≡ x = ground (arith, e, h.0) in
    (other, h.1, IsString-end m (p + 1) xs a (omega (arith, e)) h.2)

pub IsString-kept :
    (m m' : Bytes) (p q : ℕ) (w : List ℕ)
    → ((a : ℕ) → a < q → m' a ≡ m a)
    → p + length w < q
    → IsString m p w
    → IsString m' p w
IsString-kept m m' p q [] same h s = same p (omega (arith, h)) ∙ s
IsString-kept m m' p q (x ∷ xs) same h s = (
  same p (omega (arith, h)) ∙ s.0,
  s.1,
  IsString-kept m m' (p + 1) q xs same (omega (arith, h)) s.2,
)
