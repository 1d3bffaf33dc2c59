-- ===== src/Strings/Backspaces.antt =====
-- `removeBackspaces` as typing on a line.
use mathlib.Core.Path.{subst}
use bizcocho_os.Prelude.{
  ℕ, zero, suc, ◌+◌, ◌-◌, ◌≤◌, ◌<◌, ◌≡◌, ◌≢◌, refl, false, Option, none, some, List, [], ◌∷◌, arith,
  ◌==◌, if◌then◌else◌, inl, inr, Bool-cases, length, update, update_self,
}
use bizcocho_os.Text.{reverse_onto}
use bizcocho_os.Strings.{Bytes, IsString, backspace, backspace_loop, remove_backspaces}

abbrev but_first : List ℕ → List ℕ
but_first [] = []
but_first (x ∷ xs) = xs

-- What is on the line when the text is typed, the last character first.
abbrev pub typed : List ℕ → List ℕ → List ℕ
typed line [] = line
typed line (c ∷ cs) = typed (if c == backspace then but_first line else c ∷ line) cs

-- The line stands from `str` on.
abbrev Holds : Bytes → ℕ → List ℕ → Type 0
Holds m str [] = Unit
Holds m str (c ∷ line) = (m (str + length line) ≡ c) × (c ≢ 0) × Holds m str line

Holds-update :
    (m : Bytes) (str i c : ℕ) (line : List ℕ)
    → length line ≤ i
    → Holds m str line
    → Holds (update m (str + i) c) str line
Holds-update m str i c [] h l = tt
Holds-update m str i c (d ∷ line) h l =
    let other : (str + length line == str + i) ≡ false = ground (arith, h) in
    (rw other l.0, l.1, Holds-update m str i c line (omega arith) l.2)

IsString-update :
    (m : Bytes) (p a c : ℕ) (cs : List ℕ) → a < p → IsString m p cs → IsString (update m a c) p cs
IsString-update m p a c [] h s = let other : (p == a) ≡ false = ground arith in rw other s
IsString-update m p a c (d ∷ cs) h s =
    let other : (p == a) ≡ false = ground arith in
    (rw other s.0, s.1, IsString-update m (p + 1) a c cs (omega arith) s.2)

IsString-reverse_onto :
    (m : Bytes) (str : ℕ) (line cs : List ℕ)
    → Holds m str line
    → IsString m (str + length line) cs
    → IsString m str (reverse_onto line cs)
IsString-reverse_onto m str [] cs l s = subst (λ (p : ℕ). IsString m p cs) (omega arith) s
IsString-reverse_onto m str (c ∷ line) cs l s =
    IsString-reverse_onto m str line (c ∷ cs) l.2
      (l.0, l.1, subst (λ (p : ℕ). IsString m p cs) (omega arith) s)

fewer :
    (line : List ℕ) → length line - (if length line == 0 then 0 else 1) ≡ length (but_first line)
fewer [] = refl
fewer (c ∷ line) = ground arith

Holds-but_first :
    (m : Bytes) (str : ℕ) (line : List ℕ) → Holds m str line → Holds m str (but_first line)
Holds-but_first m str [] l = tt
Holds-but_first m str (c ∷ line) l = l.2

abbrev Leaves : ℕ → List ℕ → Option (ℕ × Bytes) → Type 0
Leaves str line none = ⊥
Leaves str line (some (i, m)) = (i ≡ length line) × Holds m str line

backspace_loop-Leaves :
    (fuel str j : ℕ) (cs line : List ℕ) (m : Bytes)
    → IsString m (str + j) cs
    → Holds m str line
    → length line ≤ j
    → length cs < fuel
    → Leaves str (typed line cs) (backspace_loop fuel str (length line) j m)
unfolding backspace_loop
backspace_loop-Leaves zero str j cs line m s l h lt = absurd (omega arith)
backspace_loop-Leaves (suc fuel) str j [] line m s l h lt = rw s (refl, l)
backspace_loop-Leaves (suc fuel) str j (c ∷ cs) line m s l h lt =
    let inside : (c == 0) ≡ false = ground (arith, s.1) in
    let further : IsString m (str + (j + 1)) cs =
      subst (λ (p : ℕ). IsString m p cs) (omega arith) s.2 in
    let place = str + length line in
    let longer : length line + 1 ≡ length (c ∷ line) = omega arith in
    rw (s.0, inside)
      (elim (Bool-cases (c == backspace)) [
        | inl back ↦
            rw (back, fewer line)
              (backspace_loop-Leaves fuel str (j + 1) cs (but_first line) m further
                (Holds-but_first m str line l) (omega (arith, fewer line)) (omega arith))
        | inr char ↦
            rw (char, longer)
              (backspace_loop-Leaves fuel str (j + 1) cs (c ∷ line) (update m place c)
                (IsString-update m (str + (j + 1)) place c cs (omega arith) further)
                (
                  update_self m place c,
                  s.1,
                  Holds-update m str (length line) c line (omega arith) l,
                )
                (omega arith) (omega arith))
      ])

-- What `removeBackspaces` leaves.
abbrev pub Erases : ℕ → List ℕ → Option (ℕ × Bytes) → Type 0
Erases str line none = ⊥
Erases str line (some (n, m)) = (n ≡ length line) × IsString m str (reverse_onto line [])

Leaves-Erases :
    (str : ℕ) (line : List ℕ) (r : Option (ℕ × Bytes))
    → Leaves str line r
    → Erases str line (elim r [ none ↦ none | some (i, m) ↦ some (i, update m (str + i) 0) ])
Leaves-Erases str line none l = l
Leaves-Erases str line (some (i, m)) (e, l) = (
  e,
  rw e (
      IsString-reverse_onto (update m (str + length line) 0) str line []
        (Holds-update m str (length line) 0 line (omega arith) l)
        (update_self m (str + length line) 0)),
)

-- `removeBackspaces` of a string, with more fuel than it has characters: it ends, and leaves in place
-- what is on a line when the text is typed, where a backspace takes away the last character if there
-- is one; it returns the length of that.
pub remove_backspaces-Erases :
    (fuel str : ℕ) (cs : List ℕ) (m : Bytes)
    → IsString m str cs
    → length cs < fuel
    → Erases str (typed [] cs) (remove_backspaces fuel str m)
unfolding remove_backspaces
remove_backspaces-Erases fuel str cs m s lt =
    Leaves-Erases str (typed [] cs) (backspace_loop fuel str 0 0 m) (
      backspace_loop-Leaves fuel str 0 cs [] m (subst (λ (p : ℕ). IsString m p cs) (omega arith) s)
        tt (omega arith) lt)
