-- ===== src/Text/Digits.antt =====
-- The digits that `convert` and `ulongToStr` write.
use mathlib.Core.List.{append_assoc}
use bizcocho_os.Prelude.{
  ℕ, zero, suc, ◌/◌, ◌%◌, ◌≡◌, refl, sym, ◌∙◌, List, [], ◌∷◌, ◌++◌, ◌==◌, if◌then◌else◌, inl, inr,
  Bool-cases,
}
use bizcocho_os.Text.{representation, digits_from}

-- The digits of a number, the first first.
unfoldable pub digits : ℕ → ℕ → ℕ → List ℕ
digits zero base num = []
digits (suc fuel) base num =
    let more = digits fuel base (num / base) in
    (if num / base == 0 then [] else more) ++ (representation (num % base) ∷ [])

pub digits_from-digits :
    (fuel base num : ℕ) (tail : List ℕ)
    → digits_from fuel base num tail ≡ digits fuel base num ++ tail
unfolding digits_from digits
digits_from-digits zero base num tail = refl
digits_from-digits (suc fuel) base num tail = elim (Bool-cases (num / base == 0)) [
  | inl last ↦ rw last
  | inr more ↦
      let written = representation (num % base) ∷ tail in
      rw more (
        digits_from-digits fuel base (num / base) written
        ∙ sym
            (append_assoc (digits fuel base (num / base)) (representation (num % base) ∷ []) tail))
]
