-- ===== src/Text/Long.antt =====
-- What `ulongToStr` writes.
use bizcocho_os.Prelude.{
  ℕ, zero, suc, ◌+◌, ◌/◌, ◌%◌, ◌^◌, ◌≤◌, ◌<◌, ◌≡◌, sym, ap, ◌∙◌, true, false, List, [], ◌∷◌, ◌++◌,
  arith, ◌==◌, if◌then◌else◌, length, inl, inr, Bool-cases, pow-add_one,
}
use mathlib.Core.List.{append_assoc, append-nil}
use bizcocho_os.Text.{representation, low_digits, reverse_onto, ulong_to_str}
use bizcocho_os.Text.Digits.{digits}

length-low_digits : (fuel k num : ℕ) → num < 10 ^ k → length (low_digits fuel num) ≤ k
unfolding low_digits
length-low_digits zero k num h = omega arith
length-low_digits (suc fuel) zero num h =
    let end : (num == 0) ≡ true = ground arith in rw end (omega arith)
length-low_digits (suc fuel) (suc k) num h = elim (Bool-cases (num == 0)) [
  | inl end ↦ rw end (omega arith)
  | inr more ↦
      let ih = length-low_digits fuel k (num / 10) (omega (arith, h, pow-add_one 10 k)) in
      rw more (omega (arith, ih))
]

decimal : (d : ℕ) → d < 10 → d + 48 ≡ representation d
decimal d h = ground arith

reverse_onto-low_digits :
    (fuel num : ℕ) (tail : List ℕ)
    → (num == 0) ≡ false
    → reverse_onto (low_digits (suc fuel) num) tail ≡ digits (suc fuel) 10 num ++ tail
unfolding low_digits digits
reverse_onto-low_digits zero num tail more =
    rw (more, decimal (num % 10) (omega arith)) (ground arith)
reverse_onto-low_digits (suc n) num tail more = elim (Bool-cases (num / 10 == 0)) [
  | inl last ↦ rw (more, last, decimal (num % 10) (omega arith))
  | inr left ↦
      rw (more, left, decimal (num % 10) (omega arith))
        ((rw left at (reverse_onto-low_digits n (num / 10) (representation (num % 10) ∷ tail) left))
          ∙ sym (append_assoc (digits (suc n) 10 (num / 10)) (representation (num % 10) ∷ []) tail))
]

low_digits-zero : (fuel num : ℕ) → (num == 0) ≡ true → low_digits (suc fuel) num ≡ []
unfolding low_digits
low_digits-zero fuel num none_left = rw none_left

ulong_to_str-digits :
    (num : ℕ) → num < 2 ^ 64 → ulong_to_str num ≡ (if num == 0 then [] else digits 64 10 num)
unfolding ulong_to_str
ulong_to_str-digits num small = elim (Bool-cases (num == 0)) [
  | inl none_left ↦
      rw none_left (ap (λ (l : List ℕ). reverse_onto l []) (low_digits-zero 63 num none_left))
  | inr more ↦ rw more (reverse_onto-low_digits 63 num [] more ∙ append-nil (digits 64 10 num))
]

-- `ulongToStr` of a number of 64 bits writes its decimal digits, the first first, but nothing for 0; and
-- `aux`, with place for 20 characters, is enough.
pub ulong_to_str_lem :
    (num : ℕ)
    → num < 2 ^ 64
    → (ulong_to_str num ≡ (if num == 0 then [] else digits 64 10 num))
      × (length (low_digits 64 num) ≤ 20)
ulong_to_str_lem num small =
    (ulong_to_str-digits num small, length-low_digits 64 20 num (omega (arith, small)))
