-- ===== src/Text/Reading.antt =====
-- What `strToNum` and `xtou64` read of the numbers that `convert` and `ulongToStr` write.
use mathlib.Core.List.{append-nil}
use bizcocho_os.Prelude.{
  ℕ, zero, suc, ◌+◌, ◌-◌, ◌*◌, ◌/◌, ◌%◌, ◌^◌, ◌≤◌, ◌<◌, ◌≡◌, refl, ap, ◌∙◌, true, Option, none,
  some, List, [], ◌∷◌, ◌++◌, arith, ◌==◌, length, inl, inr, Bool-cases, pow_step,
}
use bizcocho_os.Text.{
  representation, digits_from, fill_zeros, convert, is_digit, read_digits, str_to_num,
}
use bizcocho_os.Text.Digits.{digits, digits_from-digits}

abbrev or_stop : Option ℕ → List ℕ → Option ℕ
or_stop none cs = none
or_stop (some a) cs = read_digits a cs

read_digits-append :
    (a : ℕ) (xs ys : List ℕ) → read_digits a (xs ++ ys) ≡ or_stop (read_digits a xs) ys
unfolding read_digits
read_digits-append a [] ys = refl
read_digits-append a (x ∷ xs) ys = elim (Bool-cases (is_digit x)) [
  | inl yes_it ↦ rw yes_it (read_digits-append ((a * 10 + (x - 48)) % 2 ^ 32) xs ys)
  | inr other ↦ rw other
]

-- One digit more.
read_digits-representation :
    (a d : ℕ) → d < 10 → read_digits a (representation d ∷ []) ≡ some ((a * 10 + d) % 2 ^ 32)
unfolding read_digits
read_digits-representation a d h = ground arith

last_digit :
    (fuel num : ℕ)
    → (num / 10 == 0) ≡ true
    → num < 2 ^ 32
    → read_digits 0 (digits (suc fuel) 10 num) ≡ some num
unfolding digits
last_digit fuel num last small =
    rw last (read_digits-representation 0 (num % 10) (omega arith) ∙ ap some (ground arith))

pub read_digits-digits :
    (fuel num : ℕ)
    → num < 2 ^ 32
    → num < 2 ^ (fuel + 1)
    → read_digits 0 (digits (suc fuel) 10 num) ≡ some num
unfolding digits
read_digits-digits zero num small h = last_digit 0 num (ground arith) small
read_digits-digits (suc n) num small h = elim (Bool-cases (num / 10 == 0)) [
  | inl last ↦ last_digit (suc n) num last small
  | inr more ↦
      let ih =
        read_digits-digits n (num / 10) (omega arith)
          (omega (arith, pow_step (suc n), pow_step n, h)) in
      rw
        (
          more,
          read_digits-append 0 (digits (suc n) 10 (num / 10)) (representation (num % 10) ∷ []),
          ih,
        )
        (read_digits-representation (num / 10) (num % 10) (omega arith) ∙ ap some (omega arith))
]

read_digits-fill_zeros :
    (n a : ℕ) (cs : List ℕ) → read_digits 0 cs ≡ some a → read_digits 0 (fill_zeros n cs) ≡ some a
unfolding fill_zeros
read_digits-fill_zeros zero a cs e = e
read_digits-fill_zeros (suc n) a cs e =
    read_digits-fill_zeros n a (48 ∷ cs) (unfold read_digits in e)

-- A string of digits has no sign.
pub str_to_num-read_digits : (cs : List ℕ) (a : ℕ) → read_digits 0 cs ≡ some a → str_to_num cs ≡ a
unfolding str_to_num read_digits
str_to_num-read_digits [] a e = ground (arith, e)
str_to_num-read_digits (c ∷ cs) a e = ground (arith, e)

pub length-fill_zeros : (n : ℕ) (cs : List ℕ) → length (fill_zeros n cs) ≡ n + length cs
unfolding fill_zeros
length-fill_zeros zero cs = omega arith
length-fill_zeros (suc n) cs = omega (arith, length-fill_zeros n (representation 0 ∷ cs))

pub read_digits-convert :
    (num min_digit_count : ℕ)
    → num < 2 ^ 32
    → read_digits 0 (convert num 10 min_digit_count) ≡ some num
unfolding convert
read_digits-convert num min small =
    let cs = digits_from 32 10 num [] in
    let same : cs ≡ digits 32 10 num =
      digits_from-digits 32 10 num [] ∙ append-nil (digits 32 10 num) in
    read_digits-fill_zeros (min - length cs) num cs
      (ap (read_digits 0) same ∙ read_digits-digits 31 num small (omega (arith, small)))

-- The decimal digits that `convert` writes are read back by `strToNum`, with any zeros in front that its
-- buffer of 49 has place for; and there are at least as many digits as were asked for.
pub str_to_num-convert :
    (num min_digit_count : ℕ)
    → num < 2 ^ 32
    → min_digit_count ≤ 49
    → (str_to_num (convert num 10 min_digit_count) ≡ num)
      × (min_digit_count ≤ length (convert num 10 min_digit_count))
unfolding convert
str_to_num-convert num min small fits =
    let cs = digits_from 32 10 num [] in
    (
      str_to_num-read_digits (convert num 10 min) num (read_digits-convert num min small),
      omega (arith, length-fill_zeros (min - length cs) cs),
    )
