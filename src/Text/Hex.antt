-- ===== src/Text/Hex.antt =====
-- What `xtou64` reads of the hexadecimal numbers that `convert` writes.
use mathlib.Core.List.{append-nil}
use bizcocho_os.Prelude.{
  ℕ, zero, suc, ◌+◌, ◌-◌, ◌*◌, ◌/◌, ◌%◌, ◌^◌, ◌≤◌, ◌<◌, ◌≡◌, refl, ap, ◌∙◌, Bool, true, false, some,
  List, [], ◌∷◌, ◌++◌, arith, ltb, ◌==◌, length, inl, inr, Bool-cases, Option-cases, length-append,
  pow_step, pow-add_one,
}
use bizcocho_os.Text.{representation, digits_from, fill_zeros, convert, hex_value, read_hex, xtou64}
use bizcocho_os.Text.Digits.{digits, digits_from-digits}
use bizcocho_os.Text.Reading.{length-fill_zeros}

abbrev pub or_bad : Bool × ℕ → List ℕ → Bool × ℕ
or_bad (true, a) cs = (true, a)
or_bad (false, a) cs = read_hex a cs

pub read_hex-append : (a : ℕ) (xs ys : List ℕ) → read_hex a (xs ++ ys) ≡ or_bad (read_hex a xs) ys
unfolding read_hex
read_hex-append a [] ys = refl
read_hex-append a (x ∷ xs) ys = elim (Option-cases (hex_value x)) [
  | inl bad ↦ rw (bad, read_hex)
  | inr (d, e) ↦ rw (e, read_hex) (read_hex-append ((a * 16 % 2 ^ 64 + d) % 2 ^ 64) xs ys)
]

hex_value-representation : (d : ℕ) → d < 16 → hex_value (representation d) ≡ some d
unfolding hex_value
hex_value-representation d h = ground arith

read_hex-representation :
    (a d : ℕ)
    → d < 16
    → read_hex a (representation d ∷ []) ≡ (false, (a * 16 % 2 ^ 64 + d) % 2 ^ 64)
unfolding read_hex
read_hex-representation a d h = rw (hex_value-representation d h, read_hex)

last_digit :
    (fuel num : ℕ)
    → (num / 16 == 0) ≡ true
    → num < 2 ^ 32
    → (read_hex 0 (digits (suc fuel) 16 num) ≡ (false, num))
      × (length (digits (suc fuel) 16 num) ≡ 1)
unfolding digits
last_digit fuel num last small = (
  rw last (
      read_hex-representation 0 (num % 16) (omega arith)
      ∙ ap (λ (x : ℕ). (false, x)) (ground arith)),
  rw last,
)

read_hex-digits :
    (fuel num : ℕ)
    → num < 2 ^ 32
    → num < 2 ^ (fuel + 1)
    → read_hex 0 (digits (suc fuel) 16 num) ≡ (false, num)
unfolding digits
read_hex-digits zero num small h = (last_digit 0 num (ground arith) small).0
read_hex-digits (suc n) num small h = elim (Bool-cases (num / 16 == 0)) [
  | inl last ↦ (last_digit (suc n) num last small).0
  | inr more ↦
      let ih =
        read_hex-digits n (num / 16) (omega arith)
          (omega (arith, pow_step (suc n), pow_step n, h)) in
      rw
        (
          more,
          read_hex-append 0 (digits (suc n) 16 (num / 16)) (representation (num % 16) ∷ []),
          ih,
        )
        (read_hex-representation (num / 16) (num % 16) (omega arith)
          ∙ ap (λ (x : ℕ). (false, x)) (omega arith))
]

-- Fewer digits than `k` where the number is below 16^k.
length-digits : (fuel k num : ℕ) → num < 16 ^ (k + 1) → length (digits fuel 16 num) ≤ k + 1
unfolding digits
length-digits zero k num h = omega arith
length-digits (suc fuel) zero num h =
    let last : (num / 16 == 0) ≡ true = ground arith in rw last (omega arith)
length-digits (suc fuel) (suc k) num h = elim (Bool-cases (num / 16 == 0)) [
  | inl last ↦ rw last (omega arith)
  | inr more ↦
      let ih =
        length-digits fuel k (num / 16)
          (omega (arith, h, pow-add_one 16 (suc k), pow-add_one 16 k)) in
      rw (more, length-append (digits fuel 16 (num / 16)) (representation (num % 16) ∷ []))
        (omega (arith, ih))
]

read_hex-fill_zeros :
    (n a : ℕ) (cs : List ℕ) → read_hex 0 cs ≡ (false, a) → read_hex 0 (fill_zeros n cs) ≡ (false, a)
unfolding fill_zeros
read_hex-fill_zeros zero a cs e = e
read_hex-fill_zeros (suc n) a cs e = read_hex-fill_zeros n a (48 ∷ cs) (zero_first cs e)
  where
    zero_first : (ds : List ℕ) → read_hex 0 ds ≡ (false, a) → read_hex 0 (48 ∷ ds) ≡ (false, a)
    zero_first ds f =
        read_hex-append 0 (48 ∷ []) ds ∙ rw (read_hex-representation 0 0 (omega arith)) f

-- The digits as a number, and how many there are where eight are asked for.
pub read_hex-convert :
    (num min_digit_count : ℕ)
    → num < 2 ^ 32
    → read_hex 0 (convert num 16 min_digit_count) ≡ (false, num)
unfolding convert
read_hex-convert num min small =
    let cs = digits_from 32 16 num [] in
    let same : cs ≡ digits 32 16 num =
      digits_from-digits 32 16 num [] ∙ append-nil (digits 32 16 num) in
    read_hex-fill_zeros (min - length cs) num cs
      (ap (read_hex 0) same ∙ read_hex-digits 31 num small (omega (arith, small)))

pub length-convert_hex : (num : ℕ) → num < 2 ^ 32 → length (convert num 16 8) ≡ 8
unfolding convert
length-convert_hex num small =
    let cs = digits_from 32 16 num [] in
    let same : cs ≡ digits 32 16 num =
      digits_from-digits 32 16 num [] ∙ append-nil (digits 32 16 num) in
    let short : length (digits 32 16 num) ≤ 8 = length-digits 32 7 num (omega (arith, small)) in
    omega (arith, length-fill_zeros (8 - length cs) cs, ap (λ (l : List ℕ). length l) same, short)

-- A number that is read on top of another one.
abbrev pub scale : ℕ → ℕ → ℕ
scale t zero = t
scale t (suc n) = scale (16 * t) n

pub read_hex-scale :
    (cs : List ℕ) (x t v : ℕ)
    → read_hex x cs ≡ (false, v)
    → read_hex ((x + t) % 2 ^ 64) cs ≡ (false, (v + scale t (length cs)) % 2 ^ 64)
unfolding read_hex
read_hex-scale [] x t v e =
    let same : x ≡ v = ap (λ (r : Bool × ℕ). r.1) e in
    ap (λ (n : ℕ). (false, (n + t) % 2 ^ 64)) same
read_hex-scale (c ∷ cs) x t v e = elim (Option-cases (hex_value c)) [
  | inl bad ↦
      let clash : true ≡ false = ap (λ (r : Bool × ℕ). r.0) (rw (bad, read_hex) at e) in absurd (cc)
  | inr (d, h) ↦
      let x' = (x * 16 % 2 ^ 64 + d) % 2 ^ 64 in
      let ih = read_hex-scale cs x' (16 * t) v (rw (h, read_hex) at e) in
      let start : ((x + t) % 2 ^ 64 * 16 % 2 ^ 64 + d) % 2 ^ 64 ≡ (x' + 16 * t) % 2 ^ 64 =
        omega arith in
      rw (h, read_hex) (ap (λ (a : ℕ). read_hex a cs) start ∙ ih)
]

ltb_of_le : (a b : ℕ) → b ≤ a → ltb a b ≡ false
ltb_of_le a b h = ground arith

-- The hexadecimal digits that `convert` writes, 16 at most, are read back by `xtou64`.
pub xtou64-convert :
    (num min_digit_count : ℕ)
    → num < 2 ^ 32
    → min_digit_count ≤ 16
    → xtou64 (convert num 16 min_digit_count) ≡ (false, num)
unfolding convert xtou64
xtou64-convert num min small few =
    let cs = digits_from 32 16 num [] in
    let n = min - length cs in
    let same : cs ≡ digits 32 16 num =
      digits_from-digits 32 16 num [] ∙ append-nil (digits 32 16 num) in
    let read = read_hex-digits 31 num small (omega (arith, small)) in
    let short : length (digits 32 16 num) ≤ 16 = length-digits 32 15 num (omega (arith, small)) in
    let fits : length (fill_zeros n cs) ≤ 16 =
      omega (arith, length-fill_zeros n cs, ap (λ (l : List ℕ). length l) same, short, few) in
    let end = ltb_of_le 16 (length (fill_zeros n cs)) fits in
    rw (read_hex-fill_zeros n num cs (ap (read_hex 0) same ∙ read), end)
