-- ===== src/Text.antt =====
-- Numbers as text: `convert` of Kernel/c/lib/stringslib.c, which
-- Userland/SampleCodeModule/c/userlib.c has too, and `strToNum`, `ulongToStr` and `xtou64` of the
-- latter. A C string is the list of its characters less the 0 at its end.
pub mod Reading
pub mod Digits
pub mod Hex
pub mod Long
mod Tests
use bizcocho_os.Prelude.{
  ℕ, zero, suc, ◌+◌, ◌-◌, ◌*◌, ◌/◌, ◌%◌, ◌^◌, Bool, true, false, ◌&&◌, Option, none, some, List, [],
  ◌∷◌, ◌++◌, ltb, leb, ◌==◌, if◌then◌else◌, length,
}

-- `Representation[d]`
abbrev pub representation : ℕ → ℕ
representation d = if ltb d 10 then 48 + d else 55 + d

-- The `do` loop of `convert`, which writes from the end, in front of `tail`; 32 rounds are enough for 32 bits.
unfoldable pub digits_from : ℕ → ℕ → ℕ → List ℕ → List ℕ
digits_from zero base num tail = tail
digits_from (suc fuel) base num tail =
    let written = representation (num % base) ∷ tail in
    let rest = digits_from fuel base (num / base) written in
    if num / base == 0 then written else rest

-- The second loop: zeros in front.
unfoldable pub fill_zeros : ℕ → List ℕ → List ℕ
fill_zeros zero cs = cs
fill_zeros (suc n) cs = fill_zeros n (representation 0 ∷ cs)

-- `convert`, where the digits fit in its 49 characters.
unfoldable pub convert : ℕ → ℕ → ℕ → List ℕ
unfolding digits_from fill_zeros
convert num base min_digit_count =
    let cs = digits_from 32 base num [] in fill_zeros (min_digit_count - length cs) cs

abbrev pub is_digit : ℕ → Bool
is_digit c = leb b'0' c && leb c b'9'

-- The loop of `strToNum`; `none` is the return of -1. An `int` wraps.
unfoldable pub read_digits : ℕ → List ℕ → Option ℕ
read_digits ans [] = some ans
read_digits ans (c ∷ cs) =
    let rest = read_digits ((ans * 10 + (c - 48)) % 2 ^ 32) cs in if is_digit c then rest else none

-- The value that `strToNum` returns, as the bits of an `int`.
abbrev pub signed_result : Bool → Option ℕ → ℕ
signed_result neg none = 2 ^ 32 - 1
signed_result neg (some ans) = if neg then (2 ^ 32 - ans) % 2 ^ 32 else ans

-- `strToNum`
unfoldable pub str_to_num : List ℕ → ℕ
unfolding read_digits
str_to_num [] = signed_result false (read_digits 0 [])
str_to_num (c ∷ cs) =
    if c == b'-'
    then signed_result true (read_digits 0 cs)
    else signed_result false (read_digits 0 (c ∷ cs))

-- The first loop of `ulongToStr`: the characters of `aux`, the last digit first. 64 rounds are enough.
unfoldable pub low_digits : ℕ → ℕ → List ℕ
low_digits zero num = []
low_digits (suc fuel) num =
    let rest = (num % 10 + 48) ∷ low_digits fuel (num / 10) in if num == 0 then [] else rest

-- The second loop.
abbrev pub reverse_onto : List ℕ → List ℕ → List ℕ
reverse_onto [] cs = cs
reverse_onto (x ∷ xs) cs = reverse_onto xs (x ∷ cs)

-- `ulongToStr`: the string, whose length it returns.
unfoldable pub ulong_to_str : ℕ → List ℕ
ulong_to_str num = reverse_onto (low_digits 64 num) []

-- The tests of `xtou64`.
unfoldable pub hex_value : ℕ → Option ℕ
hex_value c =
    if is_digit c
    then some (c - 48)
    else (if leb b'a' c && leb c b'f'
        then some (10 + c - 97)
        else (if leb b'A' c && leb c b'F' then some (10 + c - 65) else none))

-- The loop of `xtou64`: whether it stopped at another character, and the number.
unfoldable pub read_hex : ℕ → List ℕ → Bool × ℕ
unfolding hex_value
read_hex ans [] = (false, ans)
read_hex ans (c ∷ cs) =
    let ans' = ans * 16 % 2 ^ 64 in
    elim (hex_value c) [ none ↦ (true, ans') | some d ↦ read_hex ((ans' + d) % 2 ^ 64) cs ]

-- `xtou64`: whether it failed, and the number that it leaves.
unfoldable pub xtou64 : List ℕ → Bool × ℕ
unfolding read_hex
xtou64 cs = let (bad, ans) = read_hex 0 cs in (if bad then true else ltb 16 (length cs), ans)
