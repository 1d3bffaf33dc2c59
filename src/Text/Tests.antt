-- ===== src/Text/Tests.antt =====
-- Numbers written and read.
use bizcocho_os.Prelude.{◌^◌, ◌≡◌, ◌≤◌, ◌-◌, refl, [], ◌∷◌, length, arith, ◌==◌, if◌then◌else◌}
use bizcocho_os.Text.Digits.{digits}
use bizcocho_os.Text.{convert, str_to_num, ulong_to_str, low_digits}
use bizcocho_os.Text.Long.{ulong_to_str_lem}

padded : convert 45 10 4 ≡ b'0' ∷ b'0' ∷ b'4' ∷ b'5' ∷ []
unfolding convert
padded = refl

minus : str_to_num (b'-' ∷ b'7' ∷ []) ≡ 2 ^ 32 - 7
unfolding str_to_num
minus = refl

written : ulong_to_str 120 ≡ b'1' ∷ b'2' ∷ b'0' ∷ []
unfolding ulong_to_str low_digits
written = refl

ulong_to_str_lem_example :
    (ulong_to_str 120 ≡ (if 120 == 0 then [] else digits 64 10 120))
    × (length (low_digits 64 120) ≤ 20)
ulong_to_str_lem_example = ulong_to_str_lem 120 (omega arith)
