-- ===== src/Strings/Tests.antt =====
-- A prefix, and a typed line with backspaces.
use bizcocho_os.Prelude.{◌≡◌, refl, some, [], ◌∷◌, arith, update}
use bizcocho_os.Strings.{Bytes, IsString, found, str_prefix, strlen, strncpy}

command : str_prefix (b'l' ∷ b's' ∷ []) (b' ' ∷ b'l' ∷ b's' ∷ b'x' ∷ []) ≡ found (b'x' ∷ [])
unfolding str_prefix
command = refl

-- "ab", a backspace, "c"
abbrev line : Bytes
line = update (update (update (update (λ _. 0) 50 b'a') 51 b'b') 52 8) 53 b'c'

line-IsString : IsString line 50 (b'a' ∷ b'b' ∷ 8 ∷ b'c' ∷ [])
line-IsString = omega arith

copied : strncpy 60 50 6 line 63 ≡ b'c'
unfolding strncpy
copied = refl

padding : strncpy 60 50 6 line 65 ≡ 0
unfolding strncpy
padding = refl

counted : strlen 9 50 line ≡ some 4
unfolding strlen
counted = refl
