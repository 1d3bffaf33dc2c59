-- ===== src/Interrupts/Registers.antt =====
-- The text of a register.
use bizcocho_os.Prelude.{
  ℕ, ◌+◌, ◌*◌, ◌/◌, ◌%◌, ◌^◌, ◌<◌, ◌≡◌, refl, ap, ◌∙◌, Bool, false, List, [], ◌∷◌, ◌++◌, ltb,
  length, length-append, arith,
}
use bizcocho_os.Text.{convert, read_hex, xtou64}
use bizcocho_os.Text.Hex.{
  or_bad, read_hex-append, read_hex-convert, length-convert_hex, scale, read_hex-scale,
}
use bizcocho_os.Interrupts.{print_reg_aux}

-- The four pieces of a line behind the name.
abbrev pub hex_of : List (List ℕ) → List ℕ
hex_of (name ∷ (equals ∷ (high ∷ (low ∷ rest)))) = high ++ low
hex_of _ = []

eight_more : (hi lo : ℕ) → hi < 2 ^ 32 → lo < 2 ^ 32 → (lo + scale hi 8) % 2 ^ 64 ≡ hi * 2 ^ 32 + lo
eight_more hi lo h l = omega (arith, h, l)

halves :
    (r : ℕ)
    → r < 2 ^ 64
    → xtou64 (convert (r / 2 ^ 32) 16 8 ++ convert (r % 2 ^ 32) 16 8) ≡ (false, r)
unfolding xtou64
halves r small =
    let hi = r / 2 ^ 32 in
    let lo = r % 2 ^ 32 in
    let first = convert hi 16 8 in
    let second = convert lo 16 8 in
    let short : hi < 2 ^ 32 = omega (arith, small) in
    let low : lo < 2 ^ 32 = omega arith in
    let on_top = read_hex-scale second 0 hi lo (read_hex-convert lo 8 low) in
    let start : hi ≡ (0 + hi) % 2 ^ 64 = omega (arith, short) in
    let end : (lo + scale hi (length second)) % 2 ^ 64 ≡ r =
      ap (λ (n : ℕ). (lo + scale hi n) % 2 ^ 64) (length-convert_hex lo low)
      ∙ eight_more hi lo short low
      ∙ omega arith in
    let read : read_hex 0 (first ++ second) ≡ (false, r) =
      read_hex-append 0 first second
      ∙ ap (λ (o : Bool × ℕ). or_bad o second) (read_hex-convert hi 8 short)
      ∙ ap (λ (a : ℕ). read_hex a second) start
      ∙ on_top
      ∙ ap (λ (n : ℕ). (false, n)) end in
    let fits : ltb 16 (length (first ++ second)) ≡ false =
      ground (
        arith,
        length-append first second,
        length-convert_hex hi short,
        length-convert_hex lo low,
      ) in
    rw (read, fits) refl

-- The hexadecimal digits that `printRegAux` prints of a register of 64 bits, the high half and then the low one, are
-- the register: `xtou64` reads them back.
pub print_reg_aux-xtou64 :
    (registers : ℕ → ℕ) (index : ℕ)
    → registers index < 2 ^ 64
    → xtou64 (hex_of (print_reg_aux registers index)) ≡ (false, registers index)
unfolding print_reg_aux
print_reg_aux-xtou64 registers index small = halves (registers index) small
