-- ===== src/Shell/Print.antt =====
-- `_snprintf`, `snprintf`, `printf` and `fprintf` of Userland/SampleCodeModule/c/userlib.c. As for the kernel's `fprintf`,
-- `none` is what C leaves open: a write outside of the buffer of 255 bytes, a format that ends inside of a
-- directive, an argument that is not there or of the other kind.
use bizcocho_os.Prelude.{
  ℕ, zero, suc, ◌+◌, ◌-◌, ◌*◌, ◌%◌, ◌^◌, ◌||◌, Option, none, some, List, [], ◌∷◌, ◌++◌, ltb, leb,
  ◌==◌, if◌then◌else◌, length,
}
use bizcocho_os.Text.{is_digit}
use bizcocho_os.Kernel.{Kernel}
use bizcocho_os.Files.{Written, write}
use bizcocho_os.Files.Printf.{Arg, number, text, directive, in_front}
use bizcocho_os.Shell.Words.{first}

abbrev pub spaces : ℕ → List ℕ
spaces zero = []
spaces (suc n) = b' ' ∷ spaces n

-- The characters of a string for `s`: a number in front of the letter is both the most and the least
-- that is printed; as an `int` it may be negative, and counts for none.
unfoldable pub padded_text : ℕ → List ℕ → List ℕ
padded_text middle_number s =
    if middle_number == 0 || leb (2 ^ 31) middle_number
    then s
    else first middle_number s ++ spaces (middle_number - length (first middle_number s))

-- What the `switch` adds for a letter; all but `s` are as in the kernel's `fprintf`.
unfoldable pub user_directive : ℕ → ℕ → List Arg → Option (List ℕ × List Arg)
unfolding directive padded_text
user_directive c middle_number args =
    let other = directive c middle_number args in
    if c == b's'
    then elim args [
      | [] ↦ none
      | a ∷ rest ↦ elim a [ number n ↦ none | text s ↦ some (padded_text middle_number s, rest) ]
    ]
    else other

-- The loop of `_snprintf` over the format: `none` in the text, or the number that was read behind a
-- percent sign.
unfoldable pub user_expand : Option ℕ → List ℕ → List Arg → Option (List ℕ)
unfolding user_directive
user_expand none [] args = some []
user_expand (some n) [] args = none
user_expand none (c ∷ cs) args =
    let kept = in_front (c ∷ []) (user_expand none cs args) in
    let opened = user_expand (some 0) cs args in if c == b'%' then opened else kept
user_expand (some n) (c ∷ cs) args =
    let further = user_expand (some ((n * 10 + (c - b'0')) % 2 ^ 32)) cs args in
    let go_on = λ (r : List ℕ × List Arg). in_front r.0 (user_expand none cs r.1) in
    if is_digit c
    then further
    else elim (user_directive c n args) [ none ↦ none | some r ↦ go_on r ]

abbrev pub fits : Option (List ℕ) → Option (List ℕ)
fits none = none
fits (some cs) = if ltb 254 (length cs) then none else some cs

-- `snprintf`: what it leaves in the buffer. It passes 255 on in place of its argument `n`, so that the buffer
-- of the caller, of `n` bytes, is overrun where the text is longer.
unfoldable pub snprintf : ℕ → List ℕ → List Arg → Option (List ℕ)
snprintf n format args = elim (user_expand none format args) [
  | none ↦ none
  | some cs ↦ if leb n (length cs) then none else fits (some cs)
]

abbrev write_text : ℕ → Kernel → Option (List ℕ) → Option (Written × Kernel)
write_text fd k none = none
write_text fd k (some cs) = some (write fd cs k)

-- The user library's `fprintf`, up to a block of the call of `sys_write`.
unfoldable pub user_fprintf : ℕ → List ℕ → List Arg → Kernel → Option (Written × Kernel)
user_fprintf fd format args k = write_text fd k (fits (user_expand none format args))

-- `printf`
unfoldable pub printf : List ℕ → List Arg → Kernel → Option (Written × Kernel)
unfolding user_fprintf
printf format args k = user_fprintf 1 format args k
