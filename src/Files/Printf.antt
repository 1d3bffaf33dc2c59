-- ===== src/Files/Printf.antt =====
-- `fprintf` of Kernel/c/ipc/files.c. `none` is what C leaves open: a write outside of a buffer, a format that ends inside
-- of a directive, an argument that is not there or of the other kind.
use bizcocho_os.Prelude.{
  ℕ, ◌+◌, ◌-◌, ◌*◌, ◌%◌, ◌^◌, ◌&&◌, ◌||◌, Option, none, some, List, [], ◌∷◌, ◌++◌, ltb, ◌==◌,
  if◌then◌else◌, length,
}
use bizcocho_os.Text.{is_digit, convert}
use bizcocho_os.Kernel.{Kernel}
use bizcocho_os.Files.{Written, write}

-- An argument: a number of 64 bits, or a string.
pub data Arg : Type 0 where
  number : ℕ → Arg
  text : List ℕ → Arg

-- `convert` with the buffer that it has.
abbrev pub converted : ℕ → ℕ → ℕ → Option (List ℕ)
converted num base min_digit_count =
    if ltb 49 min_digit_count then none else some (convert num base min_digit_count)

-- What the `switch` adds for a letter, and the arguments that are left.
unfoldable pub directive : ℕ → ℕ → List Arg → Option (List ℕ × List Arg)
directive c min_digit_count args =
    let is_signed = c == b'd' in
    let with_number = λ (n : ℕ) (rest : List Arg).
      let i = n % 2 ^ 32 in
      let cs =
        if c == b'c'
        then some (i % 2 ^ 8 ∷ [])
        else (if is_signed && ltb (2 ^ 31 - 1) i
            then elim (converted (2 ^ 32 - i) 10 min_digit_count) [
              | none ↦ none
              | some ds ↦ some (b'-' ∷ ds)
            ]
            else converted i (if is_signed then 10 else (if c == b'o' then 8 else 16))
                min_digit_count) in
      elim cs as (λ _. Option (List ℕ × List Arg)) [ none ↦ none | some ds ↦ some (ds, rest) ] in
    let takes_number = is_signed || c == b'c' || c == b'o' || c == b'x' in
    if takes_number
    then elim args [
      | [] ↦ none
      | a ∷ rest ↦ elim a [ number n ↦ with_number n rest | text s ↦ none ]
    ]
    else (if c == b's'
        then elim args [
          | [] ↦ none
          | a ∷ rest ↦ elim a [ number n ↦ none | text s ↦ some (s, rest) ]
        ]
        else some ([], args))

abbrev pub in_front : List ℕ → Option (List ℕ) → Option (List ℕ)
in_front cs none = none
in_front cs (some ds) = some (cs ++ ds)

-- The loop over the format: `none` in the text, or the count of digits that was read behind a percent sign.
unfoldable pub expand : Option ℕ → List ℕ → List Arg → Option (List ℕ)
unfolding directive
expand none [] args = some []
expand (some n) [] args = none
expand none (c ∷ cs) args =
    let kept = in_front (c ∷ []) (expand none cs args) in
    let opened = expand (some 0) cs args in if c == b'%' then opened else kept
expand (some n) (c ∷ cs) args =
    let further = expand (some ((n * 10 + (c - b'0')) % 2 ^ 32)) cs args in
    let go_on = λ (r : List ℕ × List Arg). in_front r.0 (expand none cs r.1) in
    if is_digit c then further else elim (directive c n args) [ none ↦ none | some r ↦ go_on r ]

-- `fprintf`, whose buffer has 255 bytes with the 0 at the end.
unfoldable pub fprintf : ℕ → List ℕ → List Arg → Kernel → Option (Written × Kernel)
unfolding expand
fprintf fd format args k = elim (expand none format args) [
  | none ↦ none
  | some cs ↦ if ltb 254 (length cs) then none else some (write fd cs k)
]
