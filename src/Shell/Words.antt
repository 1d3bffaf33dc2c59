-- ===== src/Shell/Words.antt =====
-- What `parser` stores: the words of the line.
use bizcocho_os.Prelude.{
  ℕ, zero, suc, ◌+◌, ◌*◌, ◌-◌, ◌≤◌, ◌<◌, ◌≡◌, ◌≢◌, refl, ap, sym, ◌∙◌, not, true, false, ◌||◌,
  Option, some, List, [], ◌∷◌, ◌++◌, ◌==◌, if◌then◌else◌, length, length-append, All, Bool-cases,
  inl, inr, arith,
}
use mathlib.Core.Path.{subst}
use mathlib.Core.List.{append-nil, append_assoc}
use bizcocho_os.Strings.{Bytes, IsString}
use bizcocho_os.Shell.Rows.{Holds, Holds-put, IsString-end, IsString-kept}
use bizcocho_os.Shell.{max_token_length, Cursor, put, end_token, parse_char, parse_loop, parser}

-- The text cut at each separator: what stands in front of the first one, and the pieces behind it.
abbrev pub pieces : ℕ → List ℕ → List ℕ × List (List ℕ)
pieces separator [] = ([], [])
pieces separator (c ∷ cs) =
    let (p, ps) = pieces separator cs in if c == separator then ([], p ∷ ps) else (c ∷ p, ps)

abbrev pub add_word : List ℕ → List (List ℕ) → List (List ℕ)
add_word [] ws = ws
add_word (c ∷ cs) ws = (c ∷ cs) ∷ ws

abbrev pub without_empty : List (List ℕ) → List (List ℕ)
without_empty [] = []
without_empty (p ∷ ps) = add_word p (without_empty ps)

-- The words: the pieces that are not empty.
abbrev pub words : ℕ → List ℕ → List (List ℕ)
words separator cs = add_word (pieces separator cs).0 (without_empty (pieces separator cs).1)

abbrev pub first {ℓ} : {A : Type ℓ} → ℕ → List A → List A
first zero xs = []
first (suc n) [] = []
first (suc n) (x ∷ xs) = x ∷ first n xs

abbrev pub Short : List ℕ → Type 0
Short w = length w < max_token_length

-- The rows from an address on hold the words.
abbrev pub IsRows : Bytes → ℕ → List (List ℕ) → Type 0
IsRows m p [] = Unit {0}
IsRows m p (w ∷ ws) = IsString m p w × IsRows m (p + max_token_length) ws

abbrev pub IsText : List ℕ → Type 0
IsText cs = All (λ (c : ℕ). c ≢ 0) cs

abbrev finish : Cursor → Cursor
finish at = if not (at.j == 0) then end_token at else at

-- What stands in front of the token is left as it is.
parse_char-kept :
    (separator c : ℕ) (at : Cursor) (a : ℕ)
    → a < max_token_length * at.count
    → ((parse_char separator c at).rows a ≡ at.rows a)
      × (at.count ≤ (parse_char separator c at).count)
unfolding parse_char
parse_char-kept separator c at a h =
    elim (Bool-cases (c == separator || at.j == max_token_length)) [
      | inl cut ↦ elim (Bool-cases (at.j == 0)) [
        | inl none_yet ↦ rw (cut, none_yet) (refl, omega arith)
        | inr some_now ↦ rw (cut, some_now) (ground arith, omega arith)
      ]
      | inr stored ↦ rw stored (ground arith, omega arith)
    ]

finish-kept :
    (at : Cursor) (a : ℕ) → a < max_token_length * at.count → (finish at).rows a ≡ at.rows a
finish-kept at a h = elim (Bool-cases (at.j == 0)) [
  | inl none_yet ↦ rw none_yet refl
  | inr some_now ↦ rw some_now (ground arith)
]

parse_loop-kept :
    (separator max : ℕ) (cs : List ℕ) (at : Cursor) (a : ℕ)
    → a < max_token_length * at.count
    → (finish (parse_loop separator max cs at)).rows a ≡ at.rows a
unfolding parse_loop
parse_loop-kept separator max [] at a h = finish-kept at a h
parse_loop-kept separator max (c ∷ cs) at a h = elim (Bool-cases (at.count == max)) [
  | inl full ↦ rw full (finish-kept at a h)
  | inr room ↦
      let now = parse_char-kept separator c at a h in
      rw room (
        parse_loop-kept separator max cs (parse_char separator c at) a (omega (arith, h, now.1))
        ∙ now.0)
]

-- The words of the rest of the line, when the token has begun.
abbrev words_after : ℕ → List ℕ → List ℕ → List (List ℕ)
words_after separator w cs =
    add_word (w ++ (pieces separator cs).0) (without_empty (pieces separator cs).1)

-- What the loop promises from a cursor on, with room for so many tokens.
record Stores (n : ℕ) (ws : List (List ℕ)) (r : Cursor) : Type 0 where
  count : r.count ≡ n + length ws
  rows : IsRows r.rows (max_token_length * n) ws

first-nil {ℓ} : {A : Type ℓ} (n : ℕ) → first {A = A} n [] ≡ []
first-nil zero = refl
first-nil (suc n) = refl

Stores-end :
    (left : ℕ) (at : Cursor) (w : List ℕ)
    → at.j ≡ length w
    → Holds at.rows (max_token_length * at.count) w
    → Stores at.count (first (suc left) (add_word w [])) (finish at)
Stores-end left at [] j h =
    let none_yet : (at.j == 0) ≡ true = ground (arith, j) in
    rw none_yet (record { count = omega arith; rows = tt })
Stores-end left at (c ∷ cs) j h =
    let some_now : (at.j == 0) ≡ false = ground (arith, j) in
    rw (first-nil {A = List ℕ} left, some_now)
      (record {
        count = omega arith;
        rows = (
          IsString-end at.rows (max_token_length * at.count) (c ∷ cs) _ (omega (arith, j)) h,
          tt,
        );
      })

-- The three rounds of the loop.
parse_char-separator :
    (separator c : ℕ) (at : Cursor)
    → (c == separator) ≡ true
    → at.j ≡ 0
    → parse_char separator c at ≡ at
unfolding parse_char
parse_char-separator separator c at e j = rw (e, j) refl

parse_char-ends :
    (separator c : ℕ) (at : Cursor)
    → (c == separator) ≡ true
    → (at.j == 0) ≡ false
    → parse_char separator c at ≡ end_token at
unfolding parse_char
parse_char-ends separator c at e j = rw (e, j) refl

abbrev stored : ℕ → Cursor → Cursor
stored c at = record at { j = at.j + 1; rows = put c at }

parse_char-stores :
    (separator c : ℕ) (at : Cursor)
    → (c == separator) ≡ false
    → at.j < max_token_length
    → parse_char separator c at ≡ stored c at
unfolding parse_char
parse_char-stores separator c at e j =
    let room : (at.j == max_token_length) ≡ false = ground (arith, j) in rw (e, room) refl

words_after-char :
    (separator c : ℕ) (w cs : List ℕ)
    → (c == separator) ≡ false
    → words_after separator w (c ∷ cs) ≡ words_after separator (w ++ (c ∷ [])) cs
words_after-char separator c w cs e = rw (e, append_assoc w (c ∷ []) (pieces separator cs).0) refl

first_word-Short :
    (separator left : ℕ) (w cs : List ℕ) (c : ℕ)
    → All Short (first (suc left) (words_after separator (w ++ (c ∷ [])) cs))
    → length w < max_token_length - 1
first_word-Short separator left [] cs c short = omega arith
first_word-Short separator left (x ∷ xs) cs c short =
    let whole = short.0 in
    let parts = length-append (xs ++ (c ∷ [])) (pieces separator cs).0 in
    let begun = length-append xs (c ∷ []) in omega (arith, whole, parts, begun)

Stores-ends :
    (at : Cursor) (w : List ℕ) (ws : List (List ℕ)) (r : Cursor)
    → at.j ≡ length w
    → length w < max_token_length
    → Holds at.rows (max_token_length * at.count) w
    → Stores (at.count + 1) ws r
    → ((a : ℕ) → a < max_token_length * (at.count + 1) → r.rows a ≡ (put 0 at) a)
    → Stores at.count (w ∷ ws) r
Stores-ends at w ws r j short h s kept = record {
  count = omega (arith, s.count);
  rows = (
    IsString-kept (put 0 at) r.rows (max_token_length * at.count)
        (max_token_length * (at.count + 1)) w kept (omega (arith, short))
        (IsString-end at.rows (max_token_length * at.count) w _ (omega (arith, j)) h),
    subst (λ (p : ℕ). IsRows r.rows p ws) (omega arith) s.rows,
  );
}

loop-Stores :
    (separator max left : ℕ) (cs : List ℕ) (at : Cursor) (w : List ℕ)
    → at.count + left ≡ max
    → (left ≡ 0 → w ≡ [])
    → at.j ≡ length w
    → Holds at.rows (max_token_length * at.count) w
    → IsText cs
    → All Short (first left (words_after separator w cs))
    → Stores at.count
        (first left (words_after separator w cs))
        (finish (parse_loop separator max cs at))
unfolding parse_loop
loop-Stores separator max zero [] at w room start j h text short =
    let none_yet : at.j ≡ 0 = j ∙ ap length (start refl) in
    rw none_yet (record { count = omega arith; rows = tt })
loop-Stores separator max zero (c ∷ cs) at w room start j h text short =
    let none_yet : at.j ≡ 0 = j ∙ ap length (start refl) in
    let full : (at.count == max) ≡ true = ground (arith, room) in
    rw full (rw none_yet (record { count = omega arith; rows = tt }))
loop-Stores separator max (suc left) [] at w room start j h text short =
    rw (append-nil w) (Stores-end left at w j h)
loop-Stores separator max (suc left) (c ∷ cs) at [] room start j h text short =
    let more : (at.count == max) ≡ false = ground (arith, room) in
    elim (Bool-cases (c == separator)) [
      | inl cut ↦
          rw (more, parse_char-separator separator c at cut j, cut)
            (loop-Stores separator max (suc left) cs at [] room start j h text.1 (rw cut at short))
      | inr other ↦
          let same = words_after-char separator c [] cs other in
          rw (more, parse_char-stores separator c at other (omega (arith, j)), same)
            (loop-Stores separator max (suc left) cs (stored c at) (c ∷ []) room
              (λ e. absurd (omega (arith, e))) (omega (arith, j))
              (Holds-put at.rows (max_token_length * at.count) [] c _ (omega (arith, j)) text.0 tt)
              text.1 (rw same at short))
    ]
loop-Stores separator max (suc left) (c ∷ cs) at (x ∷ xs) room start j h text short =
    let more : (at.count == max) ≡ false = ground (arith, room) in
    elim (Bool-cases (c == separator)) [
      | inl cut ↦
          let some_now : (at.j == 0) ≡ false = ground (arith, j) in
          let now = rw (cut, append-nil xs) at short in
          rw (more, parse_char-ends separator c at cut some_now, cut, append-nil xs)
            (Stores-ends at (x ∷ xs) _ _ j now.0 h
              (loop-Stores separator max left cs (end_token at) [] (omega (arith, room)) (λ e. refl)
                refl tt text.1 now.1)
              (parse_loop-kept separator max cs (end_token at)))
      | inr other ↦
          let same = words_after-char separator c (x ∷ xs) cs other in
          let now = subst (λ (ws : List (List ℕ)). All Short (first (suc left) ws)) same short in
          let fits = first_word-Short separator left (x ∷ xs) cs c now in
          rw (more, parse_char-stores separator c at other (omega (arith, j, fits)))
            (subst
              (λ (ws : List (List ℕ)).
                Stores at.count (first (suc left) ws)
                  (finish (parse_loop separator max cs (stored c at))))
              (sym same)
              (loop-Stores separator max (suc left) cs (stored c at) ((x ∷ xs) ++ (c ∷ [])) room
                (λ e. absurd (omega (arith, e))) (omega (arith, j, length-append xs (c ∷ [])))
                (Holds-put at.rows (max_token_length * at.count) (x ∷ xs) c _ (omega (arith, j))
                  text.0 h)
                text.1 now))
    ]

-- What `parser` returns for the words.
pub record Tokenises (ws : List (List ℕ)) (r : Option ℕ × Bytes) : Type 0 where
  pub count : r.0 ≡ some (length ws)
  pub rows : IsRows r.1 0 ws

-- `parser` on a text with no 0, for a number of tokens above 0: it returns how many words the text
-- has, at most that number, and the rows hold the first words as C strings, where each of these words is shorter than 30
-- characters.
pub parser-Tokenises :
    (separator max : ℕ) (string : List ℕ) (rows : Bytes)
    → 0 < max
    → IsText string
    → All Short (first max (words separator string))
    → Tokenises (first max (words separator string)) (parser separator max string rows)
unfolding parser
parser-Tokenises separator max string rows positive text short =
    let nonzero : (max == 0) ≡ false = ground arith in
    let start : Cursor = record { count = 0; j = 0; rows = rows } in
    let s =
      loop-Stores separator max max string start [] (omega arith) (λ e. refl) refl tt text short in
    rw nonzero (record { count = ap (λ (n : ℕ). some n) (s.count ∙ omega arith); rows = s.rows })
