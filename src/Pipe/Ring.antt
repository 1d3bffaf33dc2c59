-- ===== src/Pipe/Ring.antt =====
-- The buffer of a pipe as a queue of characters.
use bizcocho_os.Prelude.{
  ℕ, zero, suc, ◌+◌, ◌-◌, ◌%◌, ◌≤◌, ◌<◌, ◌≡◌, ◌↔◌, ◌⊎◌, ◌*◌, refl, ap, ◌∙◌, true, List, [], ◌∷◌,
  ◌++◌, arith, ◌==◌, update, length,
}
use mathlib.Core.Path.{ap₂}
use bizcocho_os.Pipe.{
  Pipe, max_pipe_buffer_size, size_mod, is_full, is_empty, put_char, drop_char, first_char,
  characters_left,
}

-- How many characters wait, and which, the oldest first.
abbrev pub size : Pipe → ℕ
size p = (p.writing_index + size_mod - p.reading_index) % size_mod

abbrev pub window : (ℕ → ℕ) → ℕ → ℕ → List ℕ
window f r zero = []
window f r (suc n) = f (r % max_pipe_buffer_size) ∷ window f (r + 1) n

abbrev pub contents : Pipe → List ℕ
contents p = window p.buffer p.reading_index (size p)

-- The counters are `size_t`s, and one place stays free.
pub record IsValid (p : Pipe) : Type 0 where
  pub reads : p.reading_index < size_mod
  pub writes : p.writing_index < size_mod
  pub fits : size p < max_pipe_buffer_size

pub length-window : (f : ℕ → ℕ) (r n : ℕ) → length (window f r n) ≡ n
length-window f r zero = refl
length-window f r (suc n) = ap suc (length-window f (r + 1) n)

window-mod :
    (f : ℕ → ℕ) (r q n : ℕ)
    → r % max_pipe_buffer_size ≡ q % max_pipe_buffer_size
    → window f r n ≡ window f q n
window-mod f r q zero e = refl
window-mod f r q (suc n) e = ap₂ ◌∷◌ (ap f e) (window-mod f (r + 1) (q + 1) n (omega arith))

-- A write behind the window extends it.
window-update :
    (f : ℕ → ℕ) (r n i c : ℕ)
    → n < max_pipe_buffer_size
    → i ≡ (r + n) % max_pipe_buffer_size
    → window (update f i c) r (suc n) ≡ window f r n ++ (c ∷ [])
window-update f r zero i c h e = ground arith
window-update f r (suc n) i c h e =
    ap₂ ◌∷◌ (ground arith) (window-update f (r + 1) n i c (omega arith) (omega arith))

pub is_full_lem : (p : Pipe) → IsValid p → is_full p ≡ (size p == max_pipe_buffer_size - 1)
unfolding is_full
is_full_lem p v = ground arith

pub is_empty_lem : (p : Pipe) → IsValid p → is_empty p ≡ (size p == 0)
unfolding is_empty
is_empty_lem p v = ground arith

pub put_char_lem :
    (c : ℕ) (p : Pipe)
    → IsValid p
    → size p < max_pipe_buffer_size - 1
    → IsValid (put_char c p) × (contents (put_char c p) ≡ contents p ++ (c ∷ []))
unfolding put_char
put_char_lem c p v h =
    let e : size (put_char c p) ≡ suc (size p) = omega arith in
    (
      omega arith,
      ap (window (put_char c p).buffer p.reading_index) e
          ∙ window-update p.buffer p.reading_index (size p) (p.writing_index % max_pipe_buffer_size)
              c (omega arith) (omega arith),
    )

pub drop_char_lem :
    (p : Pipe)
    → IsValid p
    → 0 < size p
    → IsValid (drop_char p) × (contents p ≡ first_char p ∷ contents (drop_char p))
unfolding drop_char
drop_char_lem p v h =
    let e : size p ≡ suc (size (drop_char p)) = omega arith in
    (
      omega arith,
      ap (window p.buffer p.reading_index) e
          ∙ ap (λ (l : List ℕ). first_char p ∷ l)
              (window-mod p.buffer (p.reading_index + 1) (drop_char p).reading_index
                (size (drop_char p)) (omega arith)),
    )

-- A writer that is woken while the pipe is full, and so writes without a test, makes it look empty.
pub put_char-is_empty :
    (c : ℕ) (p : Pipe) → IsValid p → is_full p ≡ true → is_empty (put_char c p) ≡ true
unfolding put_char is_full is_empty
put_char-is_empty c p v full = ground arith

-- `getPipeInfo` counts the characters that wait right exactly when the writing index, reduced to the
-- buffer, is not below the reading index, or is half of it.
pub characters_left_iff :
    (p : Pipe)
    → IsValid p
    → (characters_left p ≡ size p) ↔ (
        (p.reading_index % max_pipe_buffer_size ≤ p.writing_index % max_pipe_buffer_size)
        ⊎ (p.reading_index % max_pipe_buffer_size ≡ 2 * (p.writing_index % max_pipe_buffer_size)))
unfolding characters_left
characters_left_iff p v = ((λ h. ground arith), (λ h. ground arith))
