-- ===== src/Shell/Reading.antt =====
-- `readUntilEnter` of Userland/SampleCodeModule/c/bizcocho.c. The buffer of 128 bytes stands at 0 of a memory
-- of its own. Input is the list of the characters that the calls of `sys_read` give; what is printed is left out.
use bizcocho_os.Prelude.{
  ℕ, ◌+◌, ◌-◌, ◌≤◌, ◌<◌, ◌≡◌, ◌≢◌, refl, sym, false, Option, none, some, List, [], ◌∷◌, ◌++◌, ◌==◌,
  if◌then◌else◌, update, length, length-append, All, arith,
}
use mathlib.Core.List.{append-nil, append_assoc}
use bizcocho_os.Strings.{Bytes, remove_backspaces}
use bizcocho_os.Strings.Backspaces.{typed, Erases, remove_backspaces-Erases}
use bizcocho_os.Shell.Rows.{Holds, Holds-put, IsString-end}

abbrev pub buffer_dim : ℕ
buffer_dim = 128

-- The check at the head of the loop: the index, and the buffer; 128 rounds are enough for it.
unfoldable pub make_room : ℕ → Bytes → Option (ℕ × Bytes)
make_room index buffer =
    let cleaned = remove_backspaces buffer_dim 0 buffer in
    if index == buffer_dim - 1 then cleaned else some (index, buffer)

-- The loop: the index behind it, and the buffer; `none` where it waits for more input.
unfoldable pub read_line : List ℕ → ℕ → Bytes → Option (ℕ × Bytes)
unfolding make_room
read_line [] index buffer = elim (make_room index buffer) [
  | none ↦ none
  | some (i, b) ↦ if i == buffer_dim - 1 then some (i + 1, b) else none
]
read_line (c ∷ cs) index buffer = elim (make_room index buffer) [
  | none ↦ none
  | some (i, b) ↦
      let rest = read_line cs (i + 1) (update b i c) in
      if i == buffer_dim - 1
      then some (i + 1, b)
      else (if c == b'\n' then some (i + 1, update b i c) else rest)
]

-- `readUntilEnter`: the length of the line, and the buffer.
unfoldable pub read_until_enter : List ℕ → Bytes → Option (ℕ × Bytes)
unfolding read_line
read_until_enter input buffer = elim (read_line input 0 buffer) [
  | none ↦ none
  | some (index, b) ↦ remove_backspaces buffer_dim 0 (update b (index - 1) 0)
]

Holds-behind :
    (m : Bytes) (p a c : ℕ) (w : List ℕ) → p + length w ≤ a → Holds m p w → Holds (update m a c) p w
Holds-behind m p a c [] le h = tt
Holds-behind m p a c (x ∷ xs) le h =
    let other : (p == a) ≡ false = ground (arith, le) in
    (rw other h.0, h.1, Holds-behind m (p + 1) a c xs (omega (arith, le)) h.2)

make_room-inside :
    (index : ℕ) (buffer : Bytes)
    → index < buffer_dim - 1
    → make_room index buffer ≡ some (index, buffer)
unfolding make_room
make_room-inside index buffer lt =
    let inside : (index == buffer_dim - 1) ≡ false = ground arith in rw inside refl

read_line-step :
    (c : ℕ) (cs : List ℕ) (index : ℕ) (buffer : Bytes)
    → index < buffer_dim - 1
    → read_line (c ∷ cs) index buffer ≡ (
        if c == b'\n'
        then some (index + 1, update buffer index c)
        else read_line cs (index + 1) (update buffer index c))
unfolding read_line
read_line-step c cs index buffer lt =
    let inside : (index == buffer_dim - 1) ≡ false = ground arith in
    rw (make_room-inside index buffer lt, read_line, inside) refl

-- What the loop leaves for a line that fits: its characters, and the newline behind them.
abbrev LeavesLine : List ℕ → Option (ℕ × Bytes) → Type 0
LeavesLine cs none = ⊥
LeavesLine cs (some (i, b)) = (i ≡ length cs + 1) × Holds b 0 cs

read_line-LeavesLine :
    (w cs rest : List ℕ) (buffer : Bytes)
    → length w + length cs < buffer_dim - 1
    → Holds buffer 0 w
    → All (λ (c : ℕ). c ≢ 0) cs
    → All (λ (c : ℕ). c ≢ b'\n') cs
    → LeavesLine (w ++ cs) (read_line (cs ++ (b'\n' ∷ rest)) (length w) buffer)
read_line-LeavesLine w [] rest buffer fits h t n =
    rw (read_line-step b'\n' rest (length w) buffer (omega (arith, fits)), append-nil w)
      (refl, Holds-behind buffer 0 (length w) b'\n' w (omega arith) h)
read_line-LeavesLine w (c ∷ cs) rest buffer fits h t n =
    let other : (c == b'\n') ≡ false = ground (arith, n.0) in
    let more = length-append w (c ∷ []) in
    let longer : length (w ++ (c ∷ [])) ≡ length w + 1 = omega (arith, more) in
    let ih =
      read_line-LeavesLine (w ++ (c ∷ [])) cs rest (update buffer (length w) c)
        (omega (arith, longer, fits)) (Holds-put buffer 0 w c (length w) (omega arith) t.0 h) t.1
        n.1 in
    rw
      (
        read_line-step c (cs ++ (b'\n' ∷ rest)) (length w) buffer (omega (arith, fits)),
        other,
        sym (append_assoc w (c ∷ []) cs),
        sym longer,
      )
      ih

read_until_enter-step :
    (cs : List ℕ) (r : Option (ℕ × Bytes))
    → length cs < buffer_dim - 1
    → LeavesLine cs r
    → Erases 0 (typed [] cs) (elim r [
      | none ↦ none
      | some (index, b) ↦ remove_backspaces buffer_dim 0 (update b (index - 1) 0)
    ])
read_until_enter-step cs none fits l = absurd l
read_until_enter-step cs (some (index, b)) fits l =
    remove_backspaces-Erases buffer_dim 0 cs (update b (index - 1) 0)
      (IsString-end b 0 cs (index - 1) (omega (arith, l.0)) l.1) (omega (arith, fits))

-- `readUntilEnter` for a line of less than 127 characters, with no newline and no 0 in it, and the Enter key, whatever is typed
-- behind it: it ends, and leaves in the buffer, as a C string, what is on a line when these characters
-- are typed, each backspace taking away the character before it.
pub read_until_enter-Erases :
    (cs rest : List ℕ) (buffer : Bytes)
    → length cs < buffer_dim - 1
    → All (λ (c : ℕ). c ≢ 0) cs
    → All (λ (c : ℕ). c ≢ b'\n') cs
    → Erases 0 (typed [] cs) (read_until_enter (cs ++ (b'\n' ∷ rest)) buffer)
unfolding read_until_enter
read_until_enter-Erases cs rest buffer fits t n =
    read_until_enter-step cs (read_line (cs ++ (b'\n' ∷ rest)) 0 buffer) fits
      (read_line-LeavesLine [] cs rest buffer (omega (arith, fits)) tt t n)
