-- ===== src/Strings.antt =====
-- C strings: `strPrefix`, `removeBackspaces` and `strlen` of Userland/SampleCodeModule/c/userlib.c, and
-- `strncpy` and `strcpy` of Kernel/c/lib/stringslib.c. Where a function writes, the memory is a function from
-- addresses to bytes; else a string is the list of its characters.
pub mod Prefix
pub mod Backspaces
mod Tests
use bizcocho_os.Prelude.{
  ℕ, zero, suc, ◌+◌, ◌-◌, Bool, not, true, false, Option, none, some, List, [], ◌∷◌, ◌==◌,
  if◌then◌else◌, update, ◌≡◌, ◌≢◌,
}

abbrev pub Bytes : Type 0
Bytes = ℕ → ℕ

-- From the address on the memory holds the characters and then 0.
abbrev pub IsString : Bytes → ℕ → List ℕ → Type 0
IsString m p [] = m p ≡ 0
IsString m p (c ∷ cs) = (m p ≡ c) × (c ≢ 0) × IsString m (p + 1) cs

-- The first loop of `strPrefix`.
unfoldable pub skip_spaces : List ℕ → List ℕ
skip_spaces [] = []
skip_spaces (c ∷ cs) = let rest = skip_spaces cs in if c == b' ' then rest else c ∷ cs

-- What `strPrefix` comes to: 1 with `*afterPrefix` at the rest, 0 with `NULL` there where the text
-- ends first, or 0 with `*afterPrefix` as it was.
pub data Match : Type 0 where
  found : List ℕ → Match
  too_short : Match
  differs : Match

-- The second loop.
unfoldable pub match_from : List ℕ → List ℕ → Match
match_from [] cs = found cs
match_from (p ∷ ps) [] = too_short
match_from (p ∷ ps) (c ∷ cs) = let rest = match_from ps cs in if p == c then rest else differs

-- `strPrefix`
unfoldable pub str_prefix : List ℕ → List ℕ → Match
unfolding skip_spaces match_from
str_prefix prefix str = match_from prefix (skip_spaces str)

abbrev pub backspace : ℕ
backspace = 8

-- The loop of `removeBackspaces`: `i` and the memory behind it; `none` is out of fuel.
unfoldable pub backspace_loop : ℕ → ℕ → ℕ → ℕ → Bytes → Option (ℕ × Bytes)
backspace_loop zero str i j m = none
backspace_loop (suc fuel) str i j m =
    let c = m (str + j) in
    let kept = backspace_loop fuel str (i + 1) (j + 1) (update m (str + i) c) in
    let dropped = backspace_loop fuel str (i - (if i == 0 then 0 else 1)) (j + 1) m in
    if c == 0 then some (i, m) else (if not (c == backspace) then kept else dropped)

-- `removeBackspaces`: the length that it returns, and the memory.
unfoldable pub remove_backspaces : ℕ → ℕ → Bytes → Option (ℕ × Bytes)
unfolding backspace_loop
remove_backspaces fuel str m = elim (backspace_loop fuel str 0 0 m) [
  | none ↦ none
  | some (i, m') ↦ some (i, update m' (str + i) 0)
]

-- The loop of `strlen` from the offset `n` on.
unfoldable pub strlen_from : ℕ → ℕ → ℕ → Bytes → Option ℕ
strlen_from zero s n m = none
strlen_from (suc fuel) s n m =
    let further = strlen_from fuel s (n + 1) m in if m (s + n) == 0 then some n else further

-- `strlen`
unfoldable pub strlen : ℕ → ℕ → Bytes → Option ℕ
unfolding strlen_from
strlen fuel s m = strlen_from fuel s 0 m

-- The kernel's `strncpy`: `count` bytes, zeros behind the end of the source.
unfoldable pub strncpy : ℕ → ℕ → ℕ → Bytes → Bytes
strncpy dest src zero m = m
strncpy dest src (suc count) m =
    let c = m src in strncpy (dest + 1) (if c == 0 then src else src + 1) count (update m dest c)

-- The loop of `strcpy` with `tmp` characters copied: how many in all, and the memory.
unfoldable pub strcpy_from : ℕ → ℕ → ℕ → ℕ → Bytes → Option (ℕ × Bytes)
strcpy_from zero dest src tmp m = none
strcpy_from (suc fuel) dest src tmp m =
    let c = m src in
    let copied = update m dest c in
    let further = strcpy_from fuel (dest + 1) (src + 1) (tmp + 1) copied in
    if c == 0 then some (tmp, copied) else further

-- `strcpy`
unfoldable pub strcpy : ℕ → ℕ → ℕ → Bytes → Option (ℕ × Bytes)
unfolding strcpy_from
strcpy fuel dest src m = strcpy_from fuel dest src 0 m
