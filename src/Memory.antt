-- ===== src/Memory.antt =====
-- `memset` and `memcpy` of Kernel/c/lib/lib.c, on a memory that is a function from addresses to bytes. An address range
-- does not run over the end of the 64 bits.
mod Tests
use bizcocho_os.Prelude.{
  ℕ, zero, suc, ◌+◌, ◌-◌, ◌*◌, ◌/◌, ◌%◌, ◌^◌, ◌≤◌, ◌<◌, ◌≡◌, refl, ap, sym, ◌∙◌, Bool, true, false,
  ◌&&◌, ltb, leb, ◌==◌, if◌then◌else◌, update, Bool-cases, ◌⊎◌, inl, inr, arith,
}
use mathlib.Core.Path.{subst}
use bizcocho_os.Strings.{Bytes}

-- The loop of `memset`, from the last byte to the first.
unfoldable pub set_bytes : ℕ → ℕ → ℕ → Bytes → Bytes
set_bytes dst chr zero m = m
set_bytes dst chr (suc n) m = set_bytes dst chr n (update m (dst + n) chr)

-- `memset`
unfoldable pub memset : ℕ → ℕ → ℕ → Bytes → Bytes
unfolding set_bytes
memset destination c n m = set_bytes destination (c % 2 ^ 8) n m

-- The loops of `memcpy`: a word of four bytes is read before it is written.
unfoldable pub copy_bytes : ℕ → ℕ → ℕ → Bytes → Bytes
copy_bytes d s zero m = m
copy_bytes d s (suc n) m = copy_bytes (d + 1) (s + 1) n (update m d (m s))

abbrev pub put_word : ℕ → ℕ → Bytes → Bytes
put_word d s m =
    update (update (update (update m d (m s)) (d + 1) (m (s + 1))) (d + 2) (m (s + 2))) (d + 3)
      (m (s + 3))

unfoldable pub copy_words : ℕ → ℕ → ℕ → Bytes → Bytes
copy_words d s zero m = m
copy_words d s (suc n) m = copy_words (d + 4) (s + 4) n (put_word d s m)

-- `memcpy`
unfoldable pub memcpy : ℕ → ℕ → ℕ → Bytes → Bytes
unfolding copy_bytes copy_words
memcpy destination source n m =
    if destination % 4 == 0 && source % 4 == 0 && n % 4 == 0
    then copy_words destination source (n / 4) m
    else copy_bytes destination source n m

-- The ranges have no byte in common.
abbrev pub Apart : ℕ → ℕ → ℕ → Type 0
Apart d s n = (d + n ≤ s) ⊎ (s + n ≤ d)

-- The range holds what the other one held; the rest is as before.
abbrev pub copied : ℕ → ℕ → ℕ → Bytes → Bytes
copied d s n m a = if leb d a && ltb a (d + n) then m (s + (a - d)) else m a

copied-step :
    (d s n : ℕ) (m : Bytes) (a : ℕ)
    → Apart d s (suc n)
    → copied (d + 1) (s + 1) n (update m d (m s)) a ≡ copied d s (suc n) m a
copied-step d s n m a h = elim (Bool-cases (a == d)) [
  | inl first ↦
      let same : a ≡ d = ground arith in
      let at : s + (a - d) ≡ s = omega (arith, same) in
      let below : leb (d + 1) a ≡ false = ground (arith, same) in
      let here : leb d a ≡ true = ground (arith, same) in
      let inside : ltb a (d + suc n) ≡ true = ground (arith, same) in
      rw (below, first, here, inside, at) refl
  | inr other ↦ elim (Bool-cases (leb d a && ltb a (d + suc n))) [
    | inl inside ↦
        let at : s + 1 + (a - (d + 1)) ≡ s + (a - d) = ground (arith, inside, other) in
        let kept : (s + (a - d) == d) ≡ false = ground (arith, inside, other, h) in
        let still : (leb (d + 1) a && ltb a (d + 1 + n)) ≡ true = ground (arith, inside, other) in
        rw (still, inside, at, kept) refl
    | inr outside ↦
        let still : (leb (d + 1) a && ltb a (d + 1 + n)) ≡ false = ground (arith, outside, other) in
        rw (still, outside, other) refl
  ]
]

copy_bytes-copied :
    (d s n : ℕ) (m : Bytes) → Apart d s n → (a : ℕ) → copy_bytes d s n m a ≡ copied d s n m a
unfolding copy_bytes
copy_bytes-copied d s zero m h a = ground arith
copy_bytes-copied d s (suc n) m h a =
    copy_bytes-copied (d + 1) (s + 1) n (update m d (m s)) (ground (arith, h)) a
    ∙ copied-step d s n m a h

-- Four bytes one by one, or at once.
four_bytes :
    (d s n : ℕ) (m : Bytes)
    → Apart d s (suc (suc (suc (suc n))))
    → copy_bytes d s (suc (suc (suc (suc n)))) m ≡ copy_bytes (d + 4) (s + 4) n (put_word d s m)
unfolding copy_bytes
four_bytes d s n m h =
    let two = λ (a : ℕ). ◌≡◌ {A = ℕ} (a + 1 + 1) (a + 2) in
    let d₂ : two d = omega arith in
    let s₂ : two s = omega arith in
    let d₃ : d + 2 + 1 ≡ d + 3 = omega arith in
    let s₃ : s + 2 + 1 ≡ s + 3 = omega arith in
    let d₄ : d + 3 + 1 ≡ d + 4 = omega arith in
    let s₄ : s + 3 + 1 ≡ s + 4 = omega arith in
    let a₁ : (s + 1 == d) ≡ false = ground (arith, h) in
    let a₂ : (s + 2 == d) ≡ false = ground (arith, h) in
    let a₃ : (s + 3 == d) ≡ false = ground (arith, h) in
    let b₂ : (s + 2 == d + 1) ≡ false = ground (arith, h) in
    let b₃ : (s + 3 == d + 1) ≡ false = ground (arith, h) in
    let c₃ : (s + 3 == d + 2) ≡ false = ground (arith, h) in
    rw (d₂, s₂, d₃, s₃, d₄, s₄, a₁, b₂, a₂, c₃, b₃, a₃) refl

copy_words-copy_bytes :
    (d s n : ℕ) (m : Bytes) → Apart d s (4 * n) → copy_words d s n m ≡ copy_bytes d s (4 * n) m
unfolding copy_words copy_bytes
copy_words-copy_bytes d s zero m h = refl
copy_words-copy_bytes d s (suc n) m h =
    let e : 4 * suc n ≡ suc (suc (suc (suc (4 * n)))) = omega arith in
    let far : Apart d s (suc (suc (suc (suc (4 * n))))) = subst (λ (l : ℕ). Apart d s l) e h in
    subst (λ (l : ℕ). copy_words (d + 4) (s + 4) n (put_word d s m) ≡ copy_bytes d s l m) (sym e)
      (copy_words-copy_bytes (d + 4) (s + 4) n (put_word d s m) (ground (arith, far))
        ∙ sym (four_bytes d s (4 * n) m far))

set_bytes_lem :
    (dst chr n : ℕ) (m : Bytes) (a : ℕ)
    → set_bytes dst chr n m a ≡ (if leb dst a && ltb a (dst + n) then chr else m a)
unfolding set_bytes
set_bytes_lem dst chr zero m a = ground arith
set_bytes_lem dst chr (suc n) m a =
    ground (arith, set_bytes_lem dst chr n (update m (dst + n) chr) a)

-- `memcpy` of ranges with no byte in common, by words or by bytes: the destination holds what the source held, and no other
-- byte changes.
pub memcpy-copied :
    (d s n : ℕ) (m : Bytes) → Apart d s n → (a : ℕ) → memcpy d s n m a ≡ copied d s n m a
unfolding memcpy
memcpy-copied d s n m h a = elim (Bool-cases (d % 4 == 0 && s % 4 == 0 && n % 4 == 0)) [
  | inl words ↦
      let e : 4 * (n / 4) ≡ n = ground (arith, words) in
      let far : Apart d s (4 * (n / 4)) = subst (λ (l : ℕ). Apart d s l) (sym e) h in
      rw words (
        ap (λ (f : Bytes). f a) (copy_words-copy_bytes d s (n / 4) m far)
        ∙ ap (λ (l : ℕ). copy_bytes d s l m a) e
        ∙ copy_bytes-copied d s n m h a)
  | inr bytes ↦ rw bytes (copy_bytes-copied d s n m h a)
]
