-- ===== src/Keyboard/Waiting.antt =====
-- `readPrintables` as a reading of the events that wait.
use bizcocho_os.Prelude.{
  ℕ, zero, suc, ◌+◌, ◌-◌, ◌%◌, ◌^◌, ◌≤◌, ◌<◌, ◌≡◌, refl, sym, ap, ◌∙◌, Bool, true, false, Option,
  none, some, List, [], ◌∷◌, arith, ltb, ◌==◌, if◌then◌else◌, length, inl, inr, Bool-cases,
}
use mathlib.Core.Path.{subst}
use bizcocho_os.Keyboard.Uses.{
  use_of, types, turns_shift, turns_ctrl, turned, type_event-types, next_shifted-turned,
  next_ctrld-turned,
}
use bizcocho_os.Keyboard.{
  Event, Keyboard, buffer_dim, Typed, silent, char, end_of_input, type_event, next_shifted,
  next_ctrld, take_event, first_event, add_char, read_loop, read_printables,
}

-- The events from the index `r` on, `n` of them.
abbrev pub events : (ℕ → Event) → ℕ → ℕ → List Event
events f r zero = []
events f r (suc n) = f (r % buffer_dim) ∷ events f (r + 1) n

abbrev pub waiting : Keyboard → List Event
waiting kb = events kb.buffer kb.reading_index (kb.writing_index - kb.reading_index)

-- What `count` characters at most are read of the events: the characters, the keys held behind them,
-- and the events that are left.
abbrev pub typed_text : List Event → ℕ → Bool → Bool → List ℕ × Bool × Bool × List Event
typed_text [] count shifted ctrld = ([], shifted, ctrld, [])
typed_text (e ∷ es) zero shifted ctrld = ([], shifted, ctrld, e ∷ es)
typed_text (e ∷ es) (suc n) shifted ctrld =
    let s = turned (turns_shift (use_of e.key) e.action) shifted in
    let c = turned (turns_ctrl (use_of e.key)) ctrld in
    elim (types (use_of e.key) e.action shifted ctrld) [
      | silent ↦ typed_text es (suc n) s c
      | end_of_input ↦ (0 ∷ [], s, c, es)
      | char x ↦
          let (xs, s', c', left) = typed_text es n s c in
          if x == 10 then (x ∷ [], s, c, es) else (x ∷ xs, s', c', left)
    ]

-- What `readPrintables` gives.
abbrev pub Gives : ℕ → Keyboard → Option (List ℕ × Keyboard) → Type 0
Gives count kb none = ⊥
Gives count kb (some (cs, kb')) =
    ((cs, kb'.shifted, kb'.ctrld, waiting kb') ≡ typed_text (waiting kb) count kb.shifted kb.ctrld)
    × (length cs ≤ count)
    × (kb.reading_index ≤ kb'.reading_index)
    × (kb'.reading_index ≤ kb'.writing_index)
    × (kb'.writing_index ≡ kb.writing_index)

after : Keyboard → Keyboard
after kb = take_event (first_event kb) kb

typed_text-zero : (es : List Event) (s c : Bool) → typed_text es 0 s c ≡ ([], s, c, es)
typed_text-zero [] s c = refl
typed_text-zero (e ∷ es) s c = refl

waiting-after :
    (n : ℕ) (kb : Keyboard)
    → kb.writing_index ≡ kb.reading_index + suc n
    → kb.writing_index < 2 ^ 32
    → waiting kb ≡ first_event kb ∷ waiting (after kb)
unfolding after
waiting-after n kb e small =
    let left : kb.writing_index - kb.reading_index ≡ suc n = omega arith in
    let next : (kb.reading_index + 1) % 4294967296 ≡ kb.reading_index + 1 = omega arith in
    let left' : kb.writing_index - (kb.reading_index + 1) ≡ n = omega arith in
    rw (left, next, left')

read_on : Bool → ℕ → ℕ → Bool → Bool → List Event → List ℕ × Bool × Bool × List Event
read_on ends x n s c es =
    let (xs, s', c', left) = typed_text es n s c in
    if ends then (x ∷ [], s, c, es) else (x ∷ xs, s', c', left)

text_of : Typed → List Event → ℕ → Bool → Bool → List ℕ × Bool × Bool × List Event
text_of silent es n s c = typed_text es (suc n) s c
text_of end_of_input es n s c = (0 ∷ [], s, c, es)
text_of (char x) es n s c = read_on (x == 10) x n s c es

read_of : Typed → ℕ → ℕ → Keyboard → Option (List ℕ × Keyboard)
read_of silent fuel m kb = read_loop fuel (suc m) kb
read_of end_of_input fuel m kb = some (0 ∷ [], kb)
read_of (char x) fuel m kb = if x == 10 then some (x ∷ [], kb) else add_char x (read_loop fuel m kb)

typed_text-step :
    (t : Typed) (m : ℕ) (e : Event) (es : List Event) (s c : Bool)
    → type_event e s c ≡ t
    → typed_text (e ∷ es) (suc m) s c ≡ text_of t es m (next_shifted e s) (next_ctrld e c)
unfolding text_of read_on
typed_text-step silent m e es s c is =
    rw (
      next_shifted-turned e s,
      next_ctrld-turned e c,
      sym (type_event-types e s c) ∙ is,
      typed_text,
    )
typed_text-step end_of_input m e es s c is =
    rw (
      next_shifted-turned e s,
      next_ctrld-turned e c,
      sym (type_event-types e s c) ∙ is,
      typed_text,
    )
typed_text-step (char x) m e es s c is =
    rw (
      next_shifted-turned e s,
      next_ctrld-turned e c,
      sym (type_event-types e s c) ∙ is,
      typed_text,
    )

reading-after :
    (n : ℕ) (kb : Keyboard)
    → kb.writing_index ≡ kb.reading_index + suc n
    → kb.writing_index < 2 ^ 32
    → (after kb).reading_index ≡ kb.reading_index + 1
unfolding after
reading-after n kb e small =
    let next : (kb.reading_index + 1) % 4294967296 ≡ kb.reading_index + 1 = omega arith in next

silent-Gives :
    (count : ℕ) (kb : Keyboard) (res : Option (List ℕ × Keyboard))
    → (after kb).reading_index ≡ kb.reading_index + 1
    → typed_text (waiting kb) count kb.shifted kb.ctrld
      ≡ typed_text (waiting (after kb)) count (after kb).shifted (after kb).ctrld
    → Gives count (after kb) res
    → Gives count kb res
unfolding after
silent-Gives count kb none r text h = h
silent-Gives count kb (some (cs, kb')) r text (h, n, lo, hi, w) =
    (h ∙ sym text, n, ground (arith, r, lo), hi, w)

last-Gives :
    (x m : ℕ) (kb : Keyboard)
    → (after kb).reading_index ≡ kb.reading_index + 1
    → kb.reading_index < kb.writing_index
    → typed_text (waiting kb) (suc m) kb.shifted kb.ctrld
      ≡ (x ∷ [], (after kb).shifted, (after kb).ctrld, waiting (after kb))
    → Gives (suc m) kb (some (x ∷ [], after kb))
unfolding after
last-Gives x m kb r more text =
    let hi : (kb.reading_index + 1) % 4294967296 ≤ kb.writing_index = omega (arith, r, more) in
    (sym text, omega arith, omega (arith, r), hi, refl)

char-Gives :
    (x m : ℕ) (kb : Keyboard) (res : Option (List ℕ × Keyboard))
    → (after kb).reading_index ≡ kb.reading_index + 1
    → typed_text (waiting kb) (suc m) kb.shifted kb.ctrld
      ≡ read_on false x m (after kb).shifted (after kb).ctrld (waiting (after kb))
    → Gives m (after kb) res
    → Gives (suc m) kb (add_char x res)
unfolding after read_on
char-Gives x m kb none r text h = h
char-Gives x m kb (some (cs, kb')) r text (h, n, lo, hi, w) = (
  ap (λ t. (x ∷ t.0, t.1, t.2, t.3)) h ∙ sym text,
  ground (arith, n),
  ground (arith, r, lo),
  hi,
  w,
)

read_of-Gives :
    (t : Typed) (fuel n m : ℕ) (kb : Keyboard)
    → kb.writing_index ≡ kb.reading_index + suc n
    → kb.writing_index < 2 ^ 32
    → typed_text (waiting kb) (suc m) kb.shifted kb.ctrld
      ≡ text_of t (waiting (after kb)) m (after kb).shifted (after kb).ctrld
    → ((count : ℕ) → Gives count (after kb) (read_loop fuel count (after kb)))
    → Gives (suc m) kb (read_of t fuel m (after kb))
unfolding text_of read_of read_on
read_of-Gives silent fuel n m kb e small text ih =
    silent-Gives (suc m) kb _ (reading-after n kb e small) text (ih (suc m))
read_of-Gives end_of_input fuel n m kb e small text ih =
    last-Gives 0 m kb (reading-after n kb e small) (ground arith) text
read_of-Gives (char x) fuel n m kb e small text ih =
    let r = reading-after n kb e small in
    let a : Bool × Bool × List Event = ((after kb).shifted, (after kb).ctrld, waiting (after kb)) in
    elim (Bool-cases (x == 10)) [
      | inl ends ↦
          rw ends
            (last-Gives x m kb r (ground arith) (text ∙ ap (λ b. read_on b x m a.0 a.1 a.2) ends))
      | inr goes_on ↦
          rw goes_on
            (char-Gives x m kb _ r (text ∙ ap (λ b. read_on b x m a.0 a.1 a.2) goes_on) (ih m))
    ]

suc-not_zero : (m : ℕ) → (suc m == 0) ≡ false
suc-not_zero m = ground arith

suc-pred : (m : ℕ) → suc m - 1 ≡ m
suc-pred m = omega arith

read_loop-step :
    (t : Typed) (fuel m : ℕ) (kb : Keyboard)
    → ltb kb.reading_index kb.writing_index ≡ true
    → type_event (first_event kb) kb.shifted kb.ctrld ≡ t
    → read_loop (suc fuel) (suc m) kb ≡ read_of t fuel m (after kb)
unfolding read_loop read_of after
read_loop-step silent fuel m kb more is = rw (suc-not_zero m, more, is)
read_loop-step end_of_input fuel m kb more is = rw (suc-not_zero m, more, is)
read_loop-step (char x) fuel m kb more is = rw (suc-not_zero m, more, is, suc-pred m)

read_loop-Gives :
    (fuel n count : ℕ) (kb : Keyboard)
    → kb.writing_index ≡ kb.reading_index + n
    → kb.writing_index < 2 ^ 32
    → n < fuel
    → Gives count kb (read_loop fuel count kb)
unfolding read_loop after
read_loop-Gives zero n count kb e small enough = absurd (omega arith)
read_loop-Gives (suc fuel) n zero kb e small enough = (
  sym (typed_text-zero (waiting kb) kb.shifted kb.ctrld),
  omega arith,
  omega arith,
  omega arith,
  refl,
)
read_loop-Gives (suc fuel) zero (suc m) kb e small enough =
    let none_left : kb.writing_index - kb.reading_index ≡ 0 = omega arith in
    let stops : ltb kb.reading_index kb.writing_index ≡ false = ground arith in
    rw (stops, suc-not_zero m) (rw none_left (refl, omega arith, omega arith, omega arith, refl))
read_loop-Gives (suc fuel) (suc n) (suc m) kb e small enough =
    let ev = first_event kb in
    let still : (after kb).writing_index ≡ kb.writing_index = refl in
    let more : ltb kb.reading_index kb.writing_index ≡ true = ground arith in
    let r = reading-after n kb e small in
    let rest =
      λ (c : ℕ). read_loop-Gives fuel n c (after kb) (still ∙ omega arith) small (omega arith) in
    let text =
      ap (λ es. typed_text es (suc m) kb.shifted kb.ctrld) (waiting-after n kb e small)
      ∙ typed_text-step (type_event ev kb.shifted kb.ctrld) m ev (waiting (after kb)) kb.shifted
          kb.ctrld refl in
    subst (Gives (suc m) kb) (sym (read_loop-step _ fuel m kb more refl))
      (read_of-Gives _ fuel n m kb e small text rest)

-- Where the indexes have not wrapped, `readPrintables` returns with one step more than events wait, and gives what
-- `typed_text` says of the waiting events: the characters, at most `count`, and the keys held; the
-- events that it did not take still wait, and the writing index is as it was.
pub read_printables-Gives :
    (fuel count : ℕ) (kb : Keyboard)
    → kb.reading_index ≤ kb.writing_index
    → kb.writing_index < 2 ^ 32
    → kb.writing_index - kb.reading_index < fuel
    → Gives count kb (read_printables fuel count kb)
unfolding read_printables
read_printables-Gives fuel count kb le small enough =
    read_loop-Gives fuel (kb.writing_index - kb.reading_index) count kb (omega arith) small enough
