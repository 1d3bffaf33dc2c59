-- ===== src/Keyboard/Uses.antt =====
-- What each key of Kernel/include/keyboard.h is for, apart from the loop of `readPrintables`.
use bizcocho_os.Prelude.{
  ℕ, ◌+◌, ltb, ◌≡◌, refl, Bool, true, false, not, ◌&&◌, ◌||◌, arith, ◌==◌, if◌then◌else◌,
  Bool-cases, inl, inr, ◌⊎◌,
}
use bizcocho_os.Prelude.Int.{ℤ, pos, negsuc}
use bizcocho_os.Keyboard.{
  Event, Action, pressed, released, printable, Typed, silent, char, end_of_input, type_event,
  next_shifted, next_ctrld,
}

-- What a key is, by its number; a special key's is negative.
pub data Use : Type 0 where
  shift_key caps_lock control_key special_key : Use
  plain_key : ℕ → Use

abbrev pub use_of : ℤ → Use
use_of (negsuc n) = if n == 28 then control_key else special_key
use_of (pos n) =
    if n == 42 || n == 54
    then shift_key
    else (if n == 58 then caps_lock else (if n == 29 then control_key else plain_key n))

-- A character, unless it is 0, which stands for none.
abbrev pub some_char : ℕ → Typed
some_char c = if c == 0 then silent else char c

-- What a key types: only a plain key does, when it is pressed; with Ctrl held D ends the input.
abbrev pub types : Use → Action → Bool → Bool → Typed
types (plain_key n) pressed shifted false = some_char (printable shifted n)
types (plain_key n) pressed shifted true =
    if n == 32 then end_of_input else some_char (printable shifted n)
types _ _ _ _ = silent

-- Shift and Ctrl turn over when they are pressed and when they are let go, Caps Lock only when it is pressed.
abbrev pub turns_shift : Use → Action → Bool
turns_shift shift_key a = true
turns_shift caps_lock pressed = true
turns_shift _ _ = false

abbrev pub turns_ctrl : Use → Bool
turns_ctrl control_key = true
turns_ctrl _ = false

abbrev pub turned : Bool → Bool → Bool
turned true held = not held
turned false held = held

abbrev event : ℤ → Action → Event
event key a = record { key = key; action = a }

-- The keys that are not plain, and the others.
abbrev Kind : ℕ → Type 0
Kind n =
    (n ≡ 42)
    ⊎ (n ≡ 54)
    ⊎ (n ≡ 58)
    ⊎ (n ≡ 29)
    ⊎ (((n == 42) ≡ false) × ((n == 54) ≡ false) × ((n == 58) ≡ false) × ((n == 29) ≡ false))

kind : (n : ℕ) → Kind n
kind n = ground arith

zero-types :
    (n : ℕ) (s c : Bool)
    → n ≡ 0
    → type_event (event (pos n) pressed) s c ≡ types (plain_key n) pressed s c
unfolding type_event printable
zero-types n true true e = rw e refl
zero-types n true false e = rw e refl
zero-types n false true e = rw e refl
zero-types n false false e = rw e refl

pressed-tree :
    (n x : ℕ) (c : Bool)
    → ((n == 42) ≡ false) × ((n == 54) ≡ false) × ((n == 58) ≡ false) × ((n == 29) ≡ false)
    → (n == 0) ≡ false
    → (if n + 0 == 42 || n + 0 == 54 || n + 0 == 58 && true || (n + 0 == 29 || n + 29 == 0)
        then silent
        else (if ltb 0 (n + 0) && true
            then (if c && n + 0 == 32 then end_of_input else (if x == 0 then silent else char x))
            else silent))
      ≡ (if c && n == 32 then end_of_input else (if x == 0 then silent else char x))
pressed-tree n x c (h, i, j, k) some = ground arith

pressed-types :
    (n : ℕ) (s c : Bool)
    → ((n == 42) ≡ false) × ((n == 54) ≡ false) × ((n == 58) ≡ false) × ((n == 29) ≡ false)
    → (n == 0) ≡ false
    → type_event (event (pos n) pressed) s c ≡ types (plain_key n) pressed s c
unfolding type_event
pressed-types n s true keys some = pressed-tree n (printable s n) true keys some
pressed-types n s false keys some = pressed-tree n (printable s n) false keys some

plain-types :
    (n : ℕ) (a : Action) (s c : Bool)
    → ((n == 42) ≡ false) × ((n == 54) ≡ false) × ((n == 58) ≡ false) × ((n == 29) ≡ false)
    → type_event (event (pos n) a) s c ≡ types (plain_key n) a s c
unfolding type_event
plain-types n released s c (h, i, j, k) = ground arith
plain-types n pressed s c (h, i, j, k) = elim (Bool-cases (n == 0)) [
  | inl none ↦ zero-types n s c (ground arith)
  | inr some ↦ pressed-types n s c (h, i, j, k) some
]

caps_lock-types :
    (n : ℕ) (a : Action) (s c : Bool)
    → n ≡ 58
    → type_event (event (pos n) a) s c ≡ types (use_of (pos n)) a s c
unfolding type_event
caps_lock-types n pressed s c e = rw e refl
caps_lock-types n released s c e = rw e refl

key-types :
    (key : ℤ) (a : Action) (s c : Bool) → type_event (event key a) s c ≡ types (use_of key) a s c
unfolding type_event
key-types (negsuc n) pressed s c = elim (Bool-cases (n == 28)) [
  | inl h ↦ ground arith
  | inr h ↦ ground arith
]
key-types (negsuc n) released s c = elim (Bool-cases (n == 28)) [
  | inl h ↦ ground arith
  | inr h ↦ ground arith
]
key-types (pos n) a s c = elim (kind n) [
  | inl h ↦ rw h refl
  | inr (inl h) ↦ rw h refl
  | inr (inr (inl h)) ↦ caps_lock-types n a s c h
  | inr (inr (inr (inl h))) ↦ rw h refl
  | inr (inr (inr (inr (h, i, j, k)))) ↦ rw (h, i, j, k) (plain-types n a s c (h, i, j, k))
]

key-shifted :
    (key : ℤ) (a : Action) (s : Bool)
    → next_shifted (event key a) s ≡ turned (turns_shift (use_of key) a) s
unfolding next_shifted
key-shifted (negsuc n) a s = elim (Bool-cases (n == 28)) [
  | inl h ↦ ground arith
  | inr h ↦ ground arith
]
key-shifted (pos n) pressed s = ground arith
key-shifted (pos n) released s = ground arith

key-ctrld :
    (key : ℤ) (a : Action) (c : Bool)
    → next_ctrld (event key a) c ≡ turned (turns_ctrl (use_of key)) c
unfolding next_ctrld
key-ctrld (negsuc n) a s = elim (Bool-cases (n == 28)) [
  | inl h ↦ ground arith
  | inr h ↦ ground arith
]
key-ctrld (pos n) a s = ground arith

pub type_event-types :
    (e : Event) (s c : Bool) → type_event e s c ≡ types (use_of e.key) e.action s c
type_event-types e s c = key-types e.key e.action s c

pub next_shifted-turned :
    (e : Event) (s : Bool) → next_shifted e s ≡ turned (turns_shift (use_of e.key) e.action) s
next_shifted-turned e s = key-shifted e.key e.action s

pub next_ctrld-turned :
    (e : Event) (c : Bool) → next_ctrld e c ≡ turned (turns_ctrl (use_of e.key)) c
next_ctrld-turned e c = key-ctrld e.key e.action c
