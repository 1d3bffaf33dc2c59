-- ===== src/Keyboard/Codes.antt =====
-- The scan codes of a key, and the events that they become.
use bizcocho_os.Prelude.{
  ℕ, ◌+◌, ◌-◌, ◌%◌, ◌<◌, ◌≡◌, ◌≢◌, refl, Bool, true, false, List, [], ◌∷◌, ◌++◌, arith, ◌==◌,
  if◌then◌else◌, update,
}
use bizcocho_os.Prelude.Int.{ℤ, pos, negsuc}
use bizcocho_os.Kernel.{Kernel}
use bizcocho_os.Keyboard.{
  Action, pressed, released, Event, Keyboard, buffer_dim, index_mod, decode, put_event,
  keyboard_handler,
}

-- The codes that the keyboard sends: a special key has E0 in front, and a key that is let go has its top bit set.
abbrev pub codes_of : Bool → ℕ → Action → List ℕ
codes_of special k pressed = (if special then 224 ∷ [] else []) ++ (k ∷ [])
codes_of special k released = (if special then 224 ∷ [] else []) ++ ((k + 128) ∷ [])

-- The calls of the handler for the codes, in order.
abbrev pub feed : List ℕ → Keyboard → Kernel → Keyboard × Kernel
feed [] kb k = (kb, k)
feed (c ∷ cs) kb k = feed cs (keyboard_handler c kb k).0 (keyboard_handler c kb k).1

abbrev pub key_of : Bool → ℕ → ℤ
key_of special k = if special then negsuc (k - 1) else pos k

decode_lem :
    (special : Bool) (k : ℕ)
    → 0 < k
    → k < 128
    → (decode special k ≡ record { key = key_of special k; action = pressed })
      × (decode special (k + 128) ≡ record { key = key_of special k; action = released })
unfolding decode
decode_lem true k lo hi = (ground arith, ground arith)
decode_lem false k lo hi = (ground arith, ground arith)

handled :
    (c : ℕ) (special : Bool) (e : Event) (kb : Keyboard) (kernel : Kernel)
    → (c == 224) ≡ false
    → kb.special_key ≡ special
    → decode special c ≡ e
    → (keyboard_handler c kb kernel).0 ≡ put_event e kb
unfolding keyboard_handler
handled c special e kb kernel ne s d = rw (ne, s, d)

-- Where no E0 is pending, the codes of a key from 1 to 127, but 60 (hexadecimal), whose code when let go is E0, add one event
-- to the buffer: the key, a negative number for a special one, and whether it was pressed or let go.
pub keyboard_handler-decodes :
    (special : Bool) (k : ℕ) (a : Action) (kb : Keyboard) (kernel : Kernel)
    → 0 < k
    → k < 128
    → k ≢ 96
    → kb.special_key ≡ false
    → (feed (codes_of special k a) kb kernel).0 ≡ record kb {
      buffer =
          update kb.buffer
            (kb.writing_index % buffer_dim)
            (record { key = key_of special k; action = a });
      writing_index = (kb.writing_index + 1) % index_mod;
      special_key = false;
    }
unfolding keyboard_handler
keyboard_handler-decodes false k pressed kb kernel lo hi ne none_pending =
    handled k false _ kb kernel (ground arith) none_pending (decode_lem false k lo hi).0
keyboard_handler-decodes false k released kb kernel lo hi ne none_pending =
    handled (k + 128) false _ kb kernel (ground arith) none_pending (decode_lem false k lo hi).1
keyboard_handler-decodes true k pressed kb kernel lo hi ne none_pending =
    handled k true _ (record kb { special_key = true }) kernel (ground arith) refl
      (decode_lem true k lo hi).0
keyboard_handler-decodes true k released kb kernel lo hi ne none_pending =
    handled (k + 128) true _ (record kb { special_key = true }) kernel (ground arith) refl
      (decode_lem true k lo hi).1
