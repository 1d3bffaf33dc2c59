-- ===== src/Keyboard.antt =====
-- The keyboard of Kernel/c/ipc/keyboard.c and Kernel/include/keyboard.h: the handler of its interrupt,
-- `readPrintables` and `cleanBuffer`. The scan code that `getScanCode` reads is an argument.
pub mod Codes
mod Uses
pub mod Waiting
mod Tests
use bizcocho_os.Prelude.{
  ℕ, zero, suc, ◌+◌, ◌-◌, ◌%◌, ◌^◌, Bool, not, true, false, ◌&&◌, ◌||◌, Option, none, some, List,
  [], ◌∷◌, ltb, ◌==◌, if◌then◌else◌, update,
}
use bizcocho_os.Prelude.Int.{ℤ, pos, negsuc, pos_part, neg_part, ◌+ℤ◌, ◌-ℤ◌, ltb_ℤ, eqb_ℤ}
use bizcocho_os.Blocking.{unblock_all}
use bizcocho_os.Kernel.{Kernel, read_reason}
use bizcocho_os.Life.{kill_all_in_death_list}

-- `printableKeys`; what is not written there is 0.
abbrev plain_keys : List ℕ
plain_keys =
    0 ∷ 0 ∷ b'1' ∷ b'2' ∷ b'3' ∷ b'4' ∷ b'5' ∷ b'6' ∷ b'7' ∷ b'8' ∷ b'9' ∷ b'0' ∷ 45 ∷ 61 ∷ 8 ∷ 9
    ∷ b'q' ∷ b'w' ∷ b'e' ∷ b'r' ∷ b't' ∷ b'y' ∷ b'u' ∷ b'i' ∷ b'o' ∷ b'p' ∷ 91 ∷ 93 ∷ 10 ∷ 0 ∷ b'a'
    ∷ b's' ∷ b'd' ∷ b'f' ∷ b'g' ∷ b'h' ∷ b'j' ∷ b'k' ∷ b'l' ∷ 59 ∷ 39 ∷ 96 ∷ 0 ∷ 92 ∷ b'z' ∷ b'x'
    ∷ b'c' ∷ b'v' ∷ b'b' ∷ b'n' ∷ b'm' ∷ 44 ∷ 46 ∷ 47 ∷ 0 ∷ 42 ∷ 0 ∷ 32 ∷ 0 ∷ 0 ∷ 0 ∷ 0 ∷ 0 ∷ 0 ∷ 0
    ∷ 0 ∷ 0 ∷ 0 ∷ 0 ∷ 0 ∷ 0 ∷ 0 ∷ 0 ∷ 0 ∷ 45 ∷ 0 ∷ 0 ∷ 0 ∷ 43 ∷ 0 ∷ []

abbrev shifted_keys : List ℕ
shifted_keys =
    0 ∷ 0 ∷ 33 ∷ 64 ∷ 35 ∷ 36 ∷ 37 ∷ 94 ∷ 38 ∷ 42 ∷ 40 ∷ 41 ∷ 95 ∷ 43 ∷ 8 ∷ 9 ∷ b'Q' ∷ b'W' ∷ b'E'
    ∷ b'R' ∷ b'T' ∷ b'Y' ∷ b'U' ∷ b'I' ∷ b'O' ∷ b'P' ∷ 123 ∷ 125 ∷ 10 ∷ 0 ∷ b'A' ∷ b'S' ∷ b'D'
    ∷ b'F' ∷ b'G' ∷ b'H' ∷ b'J' ∷ b'K' ∷ b'L' ∷ 58 ∷ 34 ∷ 126 ∷ 0 ∷ 124 ∷ b'Z' ∷ b'X' ∷ b'C' ∷ b'V'
    ∷ b'B' ∷ b'N' ∷ b'M' ∷ 60 ∷ 62 ∷ 63 ∷ 0 ∷ 42 ∷ 0 ∷ 32 ∷ 0 ∷ 0 ∷ 0 ∷ 0 ∷ 0 ∷ 0 ∷ 0 ∷ 0 ∷ 0 ∷ 0
    ∷ 0 ∷ 0 ∷ 0 ∷ 0 ∷ 0 ∷ 0 ∷ 45 ∷ 0 ∷ 0 ∷ 0 ∷ 43 ∷ 0 ∷ []

abbrev pub char_at : List ℕ → ℕ → ℕ
char_at [] i = 0
char_at (c ∷ cs) zero = c
char_at (c ∷ cs) (suc i) = char_at cs i

-- `printableKeys[shifted][key]`
unfoldable pub printable : Bool → ℕ → ℕ
printable shifted key = char_at (if shifted then shifted_keys else plain_keys) key

abbrev pub buffer_dim : ℕ
buffer_dim = 128

-- The keys of `key_t` that the code names.
abbrev vk_escape : ℤ
vk_escape = pos 1

abbrev vk_lcontrol : ℤ
vk_lcontrol = pos 29

abbrev vk_d : ℤ
vk_d = pos 32

abbrev vk_lshift : ℤ
vk_lshift = pos 42

abbrev vk_rshift : ℤ
vk_rshift = pos 54

abbrev vk_capital : ℤ
vk_capital = pos 58

abbrev vk_f1 : ℤ
vk_f1 = pos 59

abbrev vk_rcontrol : ℤ
vk_rcontrol = negsuc 28

-- `action_t`
pub data Action : Type 0 where
  pressed released : Action

abbrev pub is_pressed : Action → Bool
is_pressed pressed = true
is_pressed released = false

-- `kbEvent_t`
pub record Event : Type 0 where
  pub key : ℤ
  pub action : Action

-- The variables of the file. `shifted` and `ctrld` are 0 or 1.
pub record Keyboard : Type 0 where
  pub buffer : ℕ → Event
  pub reading_index : ℕ
  pub writing_index : ℕ
  pub shifted : Bool
  pub ctrld : Bool
  pub special_key : Bool

abbrev pub index_mod : ℕ
index_mod = 2 ^ 32

-- The event of a scan code, in `keyboard_handler`.
unfoldable pub decode : Bool → ℕ → Event
unfolding ◌+ℤ◌ ◌-ℤ◌
decode special scan_code =
    let code = if special then pos 0 -ℤ pos scan_code else pos scan_code in
    if ltb_ℤ (pos 128) code
    then record { key = code -ℤ pos 128; action = released }
    else (if ltb_ℤ code (negsuc 127)
        then record { key = code +ℤ pos 128; action = released }
        else record { key = code; action = pressed })

abbrev pub put_event : Event → Keyboard → Keyboard
put_event e kb = record kb {
  buffer = update kb.buffer (kb.writing_index % buffer_dim) e;
  writing_index = (kb.writing_index + 1) % index_mod;
  special_key = false;
}

-- `keyboard_handler`: the keyboard, the kernel, and whether the registers were saved.
unfoldable pub keyboard_handler : ℕ → Keyboard → Kernel → Keyboard × Kernel × Bool
keyboard_handler scan_code kb k =
    let e = decode kb.special_key scan_code in
    let killed =
      if eqb_ℤ e.key vk_escape && not (is_pressed e.action) then kill_all_in_death_list k else k in
    if scan_code == 224 then (record kb { special_key = true }, k, false) else (
      put_event e kb,
      record killed { schedule = unblock_all (read_reason 0) killed.schedule },
      eqb_ℤ e.key vk_f1,
    )

-- What one event does in the loop of `readPrintables`: nothing but a change of the keys held, a
-- character, or the end of the input, which Ctrl and D make.
pub data Typed : Type 0 where
  silent : Typed
  char : ℕ → Typed
  end_of_input : Typed

abbrev pub is_shift : ℤ → Bool
is_shift key = eqb_ℤ key vk_lshift || eqb_ℤ key vk_rshift

abbrev pub is_control : ℤ → Bool
is_control key = eqb_ℤ key vk_lcontrol || eqb_ℤ key vk_rcontrol

unfoldable pub type_event : Event → Bool → Bool → Typed
unfolding printable
type_event e shifted ctrld =
    let c = printable shifted (pos_part e.key) in
    if is_shift e.key || eqb_ℤ e.key vk_capital && is_pressed e.action || is_control e.key
    then silent
    else (if ltb_ℤ (pos 0) e.key && is_pressed e.action
        then (if ctrld && eqb_ℤ e.key vk_d
            then end_of_input
            else (if c == 0 then silent else char c))
        else silent)

-- `shifted` and `ctrld` behind the event.
unfoldable pub next_shifted : Event → Bool → Bool
next_shifted e shifted =
    if is_shift e.key || eqb_ℤ e.key vk_capital && is_pressed e.action then not shifted else shifted

unfoldable pub next_ctrld : Event → Bool → Bool
next_ctrld e ctrld =
    if (not (is_shift e.key) && not (eqb_ℤ e.key vk_capital && is_pressed e.action))
      && is_control e.key
    then not ctrld
    else ctrld

abbrev pub take_event : Event → Keyboard → Keyboard
take_event e kb = record kb {
  reading_index = (kb.reading_index + 1) % index_mod;
  shifted = next_shifted e kb.shifted;
  ctrld = next_ctrld e kb.ctrld;
}

abbrev pub first_event : Keyboard → Event
first_event kb = kb.buffer (kb.reading_index % buffer_dim)

abbrev pub add_char : ℕ → Option (List ℕ × Keyboard) → Option (List ℕ × Keyboard)
add_char c none = none
add_char c (some (cs, kb)) = some (c ∷ cs, kb)

-- The loop of `readPrintables` for `count` more characters; `none` is out of fuel.
unfoldable pub read_loop : ℕ → ℕ → Keyboard → Option (List ℕ × Keyboard)
read_loop zero count kb = none
read_loop (suc fuel) count kb =
    let e = first_event kb in
    let kb' = take_event e kb in
    let goes_on = λ (c : ℕ). add_char c (read_loop fuel (count - 1) kb') in
    if count == 0 || not (ltb kb.reading_index kb.writing_index)
    then some ([], kb)
    else elim (type_event e kb.shifted kb.ctrld) [
      | silent ↦ read_loop fuel count kb'
      | end_of_input ↦ some (0 ∷ [], kb')
      | char c ↦ if c == 10 then some (c ∷ [], kb') else goes_on c
    ]

-- `readPrintables`
unfoldable pub read_printables : ℕ → ℕ → Keyboard → Option (List ℕ × Keyboard)
unfolding read_loop
read_printables fuel count kb = read_loop fuel count kb

-- `shifted` and `ctrld` behind an event of `cleanBuffer`.
unfoldable pub clean_shifted : Event → Bool → Bool
clean_shifted e shifted =
    if is_shift e.key
    then is_pressed e.action
    else (if eqb_ℤ e.key vk_capital && is_pressed e.action then not shifted else shifted)

unfoldable pub clean_ctrld : Event → Bool → Bool
clean_ctrld e ctrld =
    if (not (is_shift e.key) && not (eqb_ℤ e.key vk_capital && is_pressed e.action))
      && is_control e.key
    then is_pressed e.action
    else ctrld

-- `cleanBuffer`
unfoldable pub clean_buffer : ℕ → Keyboard → Option Keyboard
unfolding clean_shifted clean_ctrld
clean_buffer zero kb = none
clean_buffer (suc fuel) kb =
    let e = first_event kb in
    let further = clean_buffer fuel (record kb {
      reading_index = (kb.reading_index + 1) % index_mod;
      shifted = clean_shifted e kb.shifted;
      ctrld = clean_ctrld e kb.ctrld;
    }) in
    if ltb kb.reading_index kb.writing_index then further else some kb
