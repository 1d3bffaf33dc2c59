-- ===== src/Keyboard/Tests.antt =====
-- A line typed with a capital letter, from the scan codes to the characters.
use bizcocho_os.Prelude.{◌≡◌, ◌%◌, refl, true, false, [], ◌∷◌, arith, some, update}
use bizcocho_os.Prelude.Int.{pos}
use bizcocho_os.Kernel.{Kernel}
use bizcocho_os.Samples.{three, wrapping}
use bizcocho_os.Keyboard.{
  pressed, released, Keyboard, index_mod, buffer_dim, type_event, next_shifted, next_ctrld,
  read_printables, clean_buffer,
}
use bizcocho_os.Keyboard.Codes.{codes_of, feed, key_of, keyboard_handler-decodes}
use bizcocho_os.Keyboard.Waiting.{Gives, read_printables-Gives}

abbrev no_keys : Keyboard
no_keys = record {
  buffer = λ _. record { key = pos 0; action = released };
  reading_index = 127;
  writing_index = 127;
  shifted = false;
  ctrld = false;
  special_key = false;
}

abbrev a_kernel : Kernel
a_kernel = record { schedule = three; pipes = wrapping ∷ []; next_file_id = 8 }

-- Shift, A, Shift let go, B and Return.
abbrev with_line : Keyboard
with_line = record no_keys {
  buffer =
      update
        (update
          (update
            (update (update no_keys.buffer 127 (record { key = pos 42; action = pressed })) 0
              (record { key = pos 30; action = pressed }))
            1 (record { key = pos 42; action = released }))
          2 (record { key = pos 48; action = pressed }))
        3 (record { key = pos 28; action = pressed });
  writing_index = 132;
}

keyboard_handler-decodes_example :
    (feed (codes_of true 75 released) no_keys a_kernel).0 ≡ record no_keys {
      buffer =
          update no_keys.buffer
            (127 % buffer_dim)
            (record { key = key_of true 75; action = released });
      writing_index = 128 % index_mod;
    }
keyboard_handler-decodes_example =
    keyboard_handler-decodes true 75 released no_keys a_kernel (omega arith) (omega arith)
      (omega arith) refl

read_printables-Gives_example : Gives 9 with_line (read_printables 6 9 with_line)
read_printables-Gives_example =
    read_printables-Gives 6 9 with_line (omega arith) (omega arith) (omega arith)

typed_line :
    read_printables 6 9 with_line
    ≡ some (b'A' ∷ b'b' ∷ 10 ∷ [], record with_line { reading_index = 132 })
unfolding read_printables type_event next_shifted next_ctrld
typed_line = refl

cleaned : clean_buffer 6 with_line ≡ some (record with_line { reading_index = 132 })
unfolding clean_buffer
cleaned = refl
