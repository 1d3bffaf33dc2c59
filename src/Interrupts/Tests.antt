-- ===== src/Interrupts/Tests.antt =====
-- A table, and the text of a register.
use bizcocho_os.Prelude.{◌+◌, ◌≡◌, false, arith}
use bizcocho_os.Text.{xtou64}
use bizcocho_os.Interrupts.{Idt, Handlers, load_idt, print_reg_aux}
use bizcocho_os.Interrupts.Table.{offset_of, AreAddresses, load_idt-offset_of}
use bizcocho_os.Interrupts.Registers.{hex_of, print_reg_aux-xtou64}

abbrev handlers : Handlers
handlers = record {
  irq_00 = 1048576;
  irq_01 = 1048640;
  syscall = 1048704;
  exception_0 = 1048768;
  exception_6 = 1048832;
}

abbrev empty : Idt
empty = λ _. record { offset_l = 0; selector = 0; access = 0; offset_m = 0; offset_h = 0 }

handlers-AreAddresses : AreAddresses handlers
handlers-AreAddresses = record {
  irq_00 = omega arith;
  irq_01 = omega arith;
  syscall = omega arith;
  exception_0 = omega arith;
  exception_6 = omega arith;
}

load_idt-offset_of_example : offset_of (load_idt handlers empty 33) ≡ 1048640
load_idt-offset_of_example = load_idt-offset_of handlers empty 33 handlers-AreAddresses

print_reg_aux-xtou64_example :
    xtou64 (hex_of (print_reg_aux (λ i. 81985529216486895 + i) 4)) ≡ (false, 81985529216486899)
print_reg_aux-xtou64_example = print_reg_aux-xtou64 (λ i. 81985529216486895 + i) 4 (omega arith)
