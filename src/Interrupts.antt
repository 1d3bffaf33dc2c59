-- ===== src/Interrupts.antt =====
-- The table of interrupts of Kernel/c/kernel_load/idtLoader.c, the dispatch of Kernel/c/main/irqDispatcher.c and
-- exceptions.c, and the text of the registers in registers.c. The addresses of the handlers, which are assembly, and what
-- the hardware gives are arguments. What is passed to `write` for the error output is a list of strings.
pub mod Table
pub mod Registers
mod Tests
use bizcocho_os.Prelude.{
  ℕ, zero, suc, ◌+◌, ◌-◌, ◌*◌, ◌/◌, ◌%◌, ◌^◌, Option, none, some, List, [], ◌∷◌, ◌++◌, ◌==◌,
  if◌then◌else◌, update, get_elem?,
}
use bizcocho_os.Process.{Schedule}
use bizcocho_os.Scheduler.{Switch}
use bizcocho_os.Kernel.{Kernel}
use bizcocho_os.Life.{exit}
use bizcocho_os.Time.{Clock, timer_handler}
use bizcocho_os.Keyboard.{Keyboard, keyboard_handler}
use bizcocho_os.Text.{convert}

-- `DESCR_INT`, less the two fields that are 0.
pub record DescrInt : Type 0 where
  pub offset_l : ℕ
  pub selector : ℕ
  pub access : ℕ
  pub offset_m : ℕ
  pub offset_h : ℕ

-- `ACS_INT`
abbrev pub acs_int : ℕ
acs_int = 142

abbrev pub Idt : Type 0
Idt = ℕ → DescrInt

-- `setup_IDT_entry`
unfoldable pub setup_idt_entry : ℕ → ℕ → Idt → Idt
setup_idt_entry index offset idt = update idt index (record {
  offset_l = offset % 2 ^ 16;
  selector = 8;
  access = acs_int;
  offset_m = offset / 2 ^ 16 % 2 ^ 16;
  offset_h = offset / 2 ^ 32 % 2 ^ 32;
})

-- The handlers of interrupts.asm.
pub record Handlers : Type 0 where
  pub irq_00 : ℕ
  pub irq_01 : ℕ
  pub syscall : ℕ
  pub exception_0 : ℕ
  pub exception_6 : ℕ

-- `load_idt`, less the masks.
unfoldable pub load_idt : Handlers → Idt → Idt
unfolding setup_idt_entry
load_idt hs idt = setup_idt_entry 6 hs.exception_6 (
    setup_idt_entry 0 hs.exception_0 (
      setup_idt_entry 136 hs.syscall
        (setup_idt_entry 33 hs.irq_01 (setup_idt_entry 32 hs.irq_00 idt))))

-- What the two interrupts work on.
pub record Machine : Type 0 where
  pub clock : Clock
  pub keyboard : Keyboard
  pub kernel : Kernel

abbrev pub tick : ℕ → Machine → Machine × Option Switch
tick rsp mc =
    let (clock, o) = timer_handler rsp mc.clock mc.kernel.schedule in
    elim o [
      | none ↦ (record mc { clock = clock }, none)
      | some r ↦
          (record mc { clock = clock; kernel = record (mc.kernel) { schedule = r.0 } }, some r.1)
    ]

abbrev pub press : ℕ → Machine → Machine
press scan_code mc =
    let (keyboard, kernel, _) = keyboard_handler scan_code mc.keyboard mc.kernel in
    record mc { keyboard = keyboard; kernel = kernel }

-- `irqDispatcher`, for the stack pointer and the scan code that the handlers find: the machine, and what the
-- scheduler does in the end.
unfoldable pub irq_dispatcher : (irq rsp scan_code : ℕ) → Machine → Machine × Option Switch
irq_dispatcher irq rsp scan_code mc =
    if irq == 0 then tick rsp mc else (if irq == 1 then (press scan_code mc, none) else (mc, none))

-- `registerNames`
unfoldable pub register_names : List (List ℕ)
register_names =
    (b'e' ∷ b'f' ∷ b'l' ∷ b'a' ∷ b'g' ∷ b's' ∷ b' ' ∷ b' ' ∷ [])
    ∷ (b'r' ∷ b's' ∷ b'p' ∷ b' ' ∷ b' ' ∷ [])
    ∷ (b'r' ∷ b'i' ∷ b'p' ∷ b' ' ∷ b' ' ∷ [])
    ∷ (b'r' ∷ b'1' ∷ b'5' ∷ b' ' ∷ b' ' ∷ [])
    ∷ (b'r' ∷ b'1' ∷ b'4' ∷ b' ' ∷ b' ' ∷ [])
    ∷ (b'r' ∷ b'1' ∷ b'3' ∷ b' ' ∷ b' ' ∷ [])
    ∷ (b'r' ∷ b'1' ∷ b'2' ∷ b' ' ∷ b' ' ∷ [])
    ∷ (b'r' ∷ b'1' ∷ b'1' ∷ b' ' ∷ b' ' ∷ [])
    ∷ (b'r' ∷ b'1' ∷ b'0' ∷ b' ' ∷ b' ' ∷ [])
    ∷ (b'r' ∷ b'9' ∷ b' ' ∷ b' ' ∷ [])
    ∷ (b'r' ∷ b'8' ∷ b' ' ∷ b' ' ∷ [])
    ∷ (b'r' ∷ b's' ∷ b'i' ∷ b' ' ∷ b' ' ∷ [])
    ∷ (b'r' ∷ b'd' ∷ b'i' ∷ b' ' ∷ b' ' ∷ [])
    ∷ (b'r' ∷ b'b' ∷ b'p' ∷ b' ' ∷ b' ' ∷ [])
    ∷ (b'r' ∷ b'd' ∷ b'x' ∷ b' ' ∷ b' ' ∷ [])
    ∷ (b'r' ∷ b'c' ∷ b'x' ∷ b' ' ∷ b' ' ∷ [])
    ∷ (b'r' ∷ b'b' ∷ b'x' ∷ b' ' ∷ b' ' ∷ [])
    ∷ (b'r' ∷ b'a' ∷ b'x' ∷ b' ' ∷ b' ' ∷ [])
    ∷ []

abbrev pub register_name : ℕ → List ℕ
register_name i = elim (get_elem? register_names i) [ none ↦ [] | some name ↦ name ]

-- `HALF`
abbrev pub register_half : ℕ
register_half = 2 ^ 32

-- `printRegAux`
unfoldable pub print_reg_aux : (ℕ → ℕ) → ℕ → List (List ℕ)
print_reg_aux registers index =
    register_name index
    ∷ (b'=' ∷ b' ' ∷ b' ' ∷ b'0' ∷ b'x' ∷ [])
    ∷ convert (registers index / register_half) 16 8
    ∷ convert (registers index % register_half) 16 8
    ∷ (b'\n' ∷ [])
    ∷ []

-- The loop of `printRegisters`, down from the last one.
unfoldable pub print_registers_from : ℕ → (ℕ → ℕ) → List (List ℕ)
unfolding print_reg_aux
print_registers_from zero registers = []
print_registers_from (suc i) registers =
    print_reg_aux registers i ++ print_registers_from i registers

-- `printRegisters`
unfoldable pub print_registers : (ℕ → ℕ) → List (List ℕ)
unfolding print_registers_from
print_registers registers = print_registers_from 18 registers

abbrev pub zero_division_message : List ℕ
zero_division_message =
    b'A' ∷ b'n' ∷ b' ' ∷ b'e' ∷ b'r' ∷ b'r' ∷ b'o' ∷ b'r' ∷ b' ' ∷ b'o' ∷ b'c' ∷ b'c' ∷ b'u' ∷ b'r'
    ∷ b'r' ∷ b'e' ∷ b'd' ∷ b':' ∷ b' ' ∷ b'd' ∷ b'i' ∷ b'v' ∷ b'i' ∷ b's' ∷ b'i' ∷ b'o' ∷ b'n'
    ∷ b' ' ∷ b'b' ∷ b'y' ∷ b' ' ∷ b'z' ∷ b'e' ∷ b'r' ∷ b'o' ∷ b' ' ∷ b'e' ∷ b'x' ∷ b'c' ∷ b'e'
    ∷ b'p' ∷ b't' ∷ b'i' ∷ b'o' ∷ b'n' ∷ b'!' ∷ b' ' ∷ b'\n' ∷ []

abbrev pub invalid_opcode_message : List ℕ
invalid_opcode_message =
    b'A' ∷ b'n' ∷ b' ' ∷ b'e' ∷ b'r' ∷ b'r' ∷ b'o' ∷ b'r' ∷ b' ' ∷ b'o' ∷ b'c' ∷ b'c' ∷ b'u' ∷ b'r'
    ∷ b'r' ∷ b'e' ∷ b'd' ∷ b':' ∷ b' ' ∷ b'i' ∷ b'n' ∷ b'v' ∷ b'a' ∷ b'l' ∷ b'i' ∷ b'd' ∷ b' '
    ∷ b'o' ∷ b'p' ∷ b'c' ∷ b'o' ∷ b'd' ∷ b'e' ∷ b' ' ∷ b'e' ∷ b'x' ∷ b'c' ∷ b'e' ∷ b'p' ∷ b't'
    ∷ b'i' ∷ b'o' ∷ b'n' ∷ b'!' ∷ b' ' ∷ b'\n' ∷ []

-- `exceptionDispatcher`: what is written, and the process that runs has ended with 100 and the exception's number.
unfoldable pub exception_dispatcher : ℕ → (ℕ → ℕ) → Kernel → List (List ℕ) × Kernel
unfolding print_registers
exception_dispatcher exception registers k =
    if exception == 0
    then (zero_division_message ∷ print_registers registers, exit 100 k)
    else (if exception == 6
        then (invalid_opcode_message ∷ print_registers registers, exit 106 k)
        else ([], k))
