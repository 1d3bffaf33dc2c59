-- ===== src/Interrupts/Table.antt =====
-- Where the entries of the interrupt table lead.
use bizcocho_os.Prelude.{
  ℕ, ◌+◌, ◌*◌, ◌^◌, ◌<◌, ◌≡◌, refl, ◌==◌, if◌then◌else◌, Bool-cases, inl, inr, arith,
}
use bizcocho_os.Interrupts.{DescrInt, Idt, setup_idt_entry, Handlers, load_idt}

-- The address that the processor puts together.
abbrev pub offset_of : DescrInt → ℕ
offset_of e = e.offset_l + e.offset_m * 2 ^ 16 + e.offset_h * 2 ^ 32

-- The addresses are of 64 bits.
pub record AreAddresses (hs : Handlers) : Type 0 where
  pub irq_00 : hs.irq_00 < 2 ^ 64
  pub irq_01 : hs.irq_01 < 2 ^ 64
  pub syscall : hs.syscall < 2 ^ 64
  pub exception_0 : hs.exception_0 < 2 ^ 64
  pub exception_6 : hs.exception_6 < 2 ^ 64

setup_at :
    (index offset i : ℕ) (idt : Idt)
    → offset < 2 ^ 64
    → offset_of (setup_idt_entry index offset idt i)
      ≡ (if i == index then offset else offset_of (idt i))
unfolding setup_idt_entry
setup_at index offset i idt small = elim (Bool-cases (i == index)) [
  | inl here ↦ rw here (omega (arith, small))
  | inr other ↦ rw other refl
]

-- After `load_idt` the entries 0, 6, 32, 33 and 136 lead to the handlers of the exceptions, the timer, the keyboard and the
-- system calls, and every other entry where it led before.
pub load_idt-offset_of :
    (hs : Handlers) (idt : Idt) (i : ℕ)
    → AreAddresses hs
    → offset_of (load_idt hs idt i) ≡ (
        if i == 6
        then hs.exception_6
        else (if i == 0
            then hs.exception_0
            else (if i == 136
                then hs.syscall
                else (if i == 33
                    then hs.irq_01
                    else (if i == 32 then hs.irq_00 else offset_of (idt i))))))
unfolding load_idt
load_idt-offset_of hs idt i a =
    let t₁ = setup_idt_entry 32 hs.irq_00 idt in
    let t₂ = setup_idt_entry 33 hs.irq_01 t₁ in
    let t₃ = setup_idt_entry 136 hs.syscall t₂ in
    let t₄ = setup_idt_entry 0 hs.exception_0 t₃ in
    rw
      (
        setup_at 6 hs.exception_6 i t₄ a.exception_6,
        setup_at 0 hs.exception_0 i t₃ a.exception_0,
        setup_at 136 hs.syscall i t₂ a.syscall,
        setup_at 33 hs.irq_01 i t₁ a.irq_01,
        setup_at 32 hs.irq_00 i idt a.irq_00,
      )
      refl
