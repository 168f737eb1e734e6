-- ===== src/System/Entry.antt =====
-- The interrupt of the calls that programs make to the kernel: `syscall_init` of kernel/syscall/syscall.c.
use bitch.Base.{
  ℕ, ◌*◌, ◌<◌, ◌≡◌, refl, ◌∙◌, ap, inl, inr, arith, false, ◌&&◌, Option, none, some, List, ltb, leb,
  ◌==◌, if◌then◌else◌, Bool-cases, ==→eq, update,
}
use bitch.Descriptor.{
  GateDescriptor, idt_attribute, set_gate_descriptor, gate_attribute, gdt_kernel_code_index,
}
use bitch.Interrupt.{
  IntrRegs, Handler, own, isr_handler, irq_handler, Interrupts, run, enter, int_handler,
  reg_intr_handler,
}
use bitch.Interrupt.Vectors.{intr_init-IsStarted}
use bitch.Interrupt.Registration.{registered}
use bitch.Interrupt.Delivery.{delivered, prepared, prepared-Registered, int_handler_cases}
use bitch.System.{syscall_int}

-- DESC_DPL3
abbrev desc_dpl3 : ℕ
desc_dpl3 = 0x60

gate_here :
    (list : ℕ → GateDescriptor) (k offset : ℕ)
    → k ≡ syscall_int
    → list k ≡ set_gate_descriptor (8 * gdt_kernel_code_index) offset gate_attribute
    → idt_attribute list syscall_int desc_dpl3 k
      ≡ set_gate_descriptor (8 * gdt_kernel_code_index) offset 0xee
unfolding idt_attribute update set_gate_descriptor
gate_here list k offset here old =
    let this : list syscall_int
        ≡ set_gate_descriptor (8 * gdt_kernel_code_index) offset gate_attribute =
      rw here at old in
    rw (here, this) refl

gate_other :
    (list : ℕ → GateDescriptor) (k : ℕ)
    → (k == syscall_int) ≡ false
    → idt_attribute list syscall_int desc_dpl3 k ≡ list k
unfolding idt_attribute update
gate_other list k other = rw other refl

module _ {S : Type 0} where
  unfoldable pub syscall_init : Handler S → Interrupts S → Interrupts S
  syscall_init handler s = record s {
    idt_list = idt_attribute s.idt_list syscall_int desc_dpl3;
    intr_handler_list = reg_intr_handler s.intr_handler_list syscall_int (some (own handler));
  }

  int_handler-own :
      (t : Interrupts S) (handler : Handler S) (regs : IntrRegs)
      → t.intr_handler_list regs.int_code ≡ some (own handler)
      → int_handler t regs ≡ run t handler regs
  unfolding int_handler enter
  int_handler-own t handler regs at = ap (λ h. enter t h regs) at

  module _ (idt : ℕ) (stub : ℕ → ℕ) (s0 : Interrupts S) (user : Option (Handler S))
      (rs : List (ℕ × Option (Handler S))) (handler : Handler S) where
    abbrev pub serving : Interrupts S
    serving = syscall_init handler (prepared idt stub s0 user rs)

    serving_handlers :
        (k : ℕ)
        → k < 0x100
        → serving.intr_handler_list k ≡ (
            if k == 0xbe
            then some (own handler)
            else if ltb k 0x14
            then some isr_handler
            else if leb 0x20 k && ltb k 0x30
            then some irq_handler
            else none)
    unfolding syscall_init reg_intr_handler update
    serving_handlers k byte =
        let r = prepared-Registered idt stub s0 user rs in
        let old =
          ap (λ list. list k) r.handlers ∙ (intr_init-IsStarted idt stub s0).handlers k byte in
        ap (λ h. if k == 0xbe then some (own handler) else h) old

    serving_gates :
        (k : ℕ)
        → k < 0x100
        → serving.idt_list k
          ≡ set_gate_descriptor
              (8 * gdt_kernel_code_index)
              (stub k)
              (if k == 0xbe then 0xee else 0x8e)
    unfolding syscall_init
    serving_gates k byte =
        let r = prepared-Registered idt stub s0 user rs in
        let old = ap (λ list. list k) r.gates ∙ (intr_init-IsStarted idt stub s0).gates k byte in
        elim (Bool-cases (k == 0xbe)) [
          | inl e ↦
              rw e
                (gate_here (prepared idt stub s0 user rs).idt_list k (stub k) (==→eq k 0xbe e) old)
          | inr e ↦ rw e (gate_other (prepared idt stub s0 user rs).idt_list k e ∙ old)
        ]

    -- After `intr_init`, the registrations and `syscall_init`: the interrupt 0xbe runs the handler of the calls, and
    -- every other one does what `delivered` says; each gate leads to its stub, and 0xbe is the only interrupt
    -- whose gate lets programs raise it, as the others' privilege level is the kernel's.
    pub syscall_init_lem :
        (regs : IntrRegs)
        → regs.int_code < 0x100
        → (int_handler serving regs ≡ (
            if regs.int_code == 0xbe
            then run serving handler regs
            else delivered serving user rs regs))
          × (serving.idt_list regs.int_code
              ≡ set_gate_descriptor
                  (8 * gdt_kernel_code_index)
                  (stub regs.int_code)
                  (if regs.int_code == 0xbe then 0xee else 0x8e))
    unfolding syscall_init
    syscall_init_lem regs byte =
        let r = prepared-Registered idt stub s0 user rs in
        let v = intr_init-IsStarted idt stub s0 in
        let at = serving_handlers regs.int_code byte in
        (
          elim (Bool-cases (regs.int_code == 0xbe)) [
            | inl e ↦ rw e (int_handler-own serving handler regs (ground (arith, at, e)))
            | inr e ↦ rw e (
                int_handler_cases serving user rs regs (ground (arith, at, e)) r.user
                  (λ j low. r.irqs j low ∙ ap (registered rs j) (v.irqs j low)))
          ],
          serving_gates regs.int_code byte,
        )
