-- ===== src/Interrupt/Tests.antt =====
-- The theorems on interrupts with the clock, the keyboard and the second disk controller.
use bitch.Base.{
  ℕ, ◌+◌, ◌*◌, ◌≡◌, refl, arith, Option, none, some, List, [], ◌∷◌, ◌==◌, ◌||◌, if◌then◌else◌,
}
use bitch.Descriptor.{set_gate_descriptor, gate_attribute, gdt_kernel_code_index}
use bitch.Interrupt.{
  IntrRegs, Handler, Interrupts, Outcome, returns, stays, panics, int_handler, call, run, enter,
  irq, irq_loop, reg_intr_handler, intr_init, reg_irq_handler,
}
use bitch.Interrupt.Registration.{mask_at, enabled}
use bitch.Interrupt.Delivery.{delivered, prepared, interrupt_lem}

abbrev boot : Interrupts (List ℕ)
boot = record {
  intr_handler_list = λ k. none;
  user_isr_handler = none;
  irq_handler_list = λ k. none;
  master_int_mask = 0;
  slave_int_mask = 0;
  idt_list = λ k. set_gate_descriptor 0 0 0;
  idtr = record { limit = 0; base_attr = 0 };
  ports = [];
  caller = [];
}

-- A handler that notes its number.
abbrev note : ℕ → Option (Handler (List ℕ))
note n = some (λ regs log. (some regs, n ∷ log))

abbrev devices : List (ℕ × Option (Handler (List ℕ)))
devices = (0, note 32) ∷ (1, note 33) ∷ (15, note 47) ∷ (1, note 100) ∷ []

abbrev regs_of : (code cs : ℕ) → IntrRegs
regs_of code cs = record {
  ds = 0;
  edi = 0;
  esi = 0;
  ebp = 0;
  esp = 0;
  ebx = 0;
  edx = 0;
  ecx = 0;
  eax = 0;
  int_code = code;
  err_code = 0;
  eip = 0;
  cs = cs;
  eflags = 0;
  useresp = 0;
  ss = 0;
}

abbrev stub : ℕ → ℕ
stub k = 0x10_0000 + 16 * k

abbrev ready : Interrupts (List ℕ)
ready = prepared 0x20_0000 stub boot (note 7) devices

-- What the handlers have noted.
abbrev log_of : Outcome (List ℕ) → List ℕ
log_of (returns regs s) = s.caller
log_of (stays s) = 998 ∷ s.caller
log_of (panics regs s) = 999 ∷ s.caller

interrupt_lem_example :
    (int_handler ready (regs_of 0x21 0x8) ≡ delivered ready (note 7) devices (regs_of 0x21 0x8))
    × (ready.idt_list 0x21
        ≡ set_gate_descriptor (8 * gdt_kernel_code_index) (stub 0x21) gate_attribute)
    × (mask_at ready 15 ≡ (if (15 == 2) || enabled devices 15 then 0 else 1))
interrupt_lem_example =
    interrupt_lem 0x20_0000 stub boot (note 7) devices (regs_of 0x21 0x8) 15 (omega arith)
      (omega arith)

keyboard : log_of (int_handler ready (regs_of 0x21 0x8)) ≡ 100 ∷ []
unfolding call run int_handler enter irq prepared reg_irq_handler intr_init irq_loop
    reg_intr_handler
keyboard = refl

masks_now : (ready.master_int_mask ≡ 0xf8) × (ready.slave_int_mask ≡ 0x7f)
unfolding prepared reg_irq_handler intr_init
masks_now = (refl, refl)
