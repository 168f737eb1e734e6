-- ===== src/Interrupt.antt =====
-- Interrupts: the table of handlers, kernel/intr/stub.c, the exceptions, kernel/intr/isr.c, and the interrupt
-- controller, driver/i8259.c. The assembly stubs, which push the registers, are left out; what a handler
-- does is a function of the registers and of the state `S` of its own.
pub mod Mask
pub mod Vectors
pub mod Registration
pub mod Delivery
mod Tests
use bitch.Base.{
  ℕ, zero, suc, ◌+◌, ◌-◌, ◌*◌, ◌^◌, bit_and, bit_or, Bool, not, ◌&&◌, Option, none, some, List, [],
  ◌∷◌, ltb, ◌==◌, if◌then◌else◌, add32, sub32, update,
}
use bitch.Descriptor.{GateDescriptor, Ptr, gdt_user_code_index, idt_length, idt_set, idt_init}

-- `_intr_regs_t`
pub record IntrRegs : Type 0 where
  pub ds : ℕ
  pub edi : ℕ
  pub esi : ℕ
  pub ebp : ℕ
  pub esp : ℕ
  pub ebx : ℕ
  pub edx : ℕ
  pub ecx : ℕ
  pub eax : ℕ
  pub int_code : ℕ
  pub err_code : ℕ
  pub eip : ℕ
  pub cs : ℕ
  pub eflags : ℕ
  pub useresp : ℕ
  pub ss : ℕ

-- `_intr_handler_t`: it may change the registers that it is given; `none` is a handler that does not return.
abbrev pub Handler : Type 0 → Type 0
Handler S = IntrRegs → S → Option IntrRegs × S

-- The handlers of the table: those of isr.c and of i8259.c, and any other.
pub data IntrHandler (S : Type 0) : Type 0 where
  isr_handler irq_handler : IntrHandler S
  own : Handler S → IntrHandler S

-- The static variables of the three files; the interrupt table and the register that points to it; the bytes
-- that went to the ports of the controller, each with its port, the latest first; the handlers' state.
pub record Interrupts (S : Type 0) : Type 0 where
  pub intr_handler_list : ℕ → Option (IntrHandler S)
  pub user_isr_handler : Option (Handler S)
  pub irq_handler_list : ℕ → Option (Handler S)
  pub master_int_mask : ℕ
  pub slave_int_mask : ℕ
  pub idt_list : ℕ → GateDescriptor
  pub idtr : Ptr
  pub ports : List (ℕ × ℕ)
  pub caller : S

-- I8259_M_CTL_IO and the others, M_INT_VECTOR, S_INT_VECTOR
abbrev pub i8259_m_ctl_io : ℕ
i8259_m_ctl_io = 0x20

abbrev pub i8259_m_set_io : ℕ
i8259_m_set_io = 0x21

abbrev pub i8259_s_ctl_io : ℕ
i8259_s_ctl_io = 0xa0

abbrev pub i8259_s_set_io : ℕ
i8259_s_set_io = 0xa1

abbrev pub m_int_vector : ℕ
m_int_vector = 0x20

abbrev pub s_int_vector : ℕ
s_int_vector = 0x28

-- selector(GDT_USER_CODE_INDEX, SEL_RPL3)
abbrev pub user_code : ℕ
user_code = bit_or (gdt_user_code_index * 8) 3

-- An interrupt returns to what it has interrupted, stays in a handler that never returns, or ends in `panic`, which
-- halts the processor.
pub data Outcome (S : Type 0) : Type 0 where
  returns : IntrRegs → Interrupts S → Outcome S
  stays : Interrupts S → Outcome S
  panics : IntrRegs → Interrupts S → Outcome S

module _ {S : Type 0} where
  abbrev pub outb : Interrupts S → (byte port : ℕ) → Interrupts S
  outb s byte port = record s { ports = (byte, port) ∷ s.ports }

  unfoldable pub run : Interrupts S → Handler S → IntrRegs → Outcome S
  run s handler regs =
      let r = handler regs s.caller in
      let t : Interrupts S = record s { caller = r.1 } in
      elim r.0 [ none ↦ stays t | some out ↦ returns out t ]

  -- `if (handler != NULL) handler(regs)`
  unfoldable pub call : Interrupts S → Option (Handler S) → IntrRegs → Outcome S
  call s handler regs = elim handler [ none ↦ returns regs s | some f ↦ run s f regs ]

  unfoldable pub isr : Interrupts S → IntrRegs → Outcome S
  isr s regs = elim s.user_isr_handler [
    | none ↦ panics regs s
    | some f ↦ if regs.cs == user_code then run s f regs else panics regs s
  ]

  unfoldable pub irq : Interrupts S → IntrRegs → Outcome S
  irq s regs =
      let t : Interrupts S = outb s 0x20 i8259_m_ctl_io in
      if ltb regs.int_code s_int_vector
      then call t (t.irq_handler_list (sub32 regs.int_code m_int_vector)) regs
      else call (outb t 0x20 i8259_s_ctl_io)
          (t.irq_handler_list (add32 (sub32 regs.int_code s_int_vector) 8)) regs

  -- A call of a handler of the table; a null pointer is `none`.
  unfoldable pub enter : Interrupts S → Option (IntrHandler S) → IntrRegs → Outcome S
  enter s none regs = returns regs s
  enter s (some isr_handler) regs = isr s regs
  enter s (some irq_handler) regs = irq s regs
  enter s (some (own f)) regs = run s f regs

  unfoldable pub int_handler : Interrupts S → IntrRegs → Outcome S
  int_handler s regs = enter s (s.intr_handler_list regs.int_code) regs

  -- `n` is a byte.
  unfoldable pub reg_intr_handler :
      (list : ℕ → Option (IntrHandler S)) (n : ℕ)
      → Option (IntrHandler S)
      → ℕ
      → Option (IntrHandler S)
  unfolding update
  reg_intr_handler list n handler = if ltb n idt_length then update list n handler else list

  -- The loop of `stub_init`, and its calls of `set_intr`, which stand there one by one; `stub` are the
  -- addresses of the assembly stubs.
  unfoldable pub clear_handlers :
      (list : ℕ → Option (IntrHandler S)) (i left : ℕ) → ℕ → Option (IntrHandler S)
  unfolding update
  clear_handlers list i zero = list
  clear_handlers list i (suc left) = clear_handlers (update list i none) (i + 1) left

unfoldable pub set_intrs :
    (stub : ℕ → ℕ) (list : ℕ → GateDescriptor) (n left : ℕ) → ℕ → GateDescriptor
set_intrs stub list n zero = list
set_intrs stub list n (suc left) = set_intrs stub (idt_set list n (stub n)) (n + 1) left

-- `mask &= ~(0x1 << n)` of a byte.
abbrev pub unmask : (mask n : ℕ) → ℕ
unmask mask n = bit_and mask (0xff - 2 ^ n)

module _ {S : Type 0} where
  unfoldable pub stub_init : (stub : ℕ → ℕ) → Interrupts S → Interrupts S
  stub_init stub s = record s {
    intr_handler_list = clear_handlers s.intr_handler_list 0 idt_length;
    idt_list = set_intrs stub s.idt_list 0 0x100;
  }

  abbrev pub reg_user_isr_handler : Interrupts S → Option (Handler S) → Interrupts S
  reg_user_isr_handler s handler = record s { user_isr_handler = handler }

  unfoldable pub isr_loop :
      (list : ℕ → Option (IntrHandler S)) (i left : ℕ) → ℕ → Option (IntrHandler S)
  isr_loop list i zero = list
  isr_loop list i (suc left) = isr_loop (reg_intr_handler list i (some isr_handler)) (i + 1) left

  unfoldable pub isr_int : Interrupts S → Interrupts S
  isr_int s = record s {
    user_isr_handler = none;
    intr_handler_list = isr_loop s.intr_handler_list 0 0x14;
  }

  unfoldable pub reg_irq_handler : Interrupts S → (n : ℕ) → Option (Handler S) → Interrupts S
  unfolding update
  reg_irq_handler s n handler =
      let t : Interrupts S = record s { irq_handler_list = update s.irq_handler_list n handler } in
      let master : ℕ = unmask s.master_int_mask n in
      let slave : ℕ = unmask s.slave_int_mask (n - 8) in
      if ltb n 16
      then (if ltb n 8
          then outb (record t { master_int_mask = master }) master i8259_m_set_io
          else outb (record t { slave_int_mask = slave }) slave i8259_s_set_io)
      else s

  -- The loop of `init_8259A`, on both lists.
  unfoldable pub irq_loop :
      (irqs : ℕ → Option (Handler S)) (list : ℕ → Option (IntrHandler S)) (i left : ℕ)
      → (ℕ → Option (Handler S)) × (ℕ → Option (IntrHandler S))
  unfolding update
  irq_loop irqs list i zero = (irqs, list)
  irq_loop irqs list i (suc left) =
      irq_loop (update (update irqs i none) (i + 8) none)
        (reg_intr_handler (reg_intr_handler list (m_int_vector + i) (some irq_handler))
          (s_int_vector + i) (some irq_handler))
        (i + 1) left

  -- The bytes that set the controller up, in their order.
  abbrev pub set_up : Interrupts S → Interrupts S
  set_up s =
      let a : Interrupts S = outb (outb s 0x11 i8259_m_ctl_io) 0x11 i8259_s_ctl_io in
      let b : Interrupts S = outb (outb a 0x20 i8259_m_set_io) 0x28 i8259_s_set_io in
      let c : Interrupts S = outb (outb b 0x04 i8259_m_set_io) 0x02 i8259_s_set_io in
      let d : Interrupts S = outb (outb c 0x01 i8259_m_set_io) 0x01 i8259_s_set_io in
      outb (outb d s.master_int_mask i8259_m_set_io) s.slave_int_mask i8259_s_set_io

  unfoldable pub init_8259a : Interrupts S → Interrupts S
  unfolding reg_irq_handler
  init_8259a s =
      let lists = irq_loop s.irq_handler_list s.intr_handler_list 0 8 in
      let t : Interrupts S = record s {
        master_int_mask = 0xff;
        slave_int_mask = 0xff;
        irq_handler_list = lists.0;
        intr_handler_list = lists.1;
      } in
      reg_irq_handler (set_up t) 2 none

  -- `intr_init` of kernel/intr/init.c; `idt` is the address of the table.
  unfoldable pub intr_init : (idt : ℕ) (stub : ℕ → ℕ) → Interrupts S → Interrupts S
  unfolding stub_init isr_int init_8259a
  intr_init idt stub s = init_8259a (isr_int (stub_init stub (record s { idtr = idt_init idt })))
