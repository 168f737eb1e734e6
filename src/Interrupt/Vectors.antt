-- ===== src/Interrupt/Vectors.antt =====
-- Which handler an interrupt runs.
use bitch.Base.{
  ℕ, zero, suc, ◌+◌, ◌*◌, ◌<◌, ◌≤◌, ◌≡◌, refl, arith, ◌&&◌, ◌||◌, Option, none, some, ltb, leb,
  if◌then◌else◌, update,
}
use bitch.Descriptor.{
  GateDescriptor, set_gate_descriptor, idt_set, gate_attribute, gdt_kernel_code_index,
}
use bitch.Interrupt.{
  Handler, IntrHandler, isr_handler, irq_handler, Interrupts, reg_intr_handler, clear_handlers,
  set_intrs, isr_loop, irq_loop, reg_irq_handler, m_int_vector, s_int_vector, intr_init, stub_init,
  isr_int, init_8259a,
}

module _ {S : Type 0} where
  clear_handlers_lem :
      (list : ℕ → Option (IntrHandler S)) (i left k : ℕ)
      → clear_handlers list i left k ≡ (if leb i k && ltb k (i + left) then none else list k)
  unfolding clear_handlers update
  clear_handlers_lem list i zero k = ground arith
  clear_handlers_lem list i (suc left) k =
      ground (arith, clear_handlers_lem (update list i none) (i + 1) left k)

  isr_loop_lem :
      (list : ℕ → Option (IntrHandler S)) (i left k : ℕ)
      → i + left ≤ 0x100
      → isr_loop list i left k ≡ (if leb i k && ltb k (i + left) then some isr_handler else list k)
  unfolding isr_loop reg_intr_handler update
  isr_loop_lem list i zero k few = ground arith
  isr_loop_lem list i (suc left) k few =
      ground (arith, isr_loop_lem (reg_intr_handler list i (some isr_handler)) (i + 1) left k)

  irq_loop_lem :
      (irqs : ℕ → Option (Handler S)) (list : ℕ → Option (IntrHandler S)) (i left k : ℕ)
      → i + left ≤ 8
      → ((irq_loop irqs list i left).0 k ≡ (
          if (leb i k && ltb k (i + left)) || (leb (i + 8) k && ltb k (i + 8 + left))
          then none
          else irqs k))
        × ((irq_loop irqs list i left).1 k ≡ (
            if (leb (0x20 + i) k && ltb k (0x20 + i + left))
              || (leb (0x28 + i) k && ltb k (0x28 + i + left))
            then some irq_handler
            else list k))
  unfolding irq_loop reg_intr_handler update
  irq_loop_lem irqs list i zero k few = (ground arith, ground arith)
  irq_loop_lem irqs list i (suc left) k few =
      let ih =
        irq_loop_lem (update (update irqs i none) (i + 8) none)
          (reg_intr_handler (reg_intr_handler list (m_int_vector + i) (some irq_handler))
            (s_int_vector + i) (some irq_handler))
          (i + 1) left k (omega (arith, few)) in
      (ground (arith, ih.0), ground (arith, ih.1))

set_intrs_lem :
    (stub : ℕ → ℕ) (list : ℕ → GateDescriptor) (n left k : ℕ)
    → n + left ≤ 0x100
    → set_intrs stub list n left k ≡ (
        if leb n k && ltb k (n + left)
        then set_gate_descriptor (8 * gdt_kernel_code_index) (stub k) gate_attribute
        else list k)
unfolding set_intrs idt_set update
set_intrs_lem stub list n zero k few = ground arith
set_intrs_lem stub list n (suc left) k few =
    ground (arith, set_intrs_lem stub (idt_set list n (stub n)) (n + 1) left k)

-- The state after `intr_init`.
pub record IsStarted {S : Type 0} (stub : ℕ → ℕ) (s : Interrupts S) : Type 0 where
  pub handlers :
      (k : ℕ)
      → k < 0x100
      → s.intr_handler_list k ≡ (
          if ltb k 0x14
          then some isr_handler
          else if leb 0x20 k && ltb k 0x30
          then some irq_handler
          else none)
  pub irqs : (i : ℕ) → i < 16 → s.irq_handler_list i ≡ none
  pub user : s.user_isr_handler ≡ none
  pub master : s.master_int_mask ≡ 0xfb
  pub slave : s.slave_int_mask ≡ 0xff
  pub gates :
      (k : ℕ)
      → k < 0x100
      → s.idt_list k ≡ set_gate_descriptor (8 * gdt_kernel_code_index) (stub k) gate_attribute

pub intr_init-IsStarted :
    {S : Type 0} (idt : ℕ) (stub : ℕ → ℕ) (s : Interrupts S) → IsStarted stub (intr_init idt stub s)
unfolding intr_init stub_init isr_int init_8259a reg_irq_handler update
intr_init-IsStarted idt stub s =
    let cleared = clear_handlers s.intr_handler_list 0 0x100 in
    let isrs = isr_loop cleared 0 0x14 in
    record {
      handlers = λ k low.
          let a = clear_handlers_lem s.intr_handler_list 0 0x100 k in
          let b = isr_loop_lem cleared 0 0x14 k (omega arith) in
          let c = irq_loop_lem s.irq_handler_list isrs 0 8 k (omega arith) in
          ground (arith, a, b, c.1);
      irqs = λ i low.
          let c = irq_loop_lem s.irq_handler_list isrs 0 8 i (omega arith) in ground (arith, c.0);
      user = refl;
      master = refl;
      slave = refl;
      gates = λ k low.
          let g = set_intrs_lem stub s.idt_list 0 0x100 k (omega arith) in ground (arith, g);
    }
