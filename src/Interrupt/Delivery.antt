-- ===== src/Interrupt/Delivery.antt =====
-- What an interrupt does once handlers have been registered.
use bitch.Base.{
  ℕ, ◌-◌, ◌*◌, ◌<◌, ◌≤◌, ◌≡◌, refl, arith, ◌∙◌, ap, true, false, ◌&&◌, ◌||◌, Option, none, some,
  List, ◌∷◌, ltb, leb, ◌==◌, if◌then◌else◌, add32, sub32, Bool-cases, inl, inr, ltb→lt, ltb→le,
}
use bitch.Descriptor.{set_gate_descriptor, gate_attribute, gdt_kernel_code_index}
use bitch.Interrupt.{
  IntrRegs, Handler, isr_handler, irq_handler, Interrupts, Outcome, returns, panics, run, call, isr,
  irq, enter, int_handler, reg_user_isr_handler, intr_init, user_code,
}
use bitch.Interrupt.Vectors.{intr_init-IsStarted}
use bitch.Interrupt.Registration.{
  mask_at, masked_start, mask_or_lem, registered, enabled, reg_all, Registered, reg_all_lem,
}

module _ {S : Type 0} where
  -- The controllers are told that the interrupt has been taken, the slave's as well when it came from there.
  abbrev pub acknowledged : Interrupts S → (code : ℕ) → Interrupts S
  acknowledged t code = record t {
    ports = if ltb code 0x28 then (0x20, 0x20) ∷ t.ports else (0x20, 0xa0) ∷ (0x20, 0x20) ∷ t.ports;
  }

  -- What an interrupt does: an exception goes to the handler for the user's programs, and halts the processor
  -- when it came from the kernel or there is none; an interrupt of a device goes to its handler.
  unfoldable pub delivered :
      (t : Interrupts S) → Option (Handler S) → List (ℕ × Option (Handler S)) → IntrRegs → Outcome S
  delivered t user rs regs =
      if ltb regs.int_code 0x14
      then (if regs.cs == user_code
          then elim user [ none ↦ panics regs t | some f ↦ run t f regs ]
          else panics regs t)
      else if leb 0x20 regs.int_code && ltb regs.int_code 0x30
      then call (acknowledged t regs.int_code) (registered rs (regs.int_code - 0x20) none) regs
      else returns regs t

  -- One call of the exceptions' handler.
  abbrev exception : Interrupts S → Option (Handler S) → IntrRegs → Outcome S
  exception t none regs = panics regs t
  exception t (some f) regs = if regs.cs == user_code then run t f regs else panics regs t

  isr-exception :
      (t : Interrupts S) (f : Option (Handler S)) (regs : IntrRegs)
      → elim f [
        | none ↦ panics regs t
        | some f ↦ if regs.cs == user_code then run t f regs else panics regs t
      ]
        ≡ exception t f regs
  isr-exception t none regs = refl
  isr-exception t (some f) regs = refl

  exception_lem :
      (t : Interrupts S) (f : Option (Handler S)) (regs : IntrRegs)
      → exception t f regs ≡ (
          if regs.cs == user_code
          then elim f [ none ↦ panics regs t | some f ↦ run t f regs ]
          else panics regs t)
  exception_lem t none regs = ground arith
  exception_lem t (some f) regs = refl

  int_handler-isr :
      (t : Interrupts S) (user : Option (Handler S)) (rs : List (ℕ × Option (Handler S)))
      (regs : IntrRegs)
      → t.intr_handler_list regs.int_code ≡ some isr_handler
      → t.user_isr_handler ≡ user
      → regs.int_code < 0x14
      → int_handler t regs ≡ delivered t user rs regs
  unfolding int_handler enter isr delivered
  int_handler-isr t user rs regs handler u low =
      let this : ltb regs.int_code 0x14 ≡ true = ground arith in
      ap (λ h. enter t h regs) handler
      ∙ isr-exception t t.user_isr_handler regs
      ∙ ap (λ f. exception t f regs) u
      ∙ exception_lem t user regs
      ∙ rw this refl

  int_handler-irq :
      (t : Interrupts S) (user : Option (Handler S)) (rs : List (ℕ × Option (Handler S)))
      (regs : IntrRegs)
      → t.intr_handler_list regs.int_code ≡ some irq_handler
      → t.irq_handler_list (regs.int_code - 0x20) ≡ registered rs (regs.int_code - 0x20) none
      → 0x20 ≤ regs.int_code
      → regs.int_code < 0x30
      → int_handler t regs ≡ delivered t user rs regs
  unfolding int_handler enter irq delivered
  int_handler-irq t user rs regs handler last low high =
      let this : ltb regs.int_code 0x14 ≡ false = ground arith in
      let that : (leb 0x20 regs.int_code && ltb regs.int_code 0x30) ≡ true = ground arith in
      ap (λ h. enter t h regs) handler ∙ elim (Bool-cases (ltb regs.int_code 0x28)) [
        | inl e ↦
            (let index : sub32 regs.int_code 0x20 ≡ regs.int_code - 0x20 = omega arith in
              rw (this, that, e, index, last) refl)
        | inr e ↦
            (let index : add32 (sub32 regs.int_code 0x28) 8 ≡ regs.int_code - 0x20 =
                omega (arith, ltb→le regs.int_code 0x28 e, high) in
              rw (this, that, e, index, last) refl)
      ]

  int_handler-none :
      (t : Interrupts S) (user : Option (Handler S)) (rs : List (ℕ × Option (Handler S)))
      (regs : IntrRegs)
      → t.intr_handler_list regs.int_code ≡ none
      → ltb regs.int_code 0x14 ≡ false
      → (leb 0x20 regs.int_code && ltb regs.int_code 0x30) ≡ false
      → int_handler t regs ≡ delivered t user rs regs
  unfolding int_handler enter delivered
  int_handler-none t user rs regs handler not_isr not_irq =
      ap (λ h. enter t h regs) handler ∙ rw (not_isr, not_irq) refl

  -- The state after `intr_init`, a handler for the user's programs, and registrations with the controller.
  unfoldable pub prepared :
      (idt : ℕ) (stub : ℕ → ℕ) (s0 : Interrupts S) (user : Option (Handler S))
      (rs : List (ℕ × Option (Handler S)))
      → Interrupts S
  unfolding reg_all
  prepared idt stub s0 user rs = reg_all (reg_user_isr_handler (intr_init idt stub s0) user) rs

  pub prepared-Registered :
      (idt : ℕ) (stub : ℕ → ℕ) (s0 : Interrupts S) (user : Option (Handler S))
      (rs : List (ℕ × Option (Handler S)))
      → Registered
          (reg_user_isr_handler (intr_init idt stub s0) user)
          rs
          (prepared idt stub s0 user rs)
  unfolding prepared
  prepared-Registered idt stub s0 user rs =
      let v = intr_init-IsStarted idt stub s0 in
      reg_all_lem (reg_user_isr_handler (intr_init idt stub s0) user) rs (omega (arith, v.master))
        (omega (arith, v.slave))

  pub int_handler_cases :
      (t : Interrupts S) (user : Option (Handler S)) (rs : List (ℕ × Option (Handler S)))
      (regs : IntrRegs)
      → t.intr_handler_list regs.int_code ≡ (
          if ltb regs.int_code 0x14
          then some isr_handler
          else if leb 0x20 regs.int_code && ltb regs.int_code 0x30
          then some irq_handler
          else none)
      → t.user_isr_handler ≡ user
      → ((i : ℕ) → i < 16 → t.irq_handler_list i ≡ registered rs i none)
      → int_handler t regs ≡ delivered t user rs regs
  int_handler_cases t user rs regs handler u last = elim (Bool-cases (ltb regs.int_code 0x14)) [
    | inl e ↦
        int_handler-isr t user rs regs (ground (arith, handler, e)) u (ltb→lt regs.int_code 0x14 e)
    | inr e ↦ elim (Bool-cases (leb 0x20 regs.int_code && ltb regs.int_code 0x30)) [
      | inl f ↦
          (let low : 0x20 ≤ regs.int_code = ground (arith, f) in
            let high : regs.int_code < 0x30 = ground (arith, f) in
            int_handler-irq t user rs regs (ground (arith, handler, e, f))
              (last (regs.int_code - 0x20) (omega (arith, low, high))) low high)
      | inr f ↦ int_handler-none t user rs regs (ground (arith, handler, e, f)) e f
    ]
  ]

  -- After `intr_init`, once a handler for the user's programs and then any handlers for the interrupts of
  -- devices have been registered: every interrupt does what `delivered` says with the handler that was
  -- registered last; its gate leads to its own stub; and the mask of the controllers lets through the
  -- interrupts that were registered and the second controller's, and no other.
  pub interrupt_lem :
      (idt : ℕ) (stub : ℕ → ℕ) (s0 : Interrupts S) (user : Option (Handler S))
      (rs : List (ℕ × Option (Handler S))) (regs : IntrRegs) (i : ℕ)
      → regs.int_code < 0x100
      → i < 16
      → let t : Interrupts S = prepared idt stub s0 user rs in
        (int_handler t regs ≡ delivered t user rs regs)
        × (t.idt_list regs.int_code
            ≡ set_gate_descriptor (8 * gdt_kernel_code_index) (stub regs.int_code) gate_attribute)
        × (mask_at t i ≡ (if (i == 2) || enabled rs i then 0 else 1))
  interrupt_lem idt stub s0 user rs regs i byte bound =
      let v = intr_init-IsStarted idt stub s0 in
      let r = prepared-Registered idt stub s0 user rs in
      (
        int_handler_cases (prepared idt stub s0 user rs) user rs regs
            (ap (λ list. list regs.int_code) r.handlers ∙ v.handlers regs.int_code byte) r.user
            (λ j low. r.irqs j low ∙ ap (registered rs j) (v.irqs j low)),
        ap (λ list. list regs.int_code) r.gates ∙ v.gates regs.int_code byte,
        r.masks i bound
            ∙ rw (v.master, v.slave)
                (ap (λ (x : ℕ). if enabled rs i then 0 else x) (masked_start bound)
                  ∙ mask_or_lem (enabled rs i) (i == 2) 0 1),
      )
