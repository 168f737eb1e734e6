-- ===== src/Keyboard/Driver.antt =====
-- The driver of the keyboard's controller, driver/atkbd.c, and `keyboard_init` of kernel/dev/keyboard.c. The
-- keyboard's lights, for which set_kbd_led waits, are left out.
use bitch.Base.{
  ℕ, ◌≡◌, refl, true, ◌∙◌, ap, arith, Option, none, some, List, [], ◌∷◌, ltb, sub32, update,
}
use bitch.Interrupt.{
  IntrRegs, Handler, irq_handler, Interrupts, Outcome, returns, stays, panics, run, call, irq,
  enter, int_handler, reg_irq_handler, intr_init,
}
use bitch.Interrupt.Vectors.{intr_init-IsStarted}
use bitch.Keyboard.{Keyboard, keyboard_handler}
use bitch.Keyboard.Typed.{handle_all}

-- The static variables of driver/atkbd.c, the byte at the port of the data, and the state of the registered
-- function.
pub record Atkbd (S : Type 0) : Type 0 where
  pub atkbd_handler : Option (ℕ → S → S)
  pub ilock : ℕ
  pub port : ℕ
  pub caller : S

module _ {S : Type 0} where
  -- `if (atkbd_handler != NULL) atkbd_handler(scan_code);`
  abbrev handle_code : Option (ℕ → S → S) → ℕ → S → S
  handle_code none scan_code s = s
  handle_code (some f) scan_code s = f scan_code s

  unfoldable irq1_handler : Handler (Atkbd S)
  irq1_handler regs k =
      (some regs, record k { ilock = 0; caller = handle_code k.atkbd_handler k.port k.caller })

  abbrev reg_atkbd_handler : Atkbd S → Option (ℕ → S → S) → Atkbd S
  reg_atkbd_handler k handler = record k { atkbd_handler = handler }

  unfoldable init_atkbd : Interrupts (Atkbd S) → Interrupts (Atkbd S)
  init_atkbd t =
      reg_irq_handler (record t { caller = record t.caller { atkbd_handler = none } }) 1
        (some irq1_handler)

  -- The state after an interrupt of the keyboard.
  abbrev taken : Interrupts (Atkbd S) → Interrupts (Atkbd S)
  taken t =
      let k : Atkbd S = t.caller in
      record t {
        ports = (0x20, 0x20) ∷ t.ports;
        caller = record k { ilock = 0; caller = handle_code k.atkbd_handler k.port k.caller };
      }

  -- An interrupt of the keyboard, once its handler stands in the table.
  int_handler-irq1 :
      (t : Interrupts (Atkbd S)) (regs : IntrRegs)
      → t.intr_handler_list 0x21 ≡ some irq_handler
      → t.irq_handler_list 1 ≡ some irq1_handler
      → regs.int_code ≡ 0x21
      → int_handler t regs ≡ returns regs (taken t)
  unfolding int_handler enter irq call run irq1_handler
  int_handler-irq1 t regs table registered code =
      let master : ltb regs.int_code 0x28 ≡ true = ground (arith, code) in
      let index : sub32 regs.int_code 0x20 ≡ 1 = omega (arith, code) in
      ap (λ c. enter t (t.intr_handler_list c) regs) code
      ∙ ap (λ h. enter t h regs) table
      ∙ rw (master, index, registered) refl

module _ {S : Type 0} (beyond : ℕ → ℕ) where
  -- Up to `set_kbd_led`.
  unfoldable pub keyboard_init : Interrupts (Atkbd (Keyboard S)) → Interrupts (Atkbd (Keyboard S))
  unfolding init_atkbd irq1_handler
  keyboard_init t =
      let cleared : Keyboard S = record t.caller.caller {
        key_callback = none;
        key_flags = 0;
        input_mode = 0;
      } in
      let u : Interrupts (Atkbd (Keyboard S)) =
        init_atkbd (record t { caller = record t.caller { caller = cleared } }) in
      record u {
        caller = reg_atkbd_handler u.caller (some (λ code k. keyboard_handler beyond k code));
      }

  -- The interrupts that follow each other as the controller has the bytes `codes`.
  abbrev after : Outcome (Atkbd (Keyboard S)) → Interrupts (Atkbd (Keyboard S))
  after (returns regs s) = s
  after (stays s) = s
  after (panics regs s) = s

  abbrev with_port : Interrupts (Atkbd (Keyboard S)) → ℕ → Interrupts (Atkbd (Keyboard S))
  with_port t code = record t { caller = record t.caller { port = code } }

  abbrev pub typed_at :
      Interrupts (Atkbd (Keyboard S)) → IntrRegs → List ℕ → Interrupts (Atkbd (Keyboard S))
  typed_at t regs [] = t
  typed_at t regs (code ∷ codes) = typed_at (after (int_handler (with_port t code) regs)) regs codes

  record IsListening (t : Interrupts (Atkbd (Keyboard S))) : Type 0 where
    table : t.intr_handler_list 0x21 ≡ some irq_handler
    registered : t.irq_handler_list 1 ≡ some irq1_handler
    handler : t.caller.atkbd_handler ≡ some (λ code k. keyboard_handler beyond k code)

  keyboard_init-IsListening :
      (idt : ℕ) (stub : ℕ → ℕ) (s0 : Interrupts (Atkbd (Keyboard S)))
      → IsListening (keyboard_init (intr_init idt stub s0))
  unfolding keyboard_init init_atkbd reg_irq_handler update
  keyboard_init-IsListening idt stub s0 = record {
    table = (intr_init-IsStarted idt stub s0).handlers 0x21 (omega arith);
    registered = refl;
    handler = refl;
  }

  typed_at-IsListening :
      (t : Interrupts (Atkbd (Keyboard S))) (regs : IntrRegs) (codes : List ℕ)
      → IsListening t
      → regs.int_code ≡ 0x21
      → (typed_at t regs codes).caller.caller ≡ handle_all beyond t.caller.caller codes
  unfolding handle_all
  typed_at-IsListening t regs [] v code_is = refl
  typed_at-IsListening t regs (code ∷ codes) v code_is =
      let one = int_handler-irq1 (with_port t code) regs v.table v.registered code_is in
      let next : Interrupts (Atkbd (Keyboard S)) = taken (with_port t code) in
      let listening : IsListening next = record {
        table = v.table;
        registered = v.registered;
        handler = v.handler;
      } in
      ap (λ o. (typed_at (after o) regs codes).caller.caller) one
      ∙ typed_at-IsListening next regs codes listening code_is
      ∙ ap (λ h. handle_all beyond (handle_code h code t.caller.caller) codes) v.handler

  -- After `intr_init` and `keyboard_init`, and from any state of the keyboard on: the interrupts of the keyboard that
  -- follow each other as its controller has the bytes `codes` run `keyboard_handler` on each of them, in their order.
  pub keyboard_init-typed_at :
      (idt : ℕ) (stub : ℕ → ℕ) (s0 : Interrupts (Atkbd (Keyboard S))) (k : Keyboard S)
      (regs : IntrRegs) (codes : List ℕ)
      → regs.int_code ≡ 0x21
      → let t : Interrupts (Atkbd (Keyboard S)) = keyboard_init (intr_init idt stub s0) in
        (typed_at (record t { caller = record t.caller { caller = k } }) regs codes).caller.caller
        ≡ handle_all beyond k codes
  keyboard_init-typed_at idt stub s0 k regs codes code_is =
      let v = keyboard_init-IsListening idt stub s0 in
      let t : Interrupts (Atkbd (Keyboard S)) = keyboard_init (intr_init idt stub s0) in
      typed_at-IsListening (record t { caller = record t.caller { caller = k } }) regs codes
        (record { table = v.table; registered = v.registered; handler = v.handler }) code_is
