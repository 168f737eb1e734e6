-- ===== src/Interrupt/Registration.antt =====
-- Handlers that are registered with the controller, one after the other.
use bitch.Base.{
  ℕ, ◌-◌, ◌<◌, ◌≤◌, ◌≡◌, refl, arith, ◌∙◌, ap, Bool, true, false, ◌||◌, Option, List, [], ◌∷◌, ltb,
  ◌==◌, if◌then◌else◌, update, Bool-cases, inl, inr, checked, law_of-checked, ==→eq, ltb→lt,
}
use bitch.Interrupt.{Handler, Interrupts, reg_irq_handler}
use bitch.Interrupt.Mask.{mask_bit, unmask_lem}

-- The bit of an interrupt in the mask of its controller.
abbrev pub mask_at : {S : Type 0} → Interrupts S → ℕ → ℕ
mask_at s i = if ltb i 8 then mask_bit s.master_int_mask i else mask_bit s.slave_int_mask (i - 8)

-- The masks after `init_8259A`.
starts_masked : ℕ → Bool
starts_masked i =
    (if ltb i 8 then mask_bit 0xfb i else mask_bit 0xff (i - 8)) == (if i == 2 then 0 else 1)

all_start_masked : checked starts_masked 16 ≡ true
unfolding checked starts_masked
all_start_masked = refl

pub masked_start :
    {i : ℕ}
    → i < 16
    → (if ltb i 8 then mask_bit 0xfb i else mask_bit 0xff (i - 8)) ≡ (if i == 2 then 0 else 1)
unfolding starts_masked
masked_start {i} bound = ==→eq _ _ (law_of-checked starts_masked all_start_masked bound)

pub mask_or_lem :
    (a b : Bool) (x y : ℕ) → (if a then x else (if b then x else y)) ≡ (if b || a then x else y)
mask_or_lem a b x y = ground arith

or_lem :
    (a b : Bool) (x : ℕ)
    → (if b then 0 else (if a || false then 0 else x)) ≡ (if a || b then 0 else x)
or_lem a b x = ground arith

module _ {S : Type 0} where
  -- Registrations with the controller, one after the other.
  unfoldable pub reg_all : Interrupts S → List (ℕ × Option (Handler S)) → Interrupts S
  reg_all s [] = s
  reg_all s ((n, handler) ∷ rs) = reg_all (reg_irq_handler s n handler) rs

  -- The handler that was registered last for an interrupt, and whether any was.
  abbrev pub registered :
      List (ℕ × Option (Handler S)) → (i : ℕ) → Option (Handler S) → Option (Handler S)
  registered [] i old = old
  registered ((n, handler) ∷ rs) i old = registered rs i (if n == i then handler else old)

  abbrev pub enabled : List (ℕ × Option (Handler S)) → ℕ → Bool
  enabled [] i = false
  enabled ((n, handler) ∷ rs) i = (n == i) || enabled rs i

  pub record Registered (s : Interrupts S) (rs : List (ℕ × Option (Handler S))) (t : Interrupts S)
      : Type 0 where
    pub irqs : (i : ℕ) → i < 16 → t.irq_handler_list i ≡ registered rs i (s.irq_handler_list i)
    pub handlers : t.intr_handler_list ≡ s.intr_handler_list
    pub user : t.user_isr_handler ≡ s.user_isr_handler
    pub gates : t.idt_list ≡ s.idt_list
    pub masks : (i : ℕ) → i < 16 → mask_at t i ≡ (if enabled rs i then 0 else mask_at s i)
    pub master : t.master_int_mask < 0x100
    pub slave : t.slave_int_mask < 0x100

  reg_low :
      (s : Interrupts S) (n : ℕ) (handler : Option (Handler S))
      → s.master_int_mask < 0x100
      → s.slave_int_mask < 0x100
      → n < 8
      → Registered s ((n, handler) ∷ []) (reg_irq_handler s n handler)
  unfolding reg_irq_handler update
  reg_low s n handler master slave low = record {
    irqs = λ i bound. ground arith;
    handlers = ground arith;
    user = ground arith;
    gates = ground arith;
    masks = λ i bound. elim (Bool-cases (ltb i 8)) [
      | inl e ↦
          (let u = unmask_lem {n = n} {i = i} master low (ltb→lt i 8 e) in ground (arith, e, u.0))
      | inr e ↦ ground (arith, e)
    ];
    master = (let u = unmask_lem {n = n} {i = 0} master low (omega arith) in ground (arith, u.1));
    slave = ground arith;
  }

  reg_high :
      (s : Interrupts S) (n : ℕ) (handler : Option (Handler S))
      → s.master_int_mask < 0x100
      → s.slave_int_mask < 0x100
      → 8 ≤ n
      → n < 16
      → Registered s ((n, handler) ∷ []) (reg_irq_handler s n handler)
  unfolding reg_irq_handler update
  reg_high s n handler master slave high low = record {
    irqs = λ i bound. ground arith;
    handlers = ground arith;
    user = ground arith;
    gates = ground arith;
    masks = λ i bound. elim (Bool-cases (ltb i 8)) [
      | inl e ↦ ground (arith, e)
      | inr e ↦
          (let u =
              unmask_lem {n = n - 8} {i = i - 8} slave (omega (arith, low))
                (omega (arith, bound)) in
            let apart : 8 ≤ i = ground (arith, e) in ground (arith, e, u.0, apart))
    ];
    master = ground arith;
    slave =
        (let u = unmask_lem {n = n - 8} {i = 0} slave (omega arith) (omega arith) in
          ground (arith, u.1));
  }

  reg_none :
      (s : Interrupts S) (n : ℕ) (handler : Option (Handler S))
      → s.master_int_mask < 0x100
      → s.slave_int_mask < 0x100
      → 16 ≤ n
      → Registered s ((n, handler) ∷ []) (reg_irq_handler s n handler)
  unfolding reg_irq_handler
  reg_none s n handler master slave out = record {
    irqs = λ i bound. ground arith;
    handlers = ground arith;
    user = ground arith;
    gates = ground arith;
    masks = λ i bound. ground arith;
    master = ground arith;
    slave = ground arith;
  }

  reg_one :
      (s : Interrupts S) (n : ℕ) (handler : Option (Handler S))
      → s.master_int_mask < 0x100
      → s.slave_int_mask < 0x100
      → Registered s ((n, handler) ∷ []) (reg_irq_handler s n handler)
  reg_one s n handler master slave = elim (Bool-cases (ltb n 8)) [
    | inl e ↦ reg_low s n handler master slave (ltb→lt n 8 e)
    | inr e ↦ elim (Bool-cases (ltb n 16)) [
      | inl f ↦ reg_high s n handler master slave (ground (arith, e)) (ltb→lt n 16 f)
      | inr f ↦ reg_none s n handler master slave (ground (arith, f))
    ]
  ]

  Registered-∷ :
      (s m t : Interrupts S) (n : ℕ) (handler : Option (Handler S))
      (rs : List (ℕ × Option (Handler S)))
      → Registered s ((n, handler) ∷ []) m
      → Registered m rs t
      → Registered s ((n, handler) ∷ rs) t
  Registered-∷ s m t n handler rs one rest = record {
    irqs = λ i bound. rest.irqs i bound ∙ ap (registered rs i) (one.irqs i bound);
    handlers = rest.handlers ∙ one.handlers;
    user = rest.user ∙ one.user;
    gates = rest.gates ∙ one.gates;
    masks = λ i bound.
        rest.masks i bound
        ∙ ap (λ (x : ℕ). if enabled rs i then 0 else x) (one.masks i bound)
        ∙ or_lem (n == i) (enabled rs i) (mask_at s i);
    master = rest.master;
    slave = rest.slave;
  }

  pub reg_all_lem :
      (s : Interrupts S) (rs : List (ℕ × Option (Handler S)))
      → s.master_int_mask < 0x100
      → s.slave_int_mask < 0x100
      → Registered s rs (reg_all s rs)
  unfolding reg_all
  reg_all_lem s [] master slave = record {
    irqs = λ i bound. refl;
    handlers = refl;
    user = refl;
    gates = refl;
    masks = λ i bound. refl;
    master = master;
    slave = slave;
  }
  reg_all_lem s ((n, handler) ∷ rs) master slave =
      let one = reg_one s n handler master slave in
      Registered-∷ s (reg_irq_handler s n handler) (reg_all (reg_irq_handler s n handler) rs) n
        handler rs one (reg_all_lem (reg_irq_handler s n handler) rs one.master one.slave)
