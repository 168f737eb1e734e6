-- ===== src/System/Fault.antt =====
-- The exceptions of a program.
use bitch.Base.{
  ℕ, ◌*◌, ◌<◌, ◌≤◌, ◌≡◌, ◌≢◌, ◌⊎◌, refl, ◌∙◌, ap, inl, inr, arith, true, false, Option, none, some,
  List, [], ◌∷◌, ◌==◌, Bool-cases, ==→eq, eq→==, ne→==, lt→ltb, update,
}
use bitch.Kmm.{globl_page_num}
use bitch.Pmm.{page_size}
use bitch.Pmm.Inv
use bitch.Umm.{umm_handler, umm_free}
use bitch.Umm.Tables.{IsTables}
use bitch.Umm.Fault.{Filled, NotFilled, umm_handler_lem}
use bitch.Process.{exit, process_exit}
use bitch.Interrupt.{
  IntrRegs, Handler, Interrupts, Outcome, returns, stays, int_handler, run, user_code,
  reg_irq_handler, intr_init,
}
use bitch.Interrupt.Registration.{reg_all}
use bitch.Interrupt.Delivery.{delivered, prepared, interrupt_lem}
use bitch.System.{System, umm_of, with_umm, current_pde, exec_exit, user_isr_handler}

-- The program goes on, with the page of the faulting address filled; only the page tables and the allocators
-- of pages have changed.
abbrev pub Resumed : (s : System) (dir : ℕ) → IntrRegs → System → Type 0
Resumed s dir regs t =
    (regs.int_code ≡ 0x0e)
    × Filled (umm_of s) dir s.fault_attr (umm_handler (umm_of s) s.fault_attr (current_pde s))
    × (t ≡ with_umm s (umm_handler (umm_of s) s.fault_attr (current_pde s)).1)

-- The program has ended: its process is marked, and holds the kernel's page directory, which the processor has
-- loaded; its own is given back, and the other processes are as they were.
pub record Killed (kernel_pde : ℕ) (s t : System) : Type 0 where
  pub ended :
      t.sched.procs s.sched.current
      ≡ record (s.sched.procs s.sched.current) { pde = kernel_pde; state = exit }
  pub others : (a : ℕ) → a ≢ s.sched.current → t.sched.procs a ≡ s.sched.procs a
  pub loaded : t.sched.cr3 ≡ kernel_pde
  pub freed : umm_of t ≡ umm_free (umm_of s) (current_pde s)

exec_exit-Killed :
    (kernel_pde : ℕ) (s : System) → Killed kernel_pde s (exec_exit kernel_pde s).state
unfolding exec_exit process_exit update
exec_exit-Killed kernel_pde s = record {
  ended = rw (eq→== s.sched.current s.sched.current refl) refl;
  others = λ a ne. rw (ne→== a s.sched.current ne) refl;
  loaded = refl;
  freed = refl;
}

-- A program whose exception is not served, or is no page fault, ends; `t` is the system after it.
abbrev pub Ends : (kernel_pde : ℕ) (s : System) (dir : ℕ) → IntrRegs → System → Type 0
Ends kernel_pde s dir regs t =
    let r = umm_handler (umm_of s) s.fault_attr (current_pde s) in
    ((regs.int_code ≡ 0x0e)
      × NotFilled (umm_of s) dir s.fault_attr r
      × Killed kernel_pde (with_umm s r.1) t)
    ⊎ ((regs.int_code ≢ 0x0e) × Killed kernel_pde s t)

module _ (kernel_pde : ℕ) (s : System) (dir : ℕ) (regs : IntrRegs) where
  not_filled :
      let r = umm_handler (umm_of s) s.fault_attr (current_pde s) in
      (regs.int_code == 0x0e) ≡ true
      → NotFilled (umm_of s) dir s.fault_attr r
      → user_isr_handler kernel_pde regs s ≡ (none, (exec_exit kernel_pde (with_umm s r.1)).state)
  unfolding user_isr_handler
  not_filled code (null, _, _) = rw (code, null) refl

  filled :
      let r = umm_handler (umm_of s) s.fault_attr (current_pde s) in
      (regs.int_code == 0x0e) ≡ true
      → Filled (umm_of s) dir s.fault_attr r
      → user_isr_handler kernel_pde regs s ≡ (some regs, with_umm s r.1)
  unfolding user_isr_handler
  filled code (p, one, _, _, _) = rw (code, one) refl

  other_code :
      (regs.int_code == 0x0e) ≡ false
      → user_isr_handler kernel_pde regs s ≡ (none, (exec_exit kernel_pde s).state)
  unfolding user_isr_handler
  other_code code = rw code refl

  user_isr_handler_lem :
      NotFilled (umm_of s) dir s.fault_attr (umm_handler (umm_of s) s.fault_attr (current_pde s))
        ⊎ Filled (umm_of s) dir s.fault_attr (umm_handler (umm_of s) s.fault_attr (current_pde s))
      → ((t : System) × (user_isr_handler kernel_pde regs s ≡ (some regs, t))
          × Resumed s dir regs t)
        ⊎ ((t : System) × (user_isr_handler kernel_pde regs s ≡ (none, t))
            × Ends kernel_pde s dir regs t)
  user_isr_handler_lem page =
      let r = umm_handler (umm_of s) s.fault_attr (current_pde s) in
      elim (Bool-cases (regs.int_code == 0x0e)) [
        | inl e ↦ elim page [
          | inl missed ↦ inr (
            (exec_exit kernel_pde (with_umm s r.1)).state,
            not_filled e missed,
            inl (==→eq regs.int_code 0x0e e, missed, exec_exit-Killed kernel_pde (with_umm s r.1)),
          )
          | inr done ↦ inl (with_umm s r.1, filled e done, (==→eq regs.int_code 0x0e e, done, refl))
        ]
        | inr e ↦ inr (
          (exec_exit kernel_pde s).state,
          other_code e,
          inr (λ same. ground (arith, e, same), exec_exit-Killed kernel_pde s),
        )
      ]

module _ {S : Type 0} where
  -- The outcome of a handler's result.
  abbrev ran : Interrupts S → Option IntrRegs × S → Outcome S
  ran t (none, u) = stays (record t { caller = u })
  ran t (some regs, u) = returns regs (record t { caller = u })

  ran_lem :
      (t : Interrupts S) (r : Option IntrRegs × S)
      → elim r.0 [
        | none ↦ stays (record t { caller = r.1 })
        | some out ↦ returns out (record t { caller = r.1 })
      ]
        ≡ ran t r
  ran_lem t (none, u) = refl
  ran_lem t (some regs, u) = refl

  reg_irq_handler-caller :
      (s : Interrupts S) (n : ℕ) (handler : Option (Handler S))
      → (reg_irq_handler s n handler).caller ≡ s.caller
  unfolding reg_irq_handler
  reg_irq_handler-caller s n handler = ground arith

  reg_all-caller :
      (s : Interrupts S) (rs : List (ℕ × Option (Handler S))) → (reg_all s rs).caller ≡ s.caller
  unfolding reg_all
  reg_all-caller s [] = refl
  reg_all-caller s ((n, handler) ∷ rs) =
      reg_all-caller (reg_irq_handler s n handler) rs ∙ reg_irq_handler-caller s n handler

  prepared-caller :
      (idt : ℕ) (stub : ℕ → ℕ) (s0 : Interrupts S) (user : Option (Handler S))
      (rs : List (ℕ × Option (Handler S)))
      → (prepared idt stub s0 user rs).caller ≡ s0.caller
  unfolding prepared intr_init
  prepared-caller idt stub s0 user rs = reg_all-caller _ rs

  -- An exception of a program is a run of the handler for programs.
  run_user :
      (t : Interrupts S) (f : Handler S) (rs : List (ℕ × Option (Handler S))) (regs : IntrRegs)
      (s : S)
      → regs.int_code < 0x14
      → regs.cs ≡ user_code
      → t.caller ≡ s
      → delivered t (some f) rs regs ≡ ran t (f regs s)
  unfolding delivered run
  run_user t f rs regs s low user at =
      rw (lt→ltb regs.int_code 0x14 low, eq→== regs.cs user_code user, at) (ran_lem t (f regs s))

-- After `intr_init` and once `user_isr_handler` and any handlers for devices have been registered, let a program
-- raise an exception, over well-formed tables, a valid page allocator and a direct map of at least one page. A
-- page fault that can be served returns to the same registers: the page of its address is mapped, and nothing but
-- the page tables and the allocators has changed. Any other exception, and a page fault that cannot be served,
-- never returns: the program's process has ended, `umm_free` has taken its memory back, the kernel's page
-- directory is loaded, and the other processes are as they were.
pub int_handler-user :
    (kernel_pde idt : ℕ) (stub : ℕ → ℕ) (s0 : Interrupts System)
    (rs : List (ℕ × Option (Handler System))) (regs : IntrRegs) (dir : ℕ)
    → regs.int_code < 0x14
    → regs.cs ≡ user_code
    → current_pde s0.caller ≡ dir * page_size
    → IsTables (umm_of s0.caller) dir
    → Inv.IsValid s0.caller.sched.vmm.pmm
    → 0 < s0.caller.sched.vmm.dmmap_page_count
    → s0.caller.sched.vmm.dmmap_page_count ≤ globl_page_num
    → let t : Interrupts System = prepared idt stub s0 (some (user_isr_handler kernel_pde)) rs in
      ((u : System) × (int_handler t regs ≡ returns regs (record t { caller = u }))
        × Resumed s0.caller dir regs u)
      ⊎ ((u : System) × (int_handler t regs ≡ stays (record t { caller = u }))
          × Ends kernel_pde s0.caller dir regs u)
int_handler-user kernel_pde idt stub s0 rs regs dir low user pde tables valid some_direct direct =
    let s : System = s0.caller in
    let f : Handler System = user_isr_handler kernel_pde in
    let t : Interrupts System = prepared idt stub s0 (some f) rs in
    let page : NotFilled (umm_of s) dir s.fault_attr
          (umm_handler (umm_of s) s.fault_attr (current_pde s))
        ⊎ Filled (umm_of s) dir s.fault_attr (umm_handler (umm_of s) s.fault_attr (current_pde s)) =
      rw pde (umm_handler_lem (umm_of s) dir s.fault_attr tables valid some_direct direct) in
    let handled : int_handler t regs ≡ ran t (f regs s) =
      (interrupt_lem idt stub s0 (some f) rs regs 0 (omega (arith, low)) (omega arith)).0
      ∙ run_user t f rs regs s low user (prepared-caller idt stub s0 (some f) rs) in
    elim (user_isr_handler_lem kernel_pde s dir regs page) [
      | inl (u, this, resumed) ↦ inl (u, handled ∙ ap (ran t) this, resumed)
      | inr (u, this, ends) ↦ inr (u, handled ∙ ap (ran t) this, ends)
    ]
