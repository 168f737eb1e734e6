-- ===== src/Process/Timer.antt =====
-- The timer's driver, driver/timer.c, and the lock that an interrupt opens, kernel/process/lock.c. The state of the
-- handlers is `none` once `process_switch` does not return.
use bitch.Base.{
  ℕ, ◌/◌, ◌%◌, ◌≡◌, refl, ◌∙◌, ap, true, false, arith, ltb, Option, some, ◌∷◌, ◌==◌, ◌&&◌, ◌||◌,
  if◌then◌else◌, sub32, update,
}
use bitch.Fat.Dir.{◌>>=◌}
use bitch.Interrupt.{
  IntrRegs, Handler, Interrupts, returns, run, call, irq, enter, outb, int_handler, reg_irq_handler,
  intr_init,
}
use bitch.Interrupt.Vectors.{intr_init-IsStarted}
use bitch.Process.{lock, Sched, set_proc, irq0_handler}

-- `halts` is what the interrupts do until the lock is open; a process that is alone waits for that.
unfoldable intr_lock : (halts : Sched → Sched) → ℕ → Sched → (lock_ptr : ℕ) → Option Sched
unfolding update
intr_lock halts fuel s lock_ptr =
    let asked : Sched = set_proc s s.current (record (s.procs s.current) { lock_ptr = lock_ptr }) in
    let alone = (asked.current == 0) || (asked.current == (asked.procs asked.current).next) in
    let t : Sched = if alone && (asked.locks lock_ptr == 1) then halts asked else asked in
    let waiting : Sched = set_proc t t.current (record (t.procs t.current) { state = lock }) in
    if t.locks lock_ptr == 1 then irq0_handler fuel waiting else some t

-- I8253_C0_IO, I8253_CTL_IO, TIMER_LATCH
abbrev i8253_c0_io : ℕ
i8253_c0_io = 0x40

abbrev i8253_ctl_io : ℕ
i8253_ctl_io = 0x43

abbrev timer_latch : ℕ
timer_latch = 1193180

unfoldable set_timer_frequency : {S : Type 0} → Interrupts S → (frequency : ℕ) → Interrupts S
set_timer_frequency {S = S} s frequency =
    let divisor : ℕ = timer_latch / frequency in
    let low : Interrupts S = outb (outb s 0x36 i8253_ctl_io) (divisor % 0x100) i8253_c0_io in
    outb low (divisor / 0x100 % 0x100) i8253_c0_io

abbrev reg_timer_handler : Sched → Sched
reg_timer_handler s = record s { ticks = 0; handled = true }

abbrev timer_irq : ℕ → Handler (Option Sched)
timer_irq fuel regs s = (some regs, s >>= irq0_handler fuel)

unfoldable init_timer : ℕ → Interrupts (Option Sched) → Interrupts (Option Sched)
init_timer fuel t =
    reg_irq_handler (record t { caller = t.caller >>= λ s. some (record s { handled = false }) }) 0
      (some (timer_irq fuel))

-- After `intr_init` and `init_timer`, and from any state of the scheduler on: an interrupt of the timer is a run of
-- `irq0_handler`.
init_timer-int_handler :
    (idt : ℕ) (stub : ℕ → ℕ) (s0 : Interrupts (Option Sched)) (fuel : ℕ) (s : Option Sched)
    (regs : IntrRegs)
    → regs.int_code ≡ 0x20
    → let t : Interrupts (Option Sched) = record (init_timer fuel (intr_init idt stub s0)) {
      caller = s;
    } in
      int_handler t regs
      ≡ returns regs (record t { ports = (0x20, 0x20) ∷ t.ports; caller = s >>= irq0_handler fuel })
unfolding init_timer reg_irq_handler update int_handler enter irq call run
init_timer-int_handler idt stub s0 fuel s regs code =
    let t : Interrupts (Option Sched) = record (init_timer fuel (intr_init idt stub s0)) {
      caller = s;
    } in
    let master : ltb regs.int_code 0x28 ≡ true = ground (arith, code) in
    let index : sub32 regs.int_code 0x20 ≡ 0 = omega (arith, code) in
    ap (λ c. enter t (t.intr_handler_list c) regs) code
    ∙ ap (λ h. enter t h regs) ((intr_init-IsStarted idt stub s0).handlers 0x20 (omega arith))
    ∙ rw (master, index) refl
