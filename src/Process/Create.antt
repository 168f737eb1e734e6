-- ===== src/Process/Create.antt =====
-- `process_create` and `process_init` of kernel/process/process.c.
use bitch.Base.{
  ℕ, suc, ◌+◌, ◌<◌, ◌^◌, ◌≡◌, refl, ◌∙◌, sym, ap, ◌≢◌, true, false, some, [], arith, ◌==◌, eq→==,
  ne→==, update, add32, sub32,
}
use bitch.Vmm.{Vmm, vmm_alloc_page}
use bitch.Process.{
  run, Process, Sched, start_process, process_create, process_switch, process_init,
  init_current_process, init_tss, process_unlock, kernel_stack_size,
}
use bitch.Process.Ring.{Switched}
use bitch.Process.Switch.{process_switch_lem}

-- The process that `start_process` makes at `new`.
module _ (s : Sched) (new fn arg exit_fn pde : ℕ) (apart : new ≢ s.current)
    (room : new + kernel_stack_size < 2 ^ 32) where
  abbrev started : Sched
  started = start_process s new fn arg exit_fn pde

  started_next : (started.procs s.current).next ≡ new
  unfolding start_process update
  started_next = rw (eq→== s.current s.current refl) refl

  -- A field of the new process.
  started_field :
      {A : Type 0} (f : Process → A)
      → f (started.procs new)
        ≡ f (record (s.procs new) {
          state = run;
          pid = s.new_pid;
          stack_top = add32 new kernel_stack_size;
          pde = pde;
          context = record (s.procs new).context {
            esp = sub32 (add32 new kernel_stack_size) 12;
            eflags = 0x200;
          };
          next = (s.procs s.current).next;
        })
  unfolding start_process update
  started_field f = rw (ne→== new s.current apart, eq→== new new refl) refl

  started_words :
      (started.words (new + 0x1ff4) ≡ fn)
      × (started.words (new + 0x1ff8) ≡ exit_fn)
      × (started.words (new + 0x1ffc) ≡ arg)
  unfolding start_process update
  started_words = ground arith

  started_current : started.current ≡ s.current
  unfolding start_process
  started_current = refl

-- What it takes for a new process to start as `fn arg` that returns into `exit_fn`: `ret` pops the
-- word at the stack's pointer.
pub record Entered (s : Sched) (new fn arg exit_fn pde : ℕ) (t : Sched) : Type 0 where
  pub current : t.current ≡ new
  pub runs : (t.procs new).state ≡ run
  pub esp : t.cpu.esp ≡ new + 0x1ff4
  pub eflags : t.cpu.eflags ≡ 0x200
  pub esp0 : t.esp0 ≡ new + 0x2000
  pub cr3 : s.cr3 ≡ (s.procs s.current).pde → t.cr3 ≡ pde
  pub entry : t.words (new + 0x1ff4) ≡ fn
  pub back : t.words (new + 0x1ff8) ≡ exit_fn
  pub first : t.words (new + 0x1ffc) ≡ arg
  pub in_ring : (t.procs s.current).next ≡ new
  pub ahead : (t.procs new).next ≡ (s.procs s.current).next
  pub saved : (t.procs s.current).context ≡ s.cpu

module _ (s : Sched) (m : Vmm) (new fn arg exit_fn pde : ℕ) (apart : new ≢ s.current)
    (room : new + kernel_stack_size < 2 ^ 32) where
  abbrev given : Sched
  given = record s { vmm = m }

  abbrev made : Sched
  made = start_process given new fn arg exit_fn pde

  made_pde : (made.procs s.current).pde ≡ (s.procs s.current).pde
  unfolding start_process update
  made_pde = rw (eq→== s.current s.current refl, ne→== s.current new (λ e. apart (sym e))) refl

  made_rest : (made.cr3 ≡ s.cr3) × (made.cpu ≡ s.cpu)
  unfolding start_process
  made_rest = (refl, refl)

  made-Entered :
      (t : Sched) → Switched made s.current s.current [] new t → Entered s new fn arg exit_fn pde t
  made-Entered t w =
      let off : (new == s.current) ≡ false = ne→== new s.current apart in
      let words = started_words given new fn arg exit_fn pde apart room in
      let cpu : t.cpu ≡ (made.procs new).context = rw off at w.cpu in
      let esp0 : t.esp0 ≡ (made.procs new).stack_top = rw off at w.esp0 in
      record {
        current = rw off at w.current;
        runs =
            w.states new tt ∙ started_field given new fn arg exit_fn pde apart room (λ x. x.state);
        esp =
            ap (λ c. c.esp) cpu
            ∙ started_field given new fn arg exit_fn pde apart room (λ x. x.context.esp)
            ∙ omega (arith, room);
        eflags =
            ap (λ c. c.eflags) cpu
            ∙ started_field given new fn arg exit_fn pde apart room (λ x. x.context.eflags);
        esp0 =
            esp0
            ∙ started_field given new fn arg exit_fn pde apart room (λ x. x.stack_top)
            ∙ omega (arith, room);
        cr3 = λ loaded.
            w.cr3 (made_rest.0 ∙ loaded ∙ sym made_pde)
            ∙ started_field given new fn arg exit_fn pde apart room (λ x. x.pde);
        entry = ap (λ m. m (new + 0x1ff4)) w.words ∙ words.0;
        back = ap (λ m. m (new + 0x1ff8)) w.words ∙ words.1;
        first = ap (λ m. m (new + 0x1ffc)) w.words ∙ words.2;
        in_ring = w.ring;
        ahead =
            w.frame new apart tt
            ∙ started_field given new fn arg exit_fn pde apart room (λ x. x.next);
        saved = w.saved apart ∙ made_rest.1;
      }

moved_start : (s t : Sched) (c d r : ℕ) → c ≡ d → Switched s c c [] r t → Switched s d d [] r t
moved_start s t c d r e w = rw e at w

-- Once `vmm_alloc_page` has given a stack that is not NULL, does not reach the end of memory and is
-- not the current process's, `process_create` returns the new pid, and the next `process_switch`
-- enters the new process on that stack, at `fn` with `arg` and with `exit_fn` to return to, with
-- interrupts enabled; if the current process's page directory was loaded, the new one's is. The new
-- process stands in the ring right behind the current one, whose registers are saved.
pub process_switch-process_create :
    (s : Sched) (fn arg exit_fn pde fuel tick : ℕ)
    → (vmm_alloc_page s.vmm 2).0 ≢ 0
    → (vmm_alloc_page s.vmm 2).0 ≢ s.current
    → (vmm_alloc_page s.vmm 2).0 + kernel_stack_size < 2 ^ 32
    → ((process_create s fn arg exit_fn pde).0 ≡ s.new_pid)
      × (t : Sched) × (process_switch (suc fuel) (process_create s fn arg exit_fn pde).1 tick
          ≡ some t)
      × Entered s (vmm_alloc_page s.vmm 2).0 fn arg exit_fn pde t
unfolding process_create
process_switch-process_create s fn arg exit_fn pde fuel tick got apart room =
    let new : ℕ = (vmm_alloc_page s.vmm 2).0 in
    let m : Vmm = (vmm_alloc_page s.vmm 2).1 in
    let given : Sched = record s { vmm = m } in
    let made : Sched = start_process given new fn arg exit_fn pde in
    let here : made.current ≡ s.current = started_current given new fn arg exit_fn pde apart room in
    let (t, e, w) =
      process_switch_lem [] (suc fuel) made tick new (omega arith)
        (ap (λ k. (made.procs k).next) here ∙ started_next given new fn arg exit_fn pde apart room)
        (started_field given new fn arg exit_fn pde apart room (λ x. x.state)) tt (tt, tt) in
    rw (ne→== new 0 got) (
      refl,
      t,
      e,
      made-Entered s m new fn arg exit_fn pde apart room t
          (moved_start made t made.current s.current new here w),
    )

-- `process_init` leaves one process, which is current and linked to itself, with the timer running,
-- but the kernel stack that it enters in the task state segment is that of address 0: the segment is
-- filled before there is a current process.
process_init-stray_stack :
    (s : Sched) (stack pde lock_ptr : ℕ)
    → s.current ≡ 0
    → 0 < stack
    → stack + kernel_stack_size < 2 ^ 32
    → let t = process_init s stack pde lock_ptr in
      (t.current ≡ stack)
      × ((t.procs stack).next ≡ stack)
      × ((t.procs stack).state ≡ run)
      × (t.locks lock_ptr ≡ 0)
      × (t.handled ≡ true)
      × (t.esp0 ≡ kernel_stack_size)
      × (t.esp0 ≢ (t.procs stack).stack_top)
unfolding process_init init_current_process init_tss process_unlock update
process_init-stray_stack s stack pde lock_ptr none_yet pos room =
    rw (eq→== stack stack refl, eq→== lock_ptr lock_ptr refl, none_yet)
      (refl, refl, refl, refl, refl, refl, λ e. absurd (omega (arith, e)))
