-- ===== src/Process.antt =====
-- Processes and their scheduling: kernel/process/process.c, wait.c and lock.c, with the interrupt
-- handler of driver/timer.c, which drives them. The processes form a ring through `next`. An
-- interrupt gate keeps interrupts off, so that a run of the handler is one step.
pub mod Create
pub mod Hang
pub mod Ring
pub mod Switch
pub mod Timer
mod Tests
use bitch.Base.{
  ℕ, zero, suc, ◌+◌, ◌-◌, ◌*◌, ◌/◌, ◌%◌, ◌^◌, Bool, true, false, Option, none, some, leb, ltb, ◌==◌,
  not, ◌&&◌, if◌then◌else◌, add32, sub32, mul32, update,
}
use bitch.Pmm.{page_size}
use bitch.Vmm.{Vmm, vmm_alloc_page, vmm_free_page}

-- The anonymous enum of `state`.
pub data State : Type 0 where
  run exit lock wait : State

-- `_context_t`
pub record Context : Type 0 where
  pub esp : ℕ
  pub ebp : ℕ
  pub eflags : ℕ

-- `_process_t`; `lock_ptr` is the field `lock`.
pub record Process : Type 0 where
  pub state : State
  pub pid : ℕ
  pub stack_top : ℕ
  pub pde : ℕ
  pub context : Context
  pub lock_ptr : ℕ
  pub tick : ℕ
  pub next : ℕ

-- The processes by their addresses, the locks by theirs, `current_process` and `new_pid`; the timer's
-- `tick`, and whether a `timer_handler` is registered; the page mapper, and the words of the kernel
-- stacks; and what the processor holds: the kernel stack of the task state segment, CR3, and the
-- registers that a context keeps.
pub record Sched : Type 0 where
  pub procs : ℕ → Process
  pub locks : ℕ → ℕ
  pub current : ℕ
  pub new_pid : ℕ
  pub ticks : ℕ
  pub handled : Bool
  pub vmm : Vmm
  pub words : ℕ → ℕ
  pub esp0 : ℕ
  pub cr3 : ℕ
  pub cpu : Context

-- KERNEL_STACK_SIZE
abbrev pub kernel_stack_size : ℕ
kernel_stack_size = 0x2000

abbrev pub set_proc : Sched → ℕ → Process → Sched
set_proc s a p = record s { procs = update s.procs a p }

-- `switch_context` saves the registers in the context of one process and loads another's.
abbrev pub switch_context : Sched → (prev next : ℕ) → Sched
switch_context s prev next = record (set_proc s prev (record (s.procs prev) { context = s.cpu })) {
  cpu = (s.procs next).context;
}

-- The branch for a process that can run.
unfoldable pub switch_to : Sched → (prev next : ℕ) → Sched
unfolding update
switch_to s prev next =
    let loaded : Sched = record s {
      current = next;
      esp0 = (s.procs next).stack_top;
      cr3 = if (s.procs prev).pde == (s.procs next).pde then s.cr3 else (s.procs next).pde;
    } in
    if next == prev then s else switch_context loaded prev next

-- The branch for a process that waits for a lock: it takes a lock that is free.
unfoldable pub try_lock : Sched → ℕ → Sched
unfolding update
try_lock s next =
    if s.locks (s.procs next).lock_ptr == 0
    then record s {
      locks = update s.locks (s.procs next).lock_ptr 1;
      procs = update s.procs next (record (s.procs next) { state = run });
    }
    else s

-- The branch for a process that waits for a time.
unfoldable pub try_wake : Sched → (tick next : ℕ) → Sched
unfolding update
try_wake s tick next =
    if leb (s.procs next).tick tick
    then set_proc s next (record (s.procs next) { state = run })
    else s

-- The branch for a process that has ended: it leaves the ring, and its pages are given back.
unfoldable pub remove_next : Sched → (last next : ℕ) → Sched
unfolding update
remove_next s last next =
    record (set_proc s last (record (s.procs last) { next = (s.procs next).next })) {
      vmm = vmm_free_page s.vmm next (kernel_stack_size / page_size);
    }

-- `process_switch` from the label `switch_to` on, on fuel; `none` means that the fuel ran out.
unfoldable pub switch_loop : ℕ → Sched → (tick prev last : ℕ) → Option Sched
switch_loop zero s tick prev last = none
switch_loop (suc fuel) s tick prev last =
    let next : ℕ = (s.procs last).next in
    elim (s.procs next).state [
      | run ↦ some (switch_to s prev next)
      | lock ↦ switch_loop fuel (try_lock s next) tick prev next
      | wait ↦ switch_loop fuel (try_wake s tick next) tick prev next
      | exit ↦ switch_loop fuel (remove_next s last next) tick prev last
    ]

unfoldable pub process_switch : ℕ → Sched → (tick : ℕ) → Option Sched
process_switch fuel s tick = switch_loop fuel s tick s.current s.current

-- The timer's interrupt, once `process_switch` is registered.
unfoldable pub irq0_handler : ℕ → Sched → Option Sched
irq0_handler fuel s =
    if s.handled then process_switch fuel (record s { ticks = add32 s.ticks 1 }) s.ticks else some s

abbrev pub get_timer_ticks : Sched → ℕ
get_timer_ticks s = s.ticks

-- `intr(TIMER_INT)` runs the timer's handler at once.
unfoldable pub process_wait : ℕ → Sched → (tick : ℕ) → Option Sched
unfolding update
process_wait fuel s tick = irq0_handler fuel (
    set_proc s s.current
      (record (s.procs s.current) { tick = add32 (get_timer_ticks s) tick; state = wait }))

unfoldable pub process_lock : ℕ → Sched → (lock_ptr : ℕ) → Option Sched
unfolding update
process_lock fuel s lock_ptr =
    irq0_handler fuel
      (set_proc s s.current (record (s.procs s.current) { lock_ptr = lock_ptr; state = lock }))

unfoldable pub process_unlock : Sched → (lock_ptr : ℕ) → Sched
unfolding update
process_unlock s lock_ptr = record s { locks = update s.locks lock_ptr 0 }

-- A call that does not return: the state in which the processor waits in it.
pub record Waits (S : Type 0) : Type 0 where
  pub state : S

-- The process waits in its loop from here on, until the timer's interrupt switches away from it for good.
unfoldable pub process_exit : Sched → Waits Sched
unfolding update
process_exit s = record {
  state = set_proc s s.current (record (s.procs s.current) { state = exit });
}

-- A process that `process_create` has been given the stack `new` for.
unfoldable pub start_process : Sched → (new fn arg exit_fn pde : ℕ) → Sched
unfolding update
start_process s new fn arg exit_fn pde =
    let stack_top : ℕ = add32 new kernel_stack_size in
    let started : Process = record (s.procs new) {
      state = run;
      pid = s.new_pid;
      stack_top = stack_top;
      pde = pde;
      context = record (s.procs new).context { esp = sub32 stack_top 12; eflags = 0x200 };
      next = (s.procs s.current).next;
    } in
    let entered : Sched = record (set_proc s new started) {
      new_pid = add32 s.new_pid 1;
      words =
          update (update (update s.words (sub32 stack_top 4) arg) (sub32 stack_top 8) exit_fn)
            (sub32 stack_top 12) fn;
    } in
    set_proc entered s.current (record (entered.procs s.current) { next = new })

unfoldable pub process_create : Sched → (fn arg exit_fn pde : ℕ) → ℕ × Sched
process_create s fn arg exit_fn pde =
    let (new, m) = vmm_alloc_page s.vmm (kernel_stack_size / page_size) in
    if new == 0
    then (0, record s { vmm = m })
    else (s.new_pid, start_process (record s { vmm = m }) new fn arg exit_fn pde)

-- `stack` is the address of `init_kernel_stack`, and `pde` that of `kernel_mmap_pde`.
unfoldable pub init_current_process : Sched → (stack pde : ℕ) → Sched
unfolding update
init_current_process s stack pde =
    record (set_proc s stack (record (s.procs stack) {
      state = run;
      pid = s.new_pid;
      stack_top = add32 stack kernel_stack_size;
      pde = pde;
      next = stack;
    })) { current = stack; new_pid = add32 s.new_pid 1 }

-- The kernel stack that `init_tss` enters.
unfoldable pub init_tss : Sched → Sched
init_tss s = record s { esp0 = add32 s.current kernel_stack_size }

-- `process_init` up to `exec_init`; `lock_ptr` is the address of its lock.
unfoldable pub process_init : Sched → (stack pde lock_ptr : ℕ) → Sched
process_init s stack pde lock_ptr =
    let ready : Sched = init_current_process (init_tss s) stack pde in
    record (process_unlock ready lock_ptr) { ticks = 0; handled = true }
