-- ===== src/Process/Tests.antt =====
-- The theorems on processes at a ring of four and at a lone process.
use bitch.Base.{ℕ, ◌≡◌, refl, ◌==◌, if◌then◌else◌, true, some, none, inl, [], ◌∷◌, arith}
use bitch.Pmm.{pmm_init, pmm_alloc_page}
use bitch.Vmm.{
  Vmm, vmm_alloc_page, vmm_alloc_loop, slot_run, take_slots, back_run, get_vmm_page, map_slot,
}
use bitch.Process.{State, run, exit, lock, Context, Process, Sched, process_switch, process_create}
use bitch.Process.Create.{Entered, process_switch-process_create}
use bitch.Process.Hang.{process_switch_hangs}
use bitch.Process.Ring.{Switched}
use bitch.Process.Switch.{process_switch_lem}

abbrev mapper : Vmm
mapper = record {
  pmm = (pmm_init (λ i. 0) 0x3ffe 16).0;
  pte = λ i. 0;
  dmmap_page_count = 16;
  vmmap_page_count = 0x2fff0;
  vmm_free_page_count = 0x2fff0;
  vmm_pos = 0x2ffef;
}

abbrev no_context : Context
no_context = record { esp = 0; ebp = 0; eflags = 0 }

-- A process that is linked to `next`.
abbrev process : State → ℕ → Process
process state next = record {
  state = state;
  pid = 0;
  stack_top = 0;
  pde = 0;
  context = no_context;
  lock_ptr = 1;
  tick = 9;
  next = next;
}

abbrev system : (ℕ → Process) → Sched
system procs = record {
  procs = procs;
  locks = λ a. 1;
  current = 0x1000;
  new_pid = 4;
  ticks = 5;
  handled = true;
  vmm = mapper;
  words = λ a. 0;
  esp0 = 0;
  cr3 = 0;
  cpu = no_context;
}

-- The current process at 0x1000, and behind it one that has ended, one that waits for a lock, and
-- one that can run.
abbrev four : ℕ → Process
four a =
    if a == 0x1000
    then process run 0x2000
    else if a == 0x2000
    then process exit 0x3000
    else if a == 0x3000
    then process lock 0x4000
    else process run 0x1000

process_switch_lem_example :
    (t : Sched) × (process_switch 3 (system four) 5 ≡ some t)
    × Switched (system four) 0x1000 0x1000 (0x2000 ∷ 0x3000 ∷ []) 0x4000 t
process_switch_lem_example =
    process_switch_lem (0x2000 ∷ 0x3000 ∷ []) 3 (system four) 5 0x4000 (omega arith)
      (refl, (refl, refl)) refl (refl, (refl, tt))
      (
        ((λ e. absurd (omega (arith, e))), ((λ e. absurd (omega (arith, e))), tt)),
        (((λ e. absurd (omega (arith, e))), tt), (tt, tt)),
      )

-- Every process waits for a lock that is held.
process_switch_hangs_example : process_switch 100 (system (λ a. process lock 0x1000)) 5 ≡ none
process_switch_hangs_example =
    process_switch_hangs (system (λ a. process lock 0x1000)) 5 (λ a. Unit) (λ a _. tt)
      (λ a _. inl (refl, λ e. absurd (omega (arith, e)))) 100 tt

stack_is : (vmm_alloc_page mapper 2).0 ≡ 0x2fffe000
unfolding vmm_alloc_page vmm_alloc_loop slot_run take_slots back_run get_vmm_page map_slot
    pmm_alloc_page pmm_init
stack_is = refl

process_switch-process_create_example :
    let s = system (λ a. process run 0x1000) in
    ((process_create s 0x700 8 0x900 0xa000).0 ≡ 4)
    × (t : Sched) × (process_switch 1 (process_create s 0x700 8 0x900 0xa000).1 5 ≡ some t)
    × Entered s (vmm_alloc_page mapper 2).0 0x700 8 0x900 0xa000 t
process_switch-process_create_example =
    process_switch-process_create (system (λ a. process run 0x1000)) 0x700 8 0x900 0xa000 0 5
      (λ e. absurd (omega (arith, e, stack_is))) (λ e. absurd (omega (arith, e, stack_is)))
      (omega (arith, stack_is))
