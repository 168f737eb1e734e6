-- ===== src/System.antt =====
-- Programs: kernel/process/exec.c, and the calls that a program makes to the kernel, kernel/syscall/syscall.c,
-- process.c and io.c. Some of the functions run with interrupts on, as others wait for them; each is one step here, and
-- its messages are left out.
pub mod Entry
pub mod Exec
pub mod Fault
pub mod Put
pub mod Search
mod Tests
use bitch.Base.{
  ℕ, zero, suc, ◌+◌, ◌-◌, Bool, Option, none, some, leb, ◌==◌, if◌then◌else◌, add32, update,
}
use bitch.Fat.Dir.{◌>>=◌}
use bitch.Umm.{Umm, umm_alloc_pde, umm_handler, umm_free, umm_mmap_kmm, umm_ummap_kmm}
use bitch.Heap.{AllocHeader, Heap, kmalloc}
use bitch.Process.{Process, Waits, Sched, set_proc, process_exit, process_create}
use bitch.Console.{Console, console_putchar}
use bitch.Keyboard.{Keyboard, reg_key_callback, set_input_mode}
use bitch.Input.{Input, key_get}
use bitch.Interrupt.{IntrRegs, Handler}
use bitch.Strings.{strlen, strcpy}
use bitch.Elf.{at_address, store_at}

-- The scheduler with the page mapper, the words of the page tables, the heap, the keyboard with the console
-- and with the bytes of memory, and the address of the last page fault. The regions are apart.
pub record System : Type 0 where
  pub sched : Sched
  pub mem : ℕ → ℕ
  pub heap_pos : ℕ
  pub header_at : ℕ → AllocHeader
  pub keyboard : Keyboard Input
  pub fault_attr : ℕ

-- The parts, and the system with a part changed.
abbrev pub umm_of : System → Umm
umm_of s = record { vmm = s.sched.vmm; mem = s.mem }

abbrev pub with_umm : System → Umm → System
with_umm s u = record s { sched = record s.sched { vmm = u.vmm }; mem = u.mem }

abbrev pub heap_of : System → Heap
heap_of s = record { pos = s.heap_pos; header_at = s.header_at; vmm = s.sched.vmm }

abbrev pub with_heap : System → Heap → System
with_heap s h = record s {
  sched = record s.sched { vmm = h.vmm };
  heap_pos = h.pos;
  header_at = h.header_at;
}

abbrev pub bytes_of : System → ℕ → ℕ
bytes_of s = s.keyboard.caller.memory

abbrev pub with_bytes : System → (ℕ → ℕ) → System
with_bytes s bytes = record s {
  keyboard = record s.keyboard { caller = record s.keyboard.caller { memory = bytes } };
}

abbrev pub console_of : System → Console
console_of s = s.keyboard.console

abbrev pub with_console : System → Console → System
with_console s c = record s { keyboard = record s.keyboard { console = c } }

-- `current_process -> pde`
abbrev pub current_pde : System → ℕ
current_pde s = (s.sched.procs s.sched.current).pde

-- `kernel_pde` is the address of `kernel_mmap_pde`.
module _ (kernel_pde : ℕ) where
  unfoldable pub exec_exit : System → Waits System
  unfolding update
  exec_exit s =
      let pde : ℕ = current_pde s in
      let current : Process = record (s.sched.procs s.sched.current) { pde = kernel_pde } in
      let left : System = record s {
        sched = record (set_proc s.sched s.sched.current current) { cr3 = kernel_pde };
      } in
      let freed : System = with_umm left (umm_free (umm_of left) pde) in
      record { state = record freed { sched = (process_exit freed.sched).state } }

  unfoldable pub user_isr_handler : Handler System
  user_isr_handler regs s =
      let r = umm_handler (umm_of s) s.fault_attr (current_pde s) in
      if regs.int_code == 0x0e
      then (if r.0 == 0
          then (none, (exec_exit (with_umm s r.1)).state)
          else (some regs, with_umm s r.1))
      else (none, (exec_exit s).state)

abbrev sys_exit : (kernel_pde : ℕ) → System → Waits System
sys_exit kernel_pde s = exec_exit kernel_pde s

-- `entry` and `exit` are the addresses of `binfmt_exec` and of `exec_exit`.
module _ (kernel_pde entry exit : ℕ) where
  -- `p` is the copy of the path.
  unfoldable pub start_exec : (pde p : ℕ) → System → ℕ × System
  start_exec pde p s =
      let r = process_create s.sched entry p exit pde in
      let t : System = record s { sched = r.1 } in
      if r.0 == 0 then (0, with_umm t (umm_free (umm_of t) pde)) else (r.0, t)

  -- What `exec` does with its page directory; the fuel is for the two loops over the path.
  unfoldable pub exec_in : (fuel pde path : ℕ) → System → Option (ℕ × System)
  exec_in fuel pde path s = strlen fuel (at_address (bytes_of s) path) 0 >>= λ len.
      let r = kmalloc (heap_of s) (add32 len 1) in
      let t : System = with_heap s r.1 in
      if r.0 == 0
      then some (0, t)
      else (strcpy fuel (at_address (bytes_of t) r.0) (at_address (bytes_of t) path) 0 >>= λ copy.
          some (start_exec pde r.0 (with_bytes t (store_at (bytes_of t) copy r.0))))

  unfoldable pub exec : (fuel path : ℕ) → System → Option (ℕ × System)
  exec fuel path s =
      let r = umm_alloc_pde (umm_of s) kernel_pde in
      let t : System = with_umm s r.1 in if r.0 == 0 then some (0, t) else exec_in fuel r.0 path t

  unfoldable pub sys_exec : (fuel path len : ℕ) → System → Option (ℕ × System)
  sys_exec fuel path len s =
      let m = umm_mmap_kmm (umm_of s) path len (current_pde s) in
      let t : System = with_umm s m.1 in
      if m.0 == 0
      then some (0, t)
      else (exec fuel m.0 t >>= λ r. some (r.0, with_umm r.1 (umm_ummap_kmm (umm_of r.1) m.0 len)))

-- The loop of `sys_put` at `i`.
unfoldable pub put_chars : System → (c i left : ℕ) → System
put_chars s c i zero = s
put_chars s c i (suc left) =
    put_chars (with_console s (console_putchar (console_of s) (bytes_of s (c + i)))) c (i + 1) left

unfoldable pub sys_put : (c len : ℕ) → System → ℕ × System
sys_put c len s =
    let m = umm_mmap_kmm (umm_of s) c len (current_pde s) in
    let t : System = with_umm s m.1 in
    let put : System = put_chars t m.0 0 len in
    if m.0 == 0 then (0, t) else (len, with_umm put (umm_ummap_kmm (umm_of put) m.0 len))

-- `lock` is the address of the lock of `sys_get` on its stack; `free` is what happens until no other program
-- reads, and `full` what happens until the lock is free: other programs and the keyboard's interrupts.
unfoldable pub start_get : (lock c len : ℕ) → System → System
unfolding update
start_get lock c len s =
    let input : Input = s.keyboard.caller in
    let waiting : Input = record input {
      key_lock = lock;
      key_c = c;
      key_len = len;
      memory = update input.memory lock 1;
    } in
    let k : Keyboard Input = record s.keyboard { caller = waiting } in
    record s { keyboard = reg_key_callback (set_input_mode k 2) (some key_get) }

unfoldable pub end_get : (lock c len : ℕ) → System → System
end_get lock c len s =
    let input : Input = s.keyboard.caller in
    let own : Input = if input.key_lock == lock then record input { key_lock = 0 } else input in
    let t : System = record s { keyboard = record s.keyboard { caller = own } } in
    with_umm t (umm_ummap_kmm (umm_of t) c len)

unfoldable pub sys_get : (free full : System → System) → (lock c len : ℕ) → System → ℕ × System
sys_get free full lock c len s =
    let m = umm_mmap_kmm (umm_of s) c len (current_pde s) in
    let t : System = with_umm s m.1 in
    if m.0 == 0
    then (0, t)
    else (len, end_get lock m.0 len (full (start_get lock m.0 len (free t))))

-- __SYS_exit and the others; SYSCALL_INT
abbrev pub sys_exit_number : ℕ
sys_exit_number = 0

abbrev pub sys_exec_number : ℕ
sys_exec_number = 1

abbrev pub sys_get_number : ℕ
sys_get_number = 2

abbrev pub sys_put_number : ℕ
sys_put_number = 3

abbrev pub syscall_int : ℕ
syscall_int = 0xbe

-- A result in `eax`.
abbrev pub give : IntrRegs → ℕ × System → Option IntrRegs × System
give regs r = (some (record regs { eax = r.0 }), r.1)

-- `none` is a lack of fuel for the path of `sys_exec`. Without registers it does not return.
unfoldable pub syscall_handler :
    (kernel_pde entry exit : ℕ) (free full : System → System) (lock fuel : ℕ)
    → IntrRegs
    → System
    → Option (Option IntrRegs × System)
syscall_handler kernel_pde entry exit free full lock fuel regs s =
    if regs.eax == sys_exit_number
    then some (none, (sys_exit kernel_pde s).state)
    else if regs.eax == sys_exec_number
    then (sys_exec kernel_pde entry exit fuel regs.ebx regs.ecx s >>= λ r. some (give regs r))
    else if regs.eax == sys_get_number
    then some (give regs (sys_get free full lock regs.ebx regs.ecx s))
    else if regs.eax == sys_put_number
    then some (give regs (sys_put regs.ebx regs.ecx s))
    else some (some regs, s)
