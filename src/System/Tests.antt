-- ===== src/System/Tests.antt =====
-- The theorems on programs at the small machine of Umm/Tests, with a program in the process at 0x5000.
use bitch.Base.{
  ◌-◌, ℕ, ◌*◌, ◌≡◌, ◌≢◌, ◌==◌, if◌then◌else◌, ◌∷◌, ◌⊎◌, refl, arith, false, true, none, some, [],
}
use bitch.Umm.Tests.{machine, machine-IsTables, machine_memory}
use bitch.Keyboard.{Keyboard}
use bitch.Keyboard.Driver.{Atkbd, keyboard_init, typed_at, keyboard_init-typed_at}
use bitch.Keyboard.Typed.{handle_all}
use bitch.Input.{Input}
use bitch.Process
use bitch.Process.{Process, Sched}
use bitch.Console.{Console}
use bitch.Console.Put.{IsOnScreen}
use bitch.Descriptor.{gdt_kernel_code_index, set_gate_descriptor}
use bitch.Interrupt.{
  IntrRegs, Interrupts, returns, stays, int_handler, run, intr_init, reg_user_isr_handler,
  user_code,
}
use bitch.Interrupt.Delivery.{prepared}
use bitch.System.{System, umm_of, with_umm, bytes_of, exec, syscall_handler, user_isr_handler}
use bitch.System.Put.{PutRefused, PutDone, syscall_handler-put}
use bitch.Strings.Copy.{IsString}
use bitch.System.Exec.{Ran, exec_lem}
use bitch.System.Entry.{serving, syscall_init_lem}
use bitch.System.Search.{Begun, exec_init, exec_init_lem}
use bitch.Umm.{umm_alloc_pde}
use bitch.Elf.{at_address}
use bitch.Fs.{fs_read, fs_fat}
use bitch.Fat.{Fat, fat16}
use bitch.Fat.Dir.{
  search_name, check_parts, root_entries, read_root_dir_entry, get_root_file, lfn_cmp, differ_from,
  lfn_char,
}
use bitch.Fat.Lookup.{fat_read, get_path, path_loop, look_up, read_file}
use bitch.Strings.{strchr, strlen}
use bitch.Ata.{
  Drive, ata_read, read_run, send_read, answer, ata_read_data, read_sectors, read_words, store_byte,
  end_of_read, ata_io_lock, ata_read_lba28,
}
use bitch.Ata.Command.{device_base}
use bitch.Ata.Tests.{drive_of}
use bitch.Disk.{Disks, disk_read, disk_fread, get_disk, get_disk_loop}
use bitch.Disk.Tests.{ata, empty, one_disk}
use bitch.Disk.Find.{Chain}
use bitch.System.Fault.{Resumed, Ends, int_handler-user}

abbrev program : Process
program = record {
  state = Process.run;
  pid = 2;
  stack_top = 0x7000;
  pde = 0x1000;
  context = record { esp = 0; ebp = 0; eflags = 0 };
  lock_ptr = 0;
  tick = 0;
  next = 0x5000;
}

abbrev scheduler : Sched
scheduler = record {
  procs = λ a. program;
  locks = λ a. 0;
  current = 0x5000;
  new_pid = 3;
  ticks = 0;
  handled = false;
  vmm = machine.vmm;
  words = λ a. 0;
  esp0 = 0x7000;
  cr3 = 0x1000;
  cpu = record { esp = 0; ebp = 0; eflags = 0 };
}

abbrev screen : Console
screen = record {
  cells = λ q. record { char = 0; color = 7 };
  attribute = 7;
  columns = 80;
  lines = 25;
  xpos = 3;
  ypos = 1;
  cursor_h = 0;
  cursor_l = 0;
}

screen-IsOnScreen : IsOnScreen screen
screen-IsOnScreen = record { columns = refl; lines = refl; xpos = omega arith; ypos = omega arith }

-- All of memory holds the letter A.
abbrev system : System
system = record {
  sched = scheduler;
  mem = machine.mem;
  heap_pos = 0;
  header_at = λ a. record { last = 0; next = 0; length = 0 };
  keyboard = record {
    key_callback = none;
    key_flags = 0;
    input_mode = 2;
    console = screen;
    caller = record { key_c = 0; key_len = 0; key_lock = 0; memory = λ a. 0x41 };
  };
  fault_attr = 0x8123;
}

abbrev regs_of : (eax code : ℕ) → IntrRegs
regs_of eax code = record {
  ds = 0;
  edi = 0;
  esi = 0;
  ebp = 0;
  esp = 0;
  ebx = 0x8010;
  edx = 0;
  ecx = 2;
  eax = eax;
  int_code = code;
  err_code = 0;
  eip = 0;
  cs = user_code;
  eflags = 0;
  useresp = 0;
  ss = 0;
}

syscall_handler-put_example :
    PutRefused system
      (regs_of 3 0xbe)
      (syscall_handler 0x2000 0 0 (λ s. s) (λ s. s) 0 0 (regs_of 3 0xbe) system)
    ⊎ PutDone system
        (regs_of 3 0xbe)
        (syscall_handler 0x2000 0 0 (λ s. s) (λ s. s) 0 0 (regs_of 3 0xbe) system)
syscall_handler-put_example =
    syscall_handler-put 0x2000 0 0 (λ s. s) (λ s. s) 0 0 (regs_of 3 0xbe) system refl
      screen-IsOnScreen (omega arith, omega arith, (omega arith, omega arith, tt)) (omega arith)

abbrev boot_of : {S : Type 0} → S → Interrupts S
boot_of s = record {
  intr_handler_list = λ k. none;
  user_isr_handler = none;
  irq_handler_list = λ k. none;
  master_int_mask = 0;
  slave_int_mask = 0;
  idt_list = λ k. set_gate_descriptor 0 0 0;
  idtr = record { limit = 0; base_attr = 0 };
  ports = [];
  caller = s;
}

abbrev boot : Interrupts System
boot = boot_of system

abbrev ready : Interrupts System
ready = prepared 0x20_0000 (λ k. 0x10_0000) boot (some (user_isr_handler 0x2000)) []

int_handler-user_example :
    ((u : System) × (int_handler ready (regs_of 0 0x0e)
        ≡ returns (regs_of 0 0x0e) (record ready { caller = u }))
      × Resumed system 1 (regs_of 0 0x0e) u)
    ⊎ ((u : System) × (int_handler ready (regs_of 0 0x0e) ≡ stays (record ready { caller = u }))
        × Ends 0x2000 system 1 (regs_of 0 0x0e) u)
int_handler-user_example =
    int_handler-user 0x2000 0x20_0000 (λ k. 0x10_0000) boot [] (regs_of 0 0x0e) 1 (omega arith) refl
      refl machine-IsTables machine_memory (omega arith) (omega arith)

-- An A and then zeros.
abbrev named : System
named = record system {
  keyboard = record system.keyboard {
    caller = record system.keyboard.caller { memory = λ a. if a == 0x9000 then 0x41 else 0 };
  };
}

named-IsString : IsString (at_address (bytes_of named) 0x9000) 1
named-IsString = (λ j low e. ground (arith, low, e), refl)

exec_lem_example :
    let pde = umm_alloc_pde (umm_of named) 0x2000 in
    (r : ℕ × System) × (exec 0x2000 0x700 0x900 2 0x9000 named ≡ some r)
    × (((pde.0 ≡ 0) × (r ≡ (0, with_umm named pde.1)))
        ⊎ ((pde.0 ≢ 0) × Ran 0x700 0x900 pde.0 0x9000 1 (with_umm named pde.1) r))
exec_lem_example =
    exec_lem 0x2000 0x700 0x900 2 0x9000 1 named named-IsString (omega arith) (omega arith)

syscall_init_lem_example :
    (int_handler
        (serving 0x20_0000 (λ k. 0x10_0000) boot none [] (λ regs s. (some regs, s)))
        (regs_of 3 0xbe)
      ≡ run
          (serving 0x20_0000 (λ k. 0x10_0000) boot none [] (λ regs s. (some regs, s)))
          (λ regs s. (some regs, s))
          (regs_of 3 0xbe))
    × ((serving 0x20_0000 (λ k. 0x10_0000) boot none [] (λ regs s. (some regs, s))).idt_list 0xbe
        ≡ set_gate_descriptor (8 * gdt_kernel_code_index) 0x10_0000 0xee)
syscall_init_lem_example =
    syscall_init_lem 0x20_0000 (λ k. 0x10_0000) boot none [] (λ regs s. (some regs, s))
      (regs_of 3 0xbe) (omega arith)

-- "init"
abbrev name_char : ℕ → ℕ
name_char j =
    if j == 0
    then 0x69
    else if j == 1
    then 0x6e
    else if j == 2
    then 0x69
    else if j == 3
    then 0x74
    else 0

-- A volume whose root directory holds an empty file of this name, with its long name in one part in front.
abbrev volume_byte : ℕ → ℕ
volume_byte b =
    if b == 1024
    then 0x41
    else if b == 1025
    then 0x69
    else if b == 1027
    then 0x6e
    else if b == 1029
    then 0x69
    else if b == 1031
    then 0x74
    else if b == 1035
    then 0x0f
    else if b == 1056
    then 0x49
    else if b == 1067
    then 0x20
    else 0

abbrev volume : Fat
volume = record {
  disk_id = 0;
  fat_type = fat16;
  sector_size = 512;
  cluster_size = 512;
  start_cluster = 4;
  fat_sector = 1;
  root_dir_cluster = 0;
  root_dir_sector = 2;
  root_dir_count = 16;
}

abbrev init_disk : Disks
init_disk = record one_disk { disk_at = λ a. record (one_disk.disk_at a) { fs = fs_fat volume } }

abbrev init_drives : ℕ → Drive
init_drives n = drive_of volume_byte

abbrev starting : Interrupts System
starting = record boot {
  caller = record system {
    keyboard = record system.keyboard {
      caller = record system.keyboard.caller { memory = λ a. name_char (a - 0x9000) };
    };
  };
}

init_disk-Chain : Chain init_disk.disk_at 0 init_disk.new_id init_disk.header (0x100 ∷ [])
unfolding Chain
init_disk-Chain = (refl, omega arith, omega arith, (refl, omega arith))

found_file :
    disk_fread ata init_drives 6 init_disk 0 empty
      (at_address (bytes_of starting.caller) 0x9000)
      empty
      0
      0
    ≡ some (some 0, empty)
unfolding disk_fread get_disk get_disk_loop fs_read fat_read disk_read ata_read get_path path_loop
    look_up get_root_file search_name check_parts root_entries read_root_dir_entry lfn_cmp
    differ_from lfn_char read_file strchr strlen read_run send_read answer ata_read_data
    read_sectors read_words store_byte end_of_read ata_io_lock ata_read_lba28 device_base
found_file = refl

abbrev controller : Atkbd (Keyboard Input)
controller = record { atkbd_handler = none; ilock = 1; port = 0; caller = system.keyboard }

-- The left shift key down, the A down and up, and shift up.
keyboard_init-typed_at_example :
    let t = keyboard_init (λ i. 0) (intr_init 0x20_0000 (λ k. 0x10_0000) (boot_of controller)) in
    (typed_at
      (λ i. 0)
      (record t { caller = record t.caller { caller = system.keyboard } })
      (regs_of 0 0x21)
      (0x2a ∷ 0x1e ∷ 0x9e ∷ 0xaa ∷ [])).caller.caller
    ≡ handle_all (λ i. 0) system.keyboard (0x2a ∷ 0x1e ∷ 0x9e ∷ 0xaa ∷ [])
keyboard_init-typed_at_example =
    keyboard_init-typed_at (λ i. 0) 0x20_0000 (λ k. 0x10_0000) (boot_of controller) system.keyboard
      (regs_of 0 0x21) (0x2a ∷ 0x1e ∷ 0x9e ∷ 0xaa ∷ []) refl

starting-IsString : IsString (at_address (bytes_of starting.caller) 0x9000) 4
starting-IsString = (λ j low e. ground (arith, low, e), refl)

exec_init_lem_example :
    Begun 0x2000 0x700 0x900 0x9000 4 5
      (reg_user_isr_handler starting (some (user_isr_handler 0x2000)))
      (some 0)
      (exec_init ata init_drives 6 0x2000 0x700 0x900 0x9000 2 init_disk empty empty 5 starting)
exec_init_lem_example =
    exec_init_lem ata init_drives 6 0x2000 0x700 0x900 0x9000 4 2 init_disk empty empty 5 starting
      (0x100 ∷ []) (λ id. true) init_disk-Chain ((0, empty, found_file), tt) (omega arith)
      starting-IsString (omega arith) (omega arith)
