-- ===== src/Lib.antt =====
-- A model of the bitch kernel, a small 32-bit x86 kernel, with the theorems that make its parts
-- correct.
--
-- Parts and files. Each function keeps its C name; a loop of it is a function of its own.
--   Pmm    kernel/mm/pmm.c: the physical page allocator. `Pmm` is the file's static variables.
--   Kmm    kernel/mm/kmm.c, arch/x86/page.h: the kernel's page table and the fields of an entry.
--   Vmm    kernel/mm/vmm.c: the page mapper. `Vmm` is the file's static variables, with the page
--          allocator and the kernel's page table, which its functions call.
--   Umm    kernel/mm/umm.c, and `vmm_mmap_pde_page` of kernel/mm/vmm.c: the user page tables. `Umm`
--          is the page mapper with the words of memory, where the tables lie. Umm/Kernel is how the kernel reaches
--          a program's bytes.
--   Heap       kernel/mm/alloc.c: `kmalloc` and `kfree`. `Heap` is the list of blocks by their addresses, with
--          the page mapper, which gives them their pages.
--   Elf        kernel/binfmt/elf.c: the loading of a program. `Loader` is the user page tables with the bytes of
--          memory by their addresses in the kernel; `file_read` of kernel/dev/file.c is a parameter.
--   Interrupt  kernel/intr/stub.c, isr.c and init.c, driver/i8259.c: which handler an interrupt runs.
--          `Interrupts` is the files' static variables with the interrupt table, the bytes that
--          went to the controller's ports and the state of the handlers.
--   Process    kernel/process/process.c, wait.c, lock.c and switch.S, driver/timer.c: processes and their
--          scheduling. `Sched` holds the processes by their addresses, with the page mapper, which
--          gives them their stacks, and with the processor's registers that a switch changes.
--          Process/Timer sets the timer up, whose interrupt is a run of the scheduler.
--   Console    driver/cga.c and kernel/dev/console.c: the text screen. `Console` holds the cells, the
--          position and the display's cursor registers.
--   Descriptor  arch/x86/descriptor.c, kernel/mm/gdt.c, kernel/intr/idt.c: the segment and interrupt
--          tables.
--   Ata        driver/ata.c: reading from a disk and, in Ata/Write, writing to it. What a drive answers to the
--          bytes written to its ports is a parameter; Ata/Command says what a drive understands of
--          these bytes, and Ata/Identify what the driver makes of a drive's identification.
--   Strings    lib/string.h: the memory and string routines, on functions from the index of a byte.
--   Fat        kernel/fs/fat.c: the FAT file system. Fat is the volume and the cluster chains, Fat/Dir its
--          directories, Fat/Lookup paths and the calls from outside. `disk_read` of
--          kernel/dev/disk.c is a parameter, with the law `Serves`.
--   Fs         kernel/fs/fs.c: the dispatch to the file system of a volume.
--   Disk       kernel/dev/disk.c: disks and partitions, on Ata and Fs. `Disks` is the file's static variables
--          with the structures by their addresses. Disk/Find is the search, Disk/Map how `disk_mmap`
--          changes the list, Disk/Remove how a structure leaves it; what `kmalloc` returns is an argument, and so is
--          what a read gives of a structure that `kfree` has.
--   Partition  kernel/dev/part.c, part/mbr.c and part/gpt.c: the partition tables, and `disk_create` of
--          kernel/dev/disk.c, which reads them. Here `kmalloc` is a function of the state.
--          Partition/Drives is the start of driver/ata.c, which makes a disk of each drive.
--   Keyboard   kernel/dev/keyboard.c: from scan codes to keys. `Keyboard` is the file's static variables
--          with the console and the state of the function that is registered for the keys.
--          Keyboard/Map is its table, Keyboard/Typed what it delivers in the input modes.
--          Keyboard/Layout is a US keyboard, the independent description of what the keys type, and
--          Keyboard/Driver is driver/atkbd.c, by whose interrupt the codes come.
--   Input      kernel/syscall/io.c: `key_get`, which the keyboard calls while a program waits for a line.
--   System     kernel/process/exec.c and kernel/syscall: what the kernel does for a program. `System` joins the
--          scheduler, the user page tables, the heap, the keyboard and the bytes of memory, which the calls
--          use together. System/Entry is the interrupt of the calls, System/Put a call that prints, System/Fault the
--          exceptions, System/Exec the start of a program, with kernel/binfmt/binfmt.c, and System/Search
--          the search for the first one, with kernel/dev/file.c.
--
-- A 32-bit word is a native number with its wrap-around written out (Base/Words); an array or a
-- region of memory is a function from its index. An address is a number, and NULL is 0. A function
-- that changes state returns its result with the new state; one that never returns, as `process_exit` does, gives
-- the state in which it waits (`Waits`). Interrupts are off while an allocator
-- searches, so that each of its calls is one step.
--
-- Fuel. The outer loop of `pmm_up_alloc_page` runs on `tail + 1 - head` rounds, since each round
-- moves up by at least one page; Pmm/UpAlloc shows that the loop always ends by its own tests. The
-- search of `vmm_alloc_page` and of `vmm_mmap_pde_page` runs on `vmm_pos + 2` rounds: each round
-- moves down by at least one slot, and it passes slot 0 at most once. The
-- loop of `process_switch` runs on any fuel that is given: one round more than the processes that it
-- passes is enough where some process can run (Process/Switch). The
-- loops along a cluster chain run on fuel that is given: more rounds than the chain has links are enough
-- (Fat/Chain, Fat/Read), and more than the directory has entries for the search in it (Fat/Find). The search of `get_disk` runs on
-- one round more than there are numbers given out, which are at least as many as the disks (Disk/Find). The
-- loop of `disk_remove_part` runs on fuel that is given: more than a round for each disk is enough where it
-- gives back none (Disk/Remove/Parts). The loops over a path run on more fuel than it has characters (System/Exec), and the
-- search of `exec_init` on more rounds than there are disks (System/Search).
--
-- Not modelled: the delays of port accesses, the waits for a controller (the lights of the keyboard, the locks and
-- handlers of the disks' interrupts), the selectors of the task state segment, assembly stubs, linker scripts, the debug output and
-- the screen of a panic, which hold no logic of their own; the start-up code, which calls the parts' init functions
-- one after the other; `strncpy` and `strcat`, which nothing calls; the formatted output, which is a copy of another
-- project's.
pub mod Ata
pub mod Base
pub mod Console
pub mod Descriptor
pub mod Disk
pub mod Elf
pub mod Fat
pub mod Fs
pub mod Heap
pub mod Input
pub mod Interrupt
pub mod Keyboard
pub mod Kmm
pub mod Partition
pub mod Pmm
pub mod Process
pub mod Strings
pub mod System
pub mod Umm
pub mod Vmm
