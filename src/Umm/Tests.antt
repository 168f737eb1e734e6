-- ===== src/Umm/Tests.antt =====
-- The theorems on user page tables at a small machine, whose page 1 is an empty directory.
use bitch.Base.{◌*◌, refl, ◌⊎◌, arith, ◌==◌, if◌then◌else◌}
use bitch.Pmm.{page_size, pmm_init}
use bitch.Pmm.Init.{pmm_init-IsValid, pmm_init_lem}
use bitch.Pmm.Inv
use bitch.Umm.{Umm, get_umm_value, set_umm_value, umm_handler, umm_mmap_kmm}
use bitch.Umm.Kernel.{InDirectMap, NoRoom, InSlot, umm_ummap_kmm-umm_mmap_kmm}
use bitch.Umm.Fault.{Filled, NotFilled, umm_handler_lem}
use bitch.Umm.Tables.{IsTables}
use bitch.Umm.Map.{Stored, NotStored, set_umm_value_lem}

abbrev pub machine : Umm
machine = record {
  vmm = record {
    pmm = (pmm_init (λ i. 0) 0x3ffe 16).0;
    pte = λ i. 0;
    dmmap_page_count = 16;
    vmmap_page_count = 0x2fff0;
    vmm_free_page_count = 0x2fff0;
    vmm_pos = 0x2ffef;
  };
  mem = λ i. 0;
}

pub machine_memory : Inv.IsValid machine.vmm.pmm
machine_memory =
    pmm_init-IsValid (λ i. 0) 0x3ffe 16 (λ i. omega arith) (omega arith) (omega arith) (omega arith)

pub machine-IsTables : IsTables machine 1
machine-IsTables = record {
  linked = λ m h e. absurd (e refl);
  apart = λ m h e. absurd (e refl);
  distinct = λ m k h h' ne e. absurd (e refl);
  used = λ m h e. absurd (e refl);
  dir_used = ground (
    arith,
    pmm_init_lem (λ i. 0) 0x3ffe 16 (λ i. omega arith) (omega arith) (omega arith) (omega arith) 1,
  );
}

set_umm_value_lem_example :
    (NotStored machine 1 0x8000 (set_umm_value machine 0x8000 0x9007 (1 * page_size))
      ⊎ Stored machine 1 0x8000 0x9007 (set_umm_value machine 0x8000 0x9007 (1 * page_size)))
    × IsTables (set_umm_value machine 0x8000 0x9007 (1 * page_size)).1 1
set_umm_value_lem_example =
    set_umm_value_lem machine 1 0x8000 0x9007 machine-IsTables machine_memory (omega arith)
      (omega arith)

umm_handler_lem_example :
    NotFilled machine 1 0x8123 (umm_handler machine 0x8123 (1 * page_size))
    ⊎ Filled machine 1 0x8123 (umm_handler machine 0x8123 (1 * page_size))
umm_handler_lem_example =
    umm_handler_lem machine 1 0x8123 machine-IsTables machine_memory (omega arith) (omega arith)

-- The user page 8 is the physical page 0x20, which lies behind the direct map: the table is page 2.
abbrev page_machine : Umm
page_machine = record machine {
  mem = λ a. if a == 0x1000 then 0x2007 else if a == 0x2020 then 0x2_0007 else 0;
}

umm_ummap_kmm-umm_mmap_kmm_example :
    let r = umm_mmap_kmm page_machine 0x8123 5 0x1000 in
    InDirectMap page_machine 0x20 0x123 5 r
    ⊎ (NoRoom page_machine 0x20 r ⊎ InSlot page_machine 0x20 0x123 5 r)
unfolding get_umm_value
umm_ummap_kmm-umm_mmap_kmm_example =
    umm_ummap_kmm-umm_mmap_kmm page_machine 0x8123 5 0x1000 0x20 refl (omega arith) (omega arith)
      (omega arith) (omega arith) refl (omega arith) (omega arith)
