-- ===== src/Vmm/Tests.antt =====
-- Runs of the page mapper, and its theorems at a small machine.
use bitch.Base.{ℕ, ◌-◌, ◌*◌, ◌≡◌, refl, ◌⊎◌, inl, inr, arith}
use bitch.Kmm.{globl_page_num}
use bitch.Pmm.{Pmm, pmm_alloc_page, pmm_up_alloc_page, pmm_init}
use bitch.Pmm.Init.{pmm_init-IsValid}
use bitch.Pmm.Inv
use bitch.Pmm.UpAlloc.{RefusedRun, pmm_up_alloc_page_lem}
use bitch.Vmm.{
  Vmm, get_vmm_page, slot_run, map_slot, back_run, take_slots, vmm_alloc_loop, vmm_alloc_page,
  vmm_free_page, dmm_alloc_page,
}
use bitch.Vmm.Alloc.{TookSlots, vmm_alloc_page_lem}
use bitch.Vmm.Direct.{DirectRun, NoDirectRun, dmm_alloc_page_lem}
use bitch.Vmm.Release.{SameMap, vmm_free_page-vmm_alloc_page}

-- 16 pages of memory, 12 of them free.
abbrev pub memory : Pmm
memory = (pmm_init (λ i. 0) 0x3ffe 16).0

pub memory-IsValid : Inv.IsValid memory
memory-IsValid =
    pmm_init-IsValid (λ i. 0) 0x3ffe 16 (λ i. omega arith) (omega arith) (omega arith) (omega arith)

pub free_memory : (memory.free_page_count ≡ 12) × (memory.bitmap_length ≡ 2)
unfolding pmm_init
free_memory = (refl, refl)

abbrev no_pages : ℕ → ℕ
no_pages i = 0

-- A machine whose direct map is `direct` pages long.
abbrev pub machine : ℕ → Vmm
machine direct = record {
  pmm = memory;
  pte = no_pages;
  dmmap_page_count = direct;
  vmmap_page_count = globl_page_num - direct;
  vmm_free_page_count = globl_page_num - direct;
  vmm_pos = globl_page_num - direct - 1;
}

pub all_slots_free : (direct q : ℕ) → get_vmm_page (machine direct) q ≡ 0
unfolding get_vmm_page
all_slots_free direct q = ground arith

two_pages : (vmm_alloc_page (machine 16) 2).0 ≡ 0x2fffe * 0x1000
unfolding vmm_alloc_page vmm_alloc_loop slot_run take_slots back_run get_vmm_page map_slot
    pmm_alloc_page pmm_init
two_pages = refl

vmm_alloc_page_lem_example : TookSlots (machine 16) 2 (vmm_alloc_page (machine 16) 2)
vmm_alloc_page_lem_example =
    vmm_alloc_page_lem (machine 16) 2 refl memory-IsValid (omega arith) (omega (arith, free_memory))
      (omega arith) 5 (omega arith) (omega arith) λ q lo hi. all_slots_free 16 q

vmm_free_page-vmm_alloc_page_example :
    SameMap
      (machine 16)
      (vmm_free_page (vmm_alloc_page (machine 16) 2).1 (vmm_alloc_page (machine 16) 2).0 2)
vmm_free_page-vmm_alloc_page_example =
    vmm_free_page-vmm_alloc_page (machine 16) 2 5 refl memory-IsValid (omega arith)
      (omega (arith, free_memory)) (omega arith) (omega arith) (omega arith)
      λ q lo hi. all_slots_free 16 q

dmm_alloc_page_lem_example :
    NoDirectRun (machine 16) 2 (dmm_alloc_page (machine 16) 2)
    ⊎ DirectRun (machine 16) 2 (dmm_alloc_page (machine 16) 2)
dmm_alloc_page_lem_example =
    dmm_alloc_page_lem (machine 16) 2 memory-IsValid (omega arith) (omega arith) (omega arith)

no_run : RefusedRun memory 14 (pmm_up_alloc_page memory 14)
no_run = elim (pmm_up_alloc_page_lem memory 14 memory-IsValid (omega arith)) [
  | inl refused ↦ refused
  | inr took ↦ absurd (omega (arith, free_memory, took.5))
]
