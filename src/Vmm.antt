-- ===== src/Vmm.antt =====
-- The kernel's page mapper, kernel/mm/vmm.c: a direct map of low memory, and above it a window of
-- slots that is handed out from its top. Interrupts are off while a search runs, so each function
-- is one step.
pub mod Alloc
pub mod Pages
pub mod Direct
pub mod Faults
pub mod Release
pub mod Slots
pub mod Tests
use bitch.Base.{
  ℕ, zero, suc, ◌+◌, ◌-◌, ◌*◌, ◌/◌, ◌%◌, ◌^◌, Bool, true, false, not, ltb, leb, ◌==◌, if◌then◌else◌,
  add32, sub32, mul32,
}
use bitch.Kmm.{PteTable, globl_page_num, globl_page_mmap, globl_page_remove, get_globl_page_attr}
use bitch.Pmm.{Pmm, page_size, pmm_alloc_page, pmm_up_alloc_page, pmm_free_page, get_pmm_free_count}

-- The file's static variables, with the allocator and the page table that it works on.
pub record Vmm : Type 0 where
  pub pmm : Pmm
  pub pte : PteTable
  pub dmmap_page_count : ℕ
  pub vmmap_page_count : ℕ
  pub vmm_free_page_count : ℕ
  pub vmm_pos : ℕ

-- DMMAP_PAGE_MAX
abbrev pub dmmap_page_max : ℕ
dmmap_page_max = 0x20000

unfoldable pub get_globl_page_index : Vmm → ℕ → ℕ
get_globl_page_index s index = add32 s.dmmap_page_count index

unfoldable pub get_vmm_page : Vmm → ℕ → ℕ
unfolding get_globl_page_index get_globl_page_attr
get_vmm_page s index =
    if ltb index s.vmmap_page_count
    then get_globl_page_attr s.pte (get_globl_page_index s index)
    else 0

unfoldable pub get_vmm_free_count : Vmm → ℕ
get_vmm_free_count s = s.vmm_free_page_count

-- The first inner loop of `vmm_alloc_page` and of `vmm_mmap_pde_page`: the final `i`. The test
-- `p - i < 0` of an unsigned number never holds.
unfoldable pub slot_run : Vmm → ℕ → ℕ → ℕ → ℕ
slot_run s p i zero = i
slot_run s p i (suc left) = if get_vmm_page s (sub32 p i) == 0 then slot_run s p (i + 1) left else i

-- `globl_page_mmap` and `globl_page_remove` at a slot of the window.
unfoldable pub map_slot : Vmm → ℕ → ℕ → Vmm
unfolding get_globl_page_index globl_page_mmap
map_slot s attr slot = record s {
  pte = globl_page_mmap s.pte (attr / page_size) (get_globl_page_index s slot);
}

unfoldable pub remove_slot : Vmm → ℕ → Vmm
unfolding get_globl_page_index globl_page_remove
remove_slot s slot = record s { pte = globl_page_remove s.pte (get_globl_page_index s slot) }

unfoldable pub free_phys : Vmm → ℕ → Vmm
free_phys s attr = record s { pmm = pmm_free_page s.pmm attr 1 }

-- What `vmm_alloc_page` does when the physical memory runs out at round `i`.
unfoldable pub roll_back : Vmm → ℕ → ℕ → Vmm
roll_back s head zero = s
roll_back s head (suc i) =
    let cleared : Vmm = remove_slot s (add32 head (suc i)) in
    roll_back (free_phys cleared (get_vmm_page cleared (add32 head (suc i)))) head i

-- The second inner loop, which backs the run with physical pages; `false` if it had to roll back.
unfoldable pub back_run : Vmm → ℕ → ℕ → ℕ → Bool × Vmm
back_run s head i zero = (true, s)
back_run s head i (suc left) =
    let (attr, m) = pmm_alloc_page s.pmm in
    let t : Vmm = record s { pmm = m } in
    if attr == 0
    then (false, roll_back t head i)
    else back_run (map_slot t attr (add32 head i)) head (i + 1) left

-- What follows once a run has been found at `p`.
unfoldable pub take_slots : Vmm → ℕ → ℕ → ℕ × Vmm
take_slots s count p =
    let head : ℕ = add32 (sub32 p count) 1 in
    let (done, t) = back_run s head 0 count in
    if done
    then (
      mul32 (get_globl_page_index t head) page_size,
      record t {
        vmm_pos = if p == t.vmm_pos then sub32 t.vmm_pos count else t.vmm_pos;
        vmm_free_page_count = sub32 t.vmm_free_page_count count;
      },
    )
    else (0, t)

-- The search at `p`, on fuel. A run that ends at slot 0 sends `p` below it and round to 2 ^ 32 - 1.
unfoldable pub vmm_alloc_loop : ℕ → Vmm → ℕ → ℕ → ℕ × Vmm
vmm_alloc_loop zero s count p = (0, s)
vmm_alloc_loop (suc fuel) s count p =
    let i : ℕ = slot_run s p 0 count in
    let rest = vmm_alloc_loop fuel s count (sub32 (sub32 p i) 1) in
    if ltb 0 p then if i == count then take_slots s count p else rest else (0, s)

unfoldable pub vmm_alloc_page : Vmm → ℕ → ℕ × Vmm
vmm_alloc_page s count = vmm_alloc_loop (s.vmm_pos + 2) s count s.vmm_pos

-- The loops of `vmm_free_page` and `vmm_ummap_page`.
unfoldable pub release_run : Vmm → ℕ → ℕ → ℕ → Vmm
release_run s index i zero = s
release_run s index i (suc left) =
    let freed : Vmm = free_phys s (get_vmm_page s (add32 index i)) in
    release_run (remove_slot freed (add32 index i)) index (i + 1) left

unfoldable pub unmap_run : Vmm → ℕ → ℕ → ℕ → Vmm
unmap_run s index i zero = s
unmap_run s index i (suc left) = unmap_run (remove_slot s (add32 index i)) index (i + 1) left

-- The new `vmm_pos` of both.
abbrev pub raise_pos : Vmm → ℕ → ℕ → Vmm
raise_pos s index count = record s {
  vmm_pos =
      if ltb s.vmm_pos (sub32 (add32 index count) 1)
      then sub32 (add32 index count) 1
      else s.vmm_pos;
}

unfoldable pub vmm_free_page : Vmm → ℕ → ℕ → Vmm
vmm_free_page s attr count =
    if ltb (attr / page_size) s.dmmap_page_count
    then record s { pmm = pmm_free_page s.pmm attr count }
    else let index : ℕ = attr / page_size - s.dmmap_page_count in
      let t : Vmm =
        if leb (add32 index count) s.vmmap_page_count
        then raise_pos (release_run s index 0 count) index count
        else s in
      record t { vmm_free_page_count = add32 t.vmm_free_page_count count }

unfoldable pub vmm_ummap_page : Vmm → ℕ → ℕ → Vmm
vmm_ummap_page s attr count =
    if leb s.dmmap_page_count (attr / page_size)
    then (let index : ℕ = attr / page_size - s.dmmap_page_count in
        let t : Vmm =
          if leb (add32 index count) s.vmmap_page_count
          then raise_pos (unmap_run s index 0 count) index count
          else s in
        record t { vmm_free_page_count = add32 t.vmm_free_page_count count })
    else s

-- The search of `vmm_mmap_page`, by recursion on `p`.
unfoldable pub mmap_loop : Vmm → ℕ → ℕ → ℕ × Vmm
mmap_loop s phy_attr zero = (0, s)
mmap_loop s phy_attr (suc p) =
    if get_vmm_page s (suc p) == 0
    then (
      mul32 (get_globl_page_index s (suc p)) page_size,
      record (map_slot s phy_attr (suc p)) {
        vmm_free_page_count = sub32 s.vmm_free_page_count 1;
        vmm_pos = suc p;
      },
    )
    else mmap_loop s phy_attr p

unfoldable pub vmm_mmap_page : Vmm → ℕ → ℕ × Vmm
vmm_mmap_page s phy_attr =
    if ltb (phy_attr / page_size) s.dmmap_page_count
    then (phy_attr, s)
    else mmap_loop s phy_attr s.vmm_pos

unfoldable pub dmm_alloc_page : Vmm → ℕ → ℕ × Vmm
dmm_alloc_page s count =
    let (attr, m) = pmm_up_alloc_page s.pmm count in
    if ltb s.dmmap_page_count (add32 (attr / page_size) count)
    then (0, record s { pmm = pmm_free_page m attr count })
    else (attr, record s { pmm = m })

unfoldable pub dmm_free_page : Vmm → ℕ → ℕ → Vmm
dmm_free_page s attr count = record s { pmm = pmm_free_page s.pmm attr count }

-- The loop of `vmm_init` that fills the direct map.
unfoldable pub direct_loop : PteTable → ℕ → ℕ → PteTable
direct_loop pte i zero = pte
direct_loop pte i (suc left) = direct_loop (globl_page_mmap pte i i) (i + 1) left

-- `dmmap_page_count` starts as DMMAP_PAGE_MAX.
unfoldable pub vmm_init : Pmm → PteTable → (mem_page_count : ℕ) → Vmm
vmm_init m pte mem_page_count =
    let direct : ℕ = if ltb mem_page_count dmmap_page_max then mem_page_count else dmmap_page_max in
    record {
      pmm = m;
      pte = direct_loop pte 0 direct;
      dmmap_page_count = direct;
      vmmap_page_count = globl_page_num - direct;
      vmm_free_page_count = globl_page_num - direct;
      vmm_pos = globl_page_num - direct - 1;
    }
