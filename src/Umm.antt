-- ===== src/Umm.antt =====
-- User page tables, kernel/mm/umm.c, with `vmm_mmap_pde_page` of kernel/mm/vmm.c, which walks
-- them. The tables lie in the direct map, where an address is its physical address.
pub mod Fault
pub mod Kernel
pub mod Map
pub mod Tables
pub mod Tests
use bitch.Base.{
  ℕ, zero, suc, ◌+◌, ◌-◌, ◌*◌, ◌/◌, ◌%◌, ◌^◌, Bool, true, false, ltb, leb, ◌==◌, if◌then◌else◌,
  add32, sub32, mul32, update,
}
use bitch.Kmm.{
  set_page, get_page_attr, pde_index, pte_index, user_flags, page_offset, page_pte_index,
  page_pde_index, get_globl_phy_attr,
}
use bitch.Pmm.{page_size, pmm_alloc_page, pmm_free_page}
use bitch.Vmm.{
  Vmm, get_globl_page_index, slot_run, map_slot, remove_slot, vmm_alloc_page, vmm_mmap_page,
  vmm_ummap_page, dmm_alloc_page, dmm_free_page,
}

-- The page mapper, and the 32-bit words of memory by their addresses.
pub record Umm : Type 0 where
  pub vmm : Vmm
  pub mem : ℕ → ℕ

-- `p[i]` of an array of 32-bit words.
abbrev pub word_at : ℕ → ℕ → ℕ
word_at p i = p + 4 * i

unfoldable pub get_umm_value : Umm → (attr pde : ℕ) → ℕ
get_umm_value s attr pde =
    let entry : ℕ = s.mem (word_at pde (pde_index attr)) in
    if entry == 0 then 0 else s.mem (word_at (get_page_attr entry) (pte_index attr))

unfoldable pub store_word : Umm → ℕ → ℕ → Umm
unfolding update
store_word s address value = record s { mem = update s.mem address value }

-- The loop that clears a new page table.
unfoldable pub clear_words : Umm → ℕ → ℕ → ℕ → Umm
clear_words s p i zero = s
clear_words s p i (suc left) = clear_words (store_word s (word_at p i) 0) p (i + 1) left

-- What `set_umm_value` does when the directory has no table for the address.
unfoldable pub set_in_new_table : Umm → (attr value pde : ℕ) → ℕ × Umm
set_in_new_table s attr value pde =
    let (pte, m) = dmm_alloc_page s.vmm 1 in
    let clear : Umm = clear_words (record s { vmm = m }) pte 0 page_pte_index in
    let linked : Umm = store_word clear (word_at pde (pde_index attr)) (set_page pte user_flags) in
    if pte == 0
    then (0, record s { vmm = m })
    else (1, store_word linked (word_at pte (pte_index attr)) value)

unfoldable pub set_umm_value : Umm → (attr value pde : ℕ) → ℕ × Umm
set_umm_value s attr value pde =
    let table : ℕ = get_page_attr (s.mem (word_at pde (pde_index attr))) in
    if leb page_offset attr
    then (0, s)
    else if table == 0
    then set_in_new_table s attr value pde
    else (1, store_word s (word_at table (pte_index attr)) value)

-- `memcpy` of a page, by words.
copy_words : Umm → ℕ → ℕ → ℕ → ℕ → Umm
copy_words s dest from i zero = s
copy_words s dest from i (suc left) =
    copy_words (store_word s (word_at dest i) (s.mem (word_at from i))) dest from (i + 1) left

-- `kernel_pde` is the address of `kernel_mmap_pde`.
unfoldable pub umm_alloc_pde : Umm → (kernel_pde : ℕ) → ℕ × Umm
unfolding copy_words
umm_alloc_pde s kernel_pde =
    let (pde, m) = dmm_alloc_page s.vmm 1 in
    if pde == 0
    then (0, record s { vmm = m })
    else (pde, copy_words (record s { vmm = m }) pde kernel_pde 0 page_pde_index)

unfoldable pub umm_mmap_page : Umm → (attr mmap_attr pde : ℕ) → ℕ × Umm
umm_mmap_page s attr mmap_attr pde =
    if get_umm_value s mmap_attr pde == 0
    then set_umm_value s mmap_attr (set_page (get_globl_phy_attr s.vmm.pte attr) user_flags) pde
    else (0, s)

-- One round of `vmm_mmap_pde_page`: the physical page of the user page `attr`, which is allocated
-- and entered in the user's table if there is none.
unfoldable pub user_page : Umm → (attr pde : ℕ) → ℕ × Umm
user_page s attr pde =
    let phy_attr : ℕ = get_page_attr (get_umm_value s attr pde) in
    let (fresh, m) = pmm_alloc_page s.vmm.pmm in
    let t : Umm = record s { vmm = record s.vmm { pmm = m } } in
    if phy_attr == 0
    then if fresh == 0 then (0, t) else (
      fresh,
      (set_umm_value t attr (set_page (get_globl_phy_attr t.vmm.pte fresh) user_flags) pde).1,
    )
    else (phy_attr, s)

-- The loop that takes the mappings back when the memory runs out.
unfoldable pub unmap_back : Vmm → ℕ → ℕ → Vmm
unmap_back s head zero = s
unmap_back s head (suc i) = unmap_back (remove_slot s (add32 head (suc i))) head i

unfoldable pub map_user_run : Umm → (head attr pde i left : ℕ) → Bool × Umm
map_user_run s head attr pde i zero = (true, s)
map_user_run s head attr pde i (suc left) =
    let (phy_attr, t) = user_page s (add32 attr (mul32 i page_size)) pde in
    if phy_attr == 0
    then (false, record t { vmm = unmap_back t.vmm head i })
    else map_user_run (record t { vmm = map_slot t.vmm phy_attr (add32 head i) }) head attr pde
        (i + 1) left

unfoldable pub take_user_slots : Umm → (attr count pde p : ℕ) → ℕ × Umm
take_user_slots s attr count pde p =
    let head : ℕ = add32 (sub32 p count) 1 in
    let (done, t) = map_user_run s head attr pde 0 count in
    let v : Vmm = t.vmm in
    if done
    then (
      mul32 (get_globl_page_index v head) page_size,
      record t {
        vmm = record v {
          vmm_pos = if p == v.vmm_pos then sub32 v.vmm_pos count else v.vmm_pos;
          vmm_free_page_count = sub32 v.vmm_free_page_count count;
        };
      },
    )
    else (0, t)

-- The search, as that of `vmm_alloc_page`.
unfoldable pub mmap_pde_loop : ℕ → Umm → (attr count pde p : ℕ) → ℕ × Umm
mmap_pde_loop zero s attr count pde p = (0, s)
mmap_pde_loop (suc fuel) s attr count pde p =
    let i : ℕ = slot_run s.vmm p 0 count in
    let rest = mmap_pde_loop fuel s attr count pde (sub32 (sub32 p i) 1) in
    if ltb 0 p then if i == count then take_user_slots s attr count pde p else rest else (0, s)

unfoldable pub vmm_mmap_pde_page : Umm → (attr count pde : ℕ) → ℕ × Umm
vmm_mmap_pde_page s attr count pde =
    mmap_pde_loop (s.vmm.vmm_pos + 2) s attr count pde s.vmm.vmm_pos

-- The branch of `umm_mmap_kmm` for a range inside one page.
unfoldable pub map_one_page : Umm → (mmap_attr pde : ℕ) → ℕ × Umm
map_one_page s mmap_attr pde =
    let phy_attr : ℕ = get_page_attr (get_umm_value s mmap_attr pde) in
    let (fresh, m) = vmm_alloc_page s.vmm 1 in
    let t : Umm = record s { vmm = m } in
    let (p, mapped) = vmm_mmap_page s.vmm phy_attr in
    if phy_attr == 0
    then if fresh == 0 then (0, t) else (
      fresh,
      (set_umm_value t mmap_attr (set_page (get_globl_phy_attr m.pte fresh) user_flags) pde).1,
    )
    else (p, record s { vmm = mapped })

-- The pages that the range of `len` bytes from `attr` on reaches into.
abbrev pub page_conut : ℕ → ℕ → ℕ
page_conut attr len =
    sub32 (add32 (sub32 (add32 attr len) (get_page_attr attr)) page_size) 1 / page_size

unfoldable pub umm_mmap_kmm : Umm → (attr len pde : ℕ) → ℕ × Umm
umm_mmap_kmm s attr len pde =
    let mmap_attr : ℕ = get_page_attr attr in
    let (p, t) =
      if page_conut attr len == 1
      then map_one_page s mmap_attr pde
      else vmm_mmap_pde_page s mmap_attr (page_conut attr len) pde in
    if ltb page_offset (add32 attr len)
    then (0, s)
    else if p == 0
    then (0, t)
    else (sub32 (add32 p attr) mmap_attr, t)

unfoldable pub umm_ummap_kmm : Umm → (attr len : ℕ) → Umm
umm_ummap_kmm s attr len = record s {
  vmm = vmm_ummap_page s.vmm (get_page_attr attr) (page_conut attr len);
}

-- `attr` is the address that the processor reports in CR2.
unfoldable pub umm_handler : Umm → (attr pde : ℕ) → ℕ × Umm
umm_handler s attr pde =
    let (phy, m) = pmm_alloc_page s.vmm.pmm in
    let t : Umm = record s { vmm = record s.vmm { pmm = m } } in
    let (done, u) = set_umm_value t attr (set_page phy user_flags) pde in
    if phy == 0
    then (0, t)
    else if done == 0
    then (0, record u { vmm = record u.vmm { pmm = pmm_free_page u.vmm.pmm phy 1 } })
    else (1, u)

-- The inner and the outer loop of `umm_free`.
unfoldable pub free_table : Umm → (pte n left : ℕ) → Umm
free_table s pte n zero = s
free_table s pte n (suc left) =
    let attr : ℕ = get_page_attr (s.mem (word_at pte n)) in
    free_table
      (if attr == 0
        then s
        else record s { vmm = record s.vmm { pmm = pmm_free_page s.vmm.pmm attr 1 } })
      pte (n + 1) left

unfoldable pub free_tables : Umm → (pde m left : ℕ) → Umm
free_tables s pde m zero = s
free_tables s pde m (suc left) =
    let pte : ℕ = get_page_attr (s.mem (word_at pde m)) in
    let emptied : Umm = free_table s pte 0 page_pte_index in
    free_tables (if pte == 0 then s else record emptied { vmm = dmm_free_page emptied.vmm pte 1 })
      pde (m + 1) left

unfoldable pub umm_free : Umm → (pde : ℕ) → Umm
umm_free s pde =
    let t : Umm = free_tables s pde 0 (pde_index page_offset) in
    record t { vmm = dmm_free_page t.vmm pde 1 }
