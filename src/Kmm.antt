-- ===== src/Kmm.antt =====
-- The kernel's page table, kernel/mm/kmm.c, and the macros of arch/x86/page.h on which it rests.
-- A page address has its low 12 bits clear, so `& PAGE_MASK` is a division, and `|` of an address
-- and of flags is their sum.
use bitch.Base.{ℕ, zero, suc, ◌+◌, ◌*◌, ◌/◌, ◌%◌, ◌^◌, ltb, if◌then◌else◌, add32, mul32, update}

-- GLOBL_PAGE_NUM, PAGE_PDE_INDEX, PAGE_PTE_INDEX, GLOBL_PTE_NUM, PAGE_OFFSET
abbrev pub globl_page_num : ℕ
globl_page_num = 0x30000

abbrev pub page_pde_index : ℕ
page_pde_index = 0x400

abbrev pub page_pte_index : ℕ
page_pte_index = 0x400

abbrev pub globl_pte_num : ℕ
globl_pte_num = globl_page_num / page_pte_index

abbrev pub page_offset : ℕ
page_offset = 0xc000_0000

-- PAGE_PRESENT|PAGE_WRITE, and with PAGE_USER
abbrev pub kernel_flags : ℕ
kernel_flags = 3

abbrev pub user_flags : ℕ
user_flags = 7

abbrev pub set_page : ℕ → ℕ → ℕ
set_page base attribute = base % 2 ^ 32 / 0x1000 * 0x1000 + attribute % 0x1000

abbrev pub get_page_attr : ℕ → ℕ
get_page_attr pte = pte / 0x1000 * 0x1000

-- `attr >> 22`, and `(attr & 0x003ff000) >> 12`
abbrev pub pde_index : ℕ → ℕ
pde_index attr = attr / 0x40_0000

abbrev pub pte_index : ℕ → ℕ
pte_index attr = attr / 0x1000 % 0x400

-- `globl_mmap_pte`, read through its first row, as the code does.
abbrev pub PteTable : Type 0
PteTable = ℕ → ℕ

unfoldable pub globl_page_mmap : PteTable → ℕ → ℕ → PteTable
unfolding update
globl_page_mmap pte phy_page_index globl_page_index =
    if ltb globl_page_index (globl_pte_num * page_pte_index)
    then update pte globl_page_index (set_page (mul32 phy_page_index 0x1000) kernel_flags)
    else pte

unfoldable pub globl_page_remove : PteTable → ℕ → PteTable
unfolding update
globl_page_remove pte index =
    if ltb index (globl_pte_num * page_pte_index) then update pte index 0 else pte

unfoldable pub get_globl_page_attr : PteTable → ℕ → ℕ
get_globl_page_attr pte page_index = get_page_attr (pte page_index)

-- The macro `get_globl_phy_attr`.
unfoldable pub get_globl_phy_attr : PteTable → ℕ → ℕ
unfolding get_globl_page_attr
get_globl_phy_attr pte attr = add32 (get_globl_page_attr pte (attr / 0x1000)) (attr % 0x1000)

-- `table` is the address that the linker gives `globl_mmap_pte`.
unfoldable pub get_globl_pte : (table : ℕ) → ℕ → ℕ
get_globl_pte table index = add32 table (index * 0x1000)

-- The loops of `globl_mmap_init`: they clear the directory, point its last quarter at the table's
-- rows, and clear these.
clear_pde : (ℕ → ℕ) → ℕ → ℕ → ℕ → ℕ
unfolding update
clear_pde pde m zero = pde
clear_pde pde m (suc left) = clear_pde (update pde m 0) (m + 1) left

clear_row : PteTable → ℕ → ℕ → ℕ → PteTable
unfolding update
clear_row pte m n zero = pte
clear_row pte m n (suc left) = clear_row (update pte (m * page_pte_index + n) 0) m (n + 1) left

link_rows : (table : ℕ) → (ℕ → ℕ) × PteTable → ℕ → ℕ → (ℕ → ℕ) × PteTable
unfolding update clear_row
link_rows table (pde, pte) m zero = (pde, pte)
link_rows table (pde, pte) m (suc left) =
    link_rows table
      (
        update pde (pde_index page_offset + m) (set_page (add32 table (m * 0x1000)) kernel_flags),
        clear_row pte m 0 page_pte_index,
      )
      (m + 1) left

unfoldable pub globl_mmap_init : (table : ℕ) → (ℕ → ℕ) × PteTable → (ℕ → ℕ) × PteTable
unfolding clear_pde link_rows
globl_mmap_init table (pde, pte) =
    link_rows table (clear_pde pde 0 page_pde_index, pte) 0 globl_pte_num
