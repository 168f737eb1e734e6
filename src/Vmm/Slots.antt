-- ===== src/Vmm/Slots.antt =====
-- The slots of the dynamic window of kernel/mm/vmm.c, as a table of page addresses.
use bitch.Base.{ℕ, ◌+◌, ◌*◌, ◌^◌, ◌<◌, ◌≡◌, Bool, ◌&&◌, arith, ltb, ◌==◌, if◌then◌else◌}
use bitch.Kmm.{globl_page_num}
use bitch.Pmm.{page_size}
use bitch.Vmm.{Vmm, get_vmm_page, map_slot, remove_slot}

-- The direct map and the window together fill the kernel's page table.
abbrev pub IsWindow : Vmm → Type 0
IsWindow s = s.dmmap_page_count + s.vmmap_page_count ≡ globl_page_num

-- A slot of the window that maps no page.
unfoldable pub slot_free : Vmm → ℕ → Bool
slot_free s q = ltb q s.vmmap_page_count && (get_vmm_page s q == 0)

module _ (s : Vmm) (w : IsWindow s) (p : ℕ) (in_window : p < s.vmmap_page_count) where
  -- Mapping a page at a slot changes that slot alone.
  pub get_vmm_page-map_slot :
      (page q : ℕ)
      → page < 2 ^ 20
      → get_vmm_page (map_slot s (page * page_size) p) q
        ≡ (if q == p then page * page_size else get_vmm_page s q)
  unfolding get_vmm_page map_slot
  get_vmm_page-map_slot page q h = ground arith

  -- Clearing a slot changes that slot alone.
  pub get_vmm_page-remove_slot :
      (q : ℕ) → get_vmm_page (remove_slot s p) q ≡ (if q == p then 0 else get_vmm_page s q)
  unfolding get_vmm_page remove_slot
  get_vmm_page-remove_slot q = ground arith

  -- The direct map lies below the window.
  pub direct-map_slot : (attr i : ℕ) → i < s.dmmap_page_count → (map_slot s attr p).pte i ≡ s.pte i
  unfolding map_slot
  direct-map_slot attr i h = ground arith

  pub direct-remove_slot : (i : ℕ) → i < s.dmmap_page_count → (remove_slot s p).pte i ≡ s.pte i
  unfolding remove_slot
  direct-remove_slot i h = ground arith

-- What is mapped does not depend on the page allocator and the counters.
pub get_vmm_page_same :
    (s t : Vmm) (q : ℕ)
    → t.pte ≡ s.pte
    → t.dmmap_page_count ≡ s.dmmap_page_count
    → t.vmmap_page_count ≡ s.vmmap_page_count
    → get_vmm_page t q ≡ get_vmm_page s q
unfolding get_vmm_page
get_vmm_page_same s t q a b c = rw (a, b, c)
