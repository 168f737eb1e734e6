-- ===== src/Vmm/Faults.antt =====
-- Where kernel/mm/vmm.c does other than it means to.
use bitch.Base.{
  ℕ, zero, suc, ◌+◌, ◌-◌, ◌*◌, ◌^◌, ◌≤◌, ◌<◌, ◌≡◌, refl, true, ◌&&◌, arith, ltb, ◌==◌,
  if◌then◌else◌, add32, sub32, ne→==, eq→==, lt→ltb,
}
use bitch.Pmm.{page_size, is_free, pmm_alloc_page}
use bitch.Pmm.Alloc.{pmm_alloc_page-IsValid}
use bitch.Pmm.Bitmap.{IsBytes}
use bitch.Pmm.Free.{is_free-pmm_free_page, pmm_free_page_bitmap}
use bitch.Pmm.Inv
use bitch.Pmm.Inv.{capacity}
use bitch.Vmm.{
  Vmm, get_vmm_page, get_globl_page_index, slot_run, remove_slot, free_phys, map_slot, roll_back,
  back_run, take_slots, vmm_alloc_loop, vmm_alloc_page,
}
use bitch.Vmm.Pages.{one_page}
use bitch.Vmm.Slots.{IsWindow, get_vmm_page-remove_slot}

-- One round of `roll_back` clears its slot first, so that it then frees page 0.
roll_back-suc :
    (s : Vmm) (head i : ℕ)
    → IsWindow s
    → head + suc i < s.vmmap_page_count
    → roll_back s head (suc i)
      ≡ roll_back (free_phys (remove_slot s (head + suc i)) (0 * page_size)) head i
unfolding roll_back
roll_back-suc s head i w fits =
    let at : add32 head (suc i) ≡ head + suc i = omega arith in
    let cleared : get_vmm_page (remove_slot s (head + suc i)) (head + suc i) ≡ 0 =
      ground (arith, get_vmm_page-remove_slot s w (head + suc i) fits (head + suc i)) in
    rw (at, cleared)

-- In a window that fills the page table, when `vmm_alloc_page` rolls back `i` slots, it frees none
-- of their pages: if `i` is positive it marks page 0, which it never handed out, as free, and no
-- other page changes.
roll_back-leaks :
    (s : Vmm) (head i : ℕ)
    → IsWindow s
    → head + i < s.vmmap_page_count
    → IsBytes s.pmm.bitmap
    → 1 ≤ capacity s.pmm
    → capacity s.pmm ≤ 2 ^ 20
    → (q : ℕ)
    → is_free (roll_back s head i).pmm q ≡ (if (q == 0) && ltb 0 i then true else is_free s.pmm q)
unfolding free_phys remove_slot
roll_back-leaks s head zero w fits bytes some_page small q = unfold roll_back in ground arith
roll_back-leaks s head (suc i) w fits bytes some_page small q =
    let s' : Vmm = free_phys (remove_slot s (head + suc i)) (0 * page_size) in
    rw (roll_back-suc s head i w fits) (
      ground (
        arith,
        roll_back-leaks s' head i w (omega arith) (pmm_free_page_bitmap s.pmm 0 1 bytes).0
            (omega (arith, (pmm_free_page_bitmap s.pmm 0 1 bytes).1))
            (omega (arith, (pmm_free_page_bitmap s.pmm 0 1 bytes).1)) q,
        is_free-pmm_free_page s.pmm 0 1 bytes small some_page q,
      ))

-- With the pages at hand the loop of `vmm_alloc_page` runs through, wherever its slots lie.
back_run_done :
    (s : Vmm) (head i n : ℕ)
    → Inv.IsValid s.pmm
    → n < s.pmm.free_page_count
    → ((back_run s head i n).0 ≡ true)
      × ((back_run s head i n).1.dmmap_page_count ≡ s.dmmap_page_count)
unfolding back_run map_slot
back_run_done s head i zero v enough = (refl, refl)
back_run_done s head i (suc n) v enough =
    let took = one_page v (omega arith) in
    let t : Vmm =
      map_slot (record s { pmm = (pmm_alloc_page s.pmm).1 }) (pmm_alloc_page s.pmm).0
        (add32 head i) in
    rw (ne→== (pmm_alloc_page s.pmm).0 0 (omega (arith, took.1, took.2)))
      (back_run_done t head (i + 1) n (pmm_alloc_page-IsValid v) (omega (arith, took.6)))

module _ (s : Vmm) (n : ℕ) (w : IsWindow s) (inside : s.vmm_pos < s.vmmap_page_count)
    (all_free : (q : ℕ) → q ≤ s.vmm_pos → get_vmm_page s q ≡ 0) where
  -- Below slot 0 the search reads past the window's end, where `get_vmm_page` returns NULL.
  slot_run_wraps : (i left : ℕ) → i + left ≤ 2 ^ 31 → slot_run s s.vmm_pos i left ≡ i + left
  unfolding slot_run
  slot_run_wraps i zero h = omega arith
  slot_run_wraps i (suc left) h =
      ground (arith, slot_run_wraps (i + 1) left, all_free (s.vmm_pos - i), outside i)
    where
      outside : (j : ℕ) → s.vmm_pos < j → j < 2 ^ 31 → get_vmm_page s (sub32 s.vmm_pos j) ≡ 0
      outside j a b = unfold get_vmm_page in ground arith

  found_at_once : 0 < s.vmm_pos → n ≤ 2 ^ 31 → vmm_alloc_page s n ≡ take_slots s n s.vmm_pos
  unfolding vmm_alloc_page vmm_alloc_loop
  found_at_once pos h =
      let rounds : s.vmm_pos + 2 ≡ suc (s.vmm_pos + 1) = omega arith in
      let all : slot_run s s.vmm_pos 0 n ≡ n = omega (arith, slot_run_wraps 0 n (omega arith)) in
      rw rounds (rw (lt→ltb 0 s.vmm_pos pos, all, eq→== n n refl) refl)

  -- In a window that fills the page table and whose slots up to `vmm_pos` are free, a request for
  -- more slots than these is granted, if the page allocator is valid and has the pages: the search
  -- runs below slot 0, and `vmm_alloc_page` returns an address inside the direct map.
  vmm_alloc_page-overrun :
      0 < s.vmm_pos
      → s.vmm_pos + 1 < n
      → n ≤ s.dmmap_page_count
      → Inv.IsValid s.pmm
      → n < s.pmm.free_page_count
      → ((vmm_alloc_page s n).0 ≡ (s.dmmap_page_count + s.vmm_pos + 1 - n) * page_size)
        × ((vmm_alloc_page s n).0 < s.dmmap_page_count * page_size)
  unfolding take_slots get_globl_page_index
  vmm_alloc_page-overrun pos over below v enough =
      let run = back_run_done s (add32 (sub32 s.vmm_pos n) 1) 0 n v enough in
      rw (found_at_once pos (omega arith), run.0) (omega (arith, run.1), omega (arith, run.1))
