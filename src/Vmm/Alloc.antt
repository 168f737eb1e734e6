-- ===== src/Vmm/Alloc.antt =====
-- `vmm_alloc_page` of kernel/mm/vmm.c, where the window has a run of free slots and the physical
-- memory has the pages.
use bitch.Base.{
  ℕ, zero, suc, ◌+◌, ◌-◌, ◌*◌, ◌/◌, ◌≤◌, ◌<◌, ◌≡◌, ◌≢◌, refl, ap, ◌∙◌, true, ◌&&◌, arith, dec_lt,
  ltb, leb, ◌==◌, if◌then◌else◌, add32, sub32, get_or-cons, Bool-cases, inl, inr, ==→eq, ne→==,
  lt→ltb,
}
use bitch.Pmm.{page_size, pmm_alloc_page}
use bitch.Pmm.Alloc.{pmm_alloc_page-IsValid}
use bitch.Pmm.Inv
use bitch.Pmm.Inv.{is_free→lt}
use bitch.Vmm.{
  Vmm, get_vmm_page, slot_run, map_slot, back_run, get_globl_page_index, take_slots, vmm_alloc_loop,
  vmm_alloc_page,
}
use bitch.Vmm.Pages.{one_page, alloc_pages, page_at, Fresh, alloc_pages-Fresh}
use bitch.Vmm.Slots.{IsWindow, get_vmm_page-map_slot, direct-map_slot, get_vmm_page_same}

-- The `n` slots from `p` on map no page.
abbrev pub SlotsFree : Vmm → ℕ → ℕ → Type 0
SlotsFree s p n = (q : ℕ) → p ≤ q → q < p + n → get_vmm_page s q ≡ 0

-- The slots `p - n + 1 .. p` hold the fresh pages, the allocator has lost these, and nothing else
-- has changed.
record Backed (s : Vmm) (head i n : ℕ) (t : Vmm) : Type 0 where
  pub pmm_is : t.pmm ≡ (alloc_pages n s.pmm).1
  pub slots :
      (q : ℕ)
      → get_vmm_page t q ≡ (
          if leb (head + i) q && ltb q (head + i + n)
          then page_at (alloc_pages n s.pmm).0 (q - (head + i)) * page_size
          else get_vmm_page s q)
  pub direct : (j : ℕ) → j < s.dmmap_page_count → t.pte j ≡ s.pte j
  pub direct_count : t.dmmap_page_count ≡ s.dmmap_page_count
  pub window_count : t.vmmap_page_count ≡ s.vmmap_page_count
  pub free_count : t.vmm_free_page_count ≡ s.vmm_free_page_count
  pub position : t.vmm_pos ≡ s.vmm_pos

-- The state after the round of `back_run` at the slot `q`.
abbrev backed : Vmm → ℕ → Vmm
backed s q = map_slot (record s { pmm = (pmm_alloc_page s.pmm).1 }) (pmm_alloc_page s.pmm).0 q

module _ (s : Vmm) (head i n : ℕ) (w : IsWindow s) (v : Inv.IsValid s.pmm)
    (fits : head + i + suc n ≤ s.vmmap_page_count) (enough : suc n < s.pmm.free_page_count) where
  back_run-suc : back_run s head i (suc n) ≡ back_run (backed s (add32 head i)) head (i + 1) n
  unfolding back_run
  back_run-suc =
      let took = one_page v (omega arith) in
      rw (ne→== (pmm_alloc_page s.pmm).0 0 (omega (arith, took.1, took.2)))

  backed_slot :
      (q : ℕ)
      → get_vmm_page (backed s (add32 head i)) q
        ≡ (if q == head + i then (pmm_alloc_page s.pmm).0 else get_vmm_page s q)
  backed_slot q =
      let took = one_page v (omega arith) in
      let s' : Vmm = record s { pmm = (pmm_alloc_page s.pmm).1 } in
      let at : add32 head i ≡ head + i = omega arith in
      rw (at, took.1)
        (ground (
          arith,
          get_vmm_page-map_slot s' w (head + i) (omega arith) took.0 q
              (omega (arith, is_free→lt s.pmm took.0 took.3, v.small)),
          get_vmm_page_same s s' q refl refl refl,
        ))

  Backed-suc :
      (t : Vmm) → Backed (backed s (add32 head i)) head (i + 1) n t → Backed s head i (suc n) t
  unfolding map_slot alloc_pages
  Backed-suc t b =
      let took = one_page v (omega arith) in
      record {
        pmm_is = b.pmm_is;
        slots = λ q. ground (
          arith,
          b.slots q,
          backed_slot q,
          took.1,
          get_or-cons ((pmm_alloc_page s.pmm).0 / page_size)
              (alloc_pages n (pmm_alloc_page s.pmm).1).0 (q - (head + i)) 0,
        );
        direct = λ j h.
            b.direct j h
            ∙ direct-map_slot (record s { pmm = (pmm_alloc_page s.pmm).1 }) w (add32 head i)
                (omega arith) (pmm_alloc_page s.pmm).0 j h;
        direct_count = b.direct_count;
        window_count = b.window_count;
        free_count = b.free_count;
        position = b.position;
      }

back_run-Backed :
    (s : Vmm) (head i n : ℕ)
    → IsWindow s
    → Inv.IsValid s.pmm
    → head + i + n ≤ s.vmmap_page_count
    → n < s.pmm.free_page_count
    → ((back_run s head i n).0 ≡ true) × Backed s head i n (back_run s head i n).1
unfolding back_run alloc_pages map_slot
back_run-Backed s head i zero w v fits enough = (
  refl,
  record {
    pmm_is = refl;
    slots = λ q. ground arith;
    direct = λ j h. refl;
    direct_count = refl;
    window_count = refl;
    free_count = refl;
    position = refl;
  },
)
back_run-Backed s head i (suc n) w v fits enough =
    let took = one_page v (omega arith) in
    let rest =
      back_run-Backed (backed s (add32 head i)) head (i + 1) n w (pmm_alloc_page-IsValid v)
        (omega arith) (omega (arith, took.6)) in
    rw (back_run-suc s head i n w v fits enough) (
      rest.0,
      Backed-suc s head i n w v fits enough (back_run (backed s (add32 head i)) head (i + 1) n).1
          rest.1,
    )

slot_run_bounds :
    (s : Vmm) (p i left : ℕ) → (i ≤ slot_run s p i left) × (slot_run s p i left ≤ i + left)
unfolding slot_run
slot_run_bounds s p i zero = omega arith
slot_run_bounds s p i (suc left) = ground (arith, slot_run_bounds s p (i + 1) left)

slot_run_sound :
    (s : Vmm) (p i left j : ℕ) → i ≤ j → j < slot_run s p i left → get_vmm_page s (sub32 p j) ≡ 0
unfolding slot_run
slot_run_sound s p i zero j h b = absurd (omega arith)
slot_run_sound s p i (suc left) j h b = ground (arith, slot_run_sound s p (i + 1) left j)

slot_run_stop :
    (s : Vmm) (p i left : ℕ)
    → slot_run s p i left < i + left
    → get_vmm_page s (sub32 p (slot_run s p i left)) ≢ 0
unfolding slot_run
slot_run_stop s p i zero h = absurd (omega arith)
slot_run_stop s p i (suc left) h = ground (arith, slot_run_stop s p (i + 1) left)

-- What `vmm_alloc_page` returns: the address of a run of `n` slots that were free, which now hold
-- fresh pages; the direct map, the other slots and the other pages are as they were.
pub record TookSlots (s : Vmm) (n : ℕ) (r : ℕ × Vmm) : Type 0 where
  pub top : ℕ
  pub room : n ≤ top
  pub inside : top ≤ s.vmm_pos
  pub address : r.0 ≡ (s.dmmap_page_count + (top + 1 - n)) * page_size
  pub were_free : SlotsFree s (top + 1 - n) n
  pub pages : Fresh s.pmm n (alloc_pages n s.pmm).0 r.1.pmm
  pub slots :
      (q : ℕ)
      → get_vmm_page r.1 q ≡ (
          if leb (top + 1 - n) q && ltb q (top + 1)
          then page_at (alloc_pages n s.pmm).0 (q - (top + 1 - n)) * page_size
          else get_vmm_page s q)
  pub direct : (j : ℕ) → j < s.dmmap_page_count → r.1.pte j ≡ s.pte j
  pub direct_count : r.1.dmmap_page_count ≡ s.dmmap_page_count
  pub window_count : r.1.vmmap_page_count ≡ s.vmmap_page_count
  pub free_count : r.1.vmm_free_page_count ≡ sub32 s.vmm_free_page_count n
  pub position : r.1.vmm_pos ≡ (if top == s.vmm_pos then s.vmm_pos - n else s.vmm_pos)

-- The state that `take_slots` returns after its loop has led to `t`.
abbrev settled : Vmm → ℕ → ℕ → Vmm
settled t n p = record t {
  vmm_pos = if p == t.vmm_pos then sub32 t.vmm_pos n else t.vmm_pos;
  vmm_free_page_count = sub32 t.vmm_free_page_count n;
}

backing_of_run :
    (s : Vmm) (n p : ℕ) {t : Vmm}
    → Backed s (p + 1 - n) 0 n t
    → n ≤ p
    → (q : ℕ)
    → get_vmm_page t q ≡ (
        if leb (p + 1 - n) q && ltb q (p + 1)
        then page_at (alloc_pages n s.pmm).0 (q - (p + 1 - n)) * page_size
        else get_vmm_page s q)
backing_of_run s n p b room q =
    let start : p + 1 - n + 0 ≡ p + 1 - n = omega arith in
    let stop : p + 1 - n + n ≡ p + 1 = omega arith in rw (start, stop) at (b.slots q)

module _ (s : Vmm) (n : ℕ) (w : IsWindow s) (v : Inv.IsValid s.pmm) (pos : 0 < n)
    (enough : n < s.pmm.free_page_count) (in_window : s.vmm_pos < s.vmmap_page_count) where
  take_slots_lem :
      (p : ℕ) → n ≤ p → p ≤ s.vmm_pos → SlotsFree s (p + 1 - n) n → TookSlots s n (take_slots s n p)
  unfolding take_slots get_globl_page_index
  take_slots_lem p room inside free =
      let head_eq : add32 (sub32 p n) 1 ≡ p + 1 - n = omega arith in
      let run = back_run-Backed s (p + 1 - n) 0 n w v (omega arith) enough in
      let b = run.1 in
      let run_end : Vmm = (back_run s (p + 1 - n) 0 n).1 in
      let slots = backing_of_run s n p b room in
      rw (head_eq, run.0)
        (record {
          top = p;
          room = room;
          inside = inside;
          address = omega (arith, b.direct_count);
          were_free = free;
          pages = rw b.pmm_is (alloc_pages-Fresh n v enough);
          slots = λ q. get_vmm_page_same run_end (settled run_end n p) q refl refl refl ∙ slots q;
          direct = b.direct;
          direct_count = b.direct_count;
          window_count = b.window_count;
          free_count = ap (λ c. sub32 c n) b.free_count;
          position = ground (arith, b.position);
        })

  -- A search that stops early stops above the run of free slots that lies below it.
  stop_above :
      (p p0 : ℕ)
      → p ≤ s.vmm_pos
      → p0 ≤ p
      → n ≤ p0
      → SlotsFree s (p0 + 1 - n) n
      → slot_run s p 0 n < n
      → p0 + slot_run s p 0 n < p
  stop_above p p0 inside below room run early =
      let i : ℕ = slot_run s p 0 n in
      let at : sub32 p i ≡ p - i = omega arith in
      let stop : get_vmm_page s (p - i) ≢ 0 = rw at at (slot_run_stop s p 0 n (omega arith)) in
      elim (dec_lt (p0 + i) p) [
        | yes h ↦ h
        | no h ↦ absurd (stop (run (p - i) (omega arith) (omega arith)))
      ]

  vmm_alloc_loop_lem :
      (fuel p p0 : ℕ)
      → p < fuel
      → p ≤ s.vmm_pos
      → p0 ≤ p
      → n ≤ p0
      → SlotsFree s (p0 + 1 - n) n
      → TookSlots s n (vmm_alloc_loop fuel s n p)
  unfolding vmm_alloc_loop
  vmm_alloc_loop_lem zero p p0 enough' inside below room run = absurd (omega arith)
  vmm_alloc_loop_lem (suc fuel) p p0 enough' inside below room run =
      rw (lt→ltb 0 p (omega arith)) (elim (Bool-cases (slot_run s p 0 n == n)) [
        | inl full ↦
            let found : slot_run s p 0 n ≡ n = ==→eq _ n full in
            rw full (
              take_slots_lem p (omega arith) inside λ q lo hi.
                let at : sub32 p (p - q) ≡ q = omega arith in
                rw at at (slot_run_sound s p 0 n (p - q) (omega arith) (omega arith)))
        | inr part ↦
            let early : slot_run s p 0 n < n = ground (arith, slot_run_bounds s p 0 n) in
            let above = stop_above p p0 inside below room run early in
            let next : sub32 (sub32 p (slot_run s p 0 n)) 1 ≡ p - slot_run s p 0 n - 1 =
              omega arith in
            rw (part, next)
              (vmm_alloc_loop_lem fuel (p - slot_run s p 0 n - 1) p0 (omega arith) (omega arith)
                (omega arith) room run)
      ])

  -- In a window that fills the page table, with a valid page allocator that has more than `n`
  -- free pages and a run of `n` free slots that begins above slot 0, `vmm_alloc_page` of a
  -- positive `n` succeeds: it hands out `n` free slots backed by `n` fresh pages, and changes
  -- neither the direct map, nor another slot, nor another page.
  pub vmm_alloc_page_lem :
      (p0 : ℕ)
      → p0 ≤ s.vmm_pos
      → n ≤ p0
      → SlotsFree s (p0 + 1 - n) n
      → TookSlots s n (vmm_alloc_page s n)
  unfolding vmm_alloc_page
  vmm_alloc_page_lem p0 below room run =
      vmm_alloc_loop_lem (s.vmm_pos + 2) s.vmm_pos p0 (omega arith) (omega arith) below room run
