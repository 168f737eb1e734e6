-- ===== src/Umm/Kernel.antt =====
-- `umm_mmap_kmm` and `umm_ummap_kmm` of kernel/mm/umm.c on bytes inside one user page that has a physical page.
use bitch.Base.{
  ℕ, zero, suc, ◌+◌, ◌-◌, ◌*◌, ◌/◌, ◌%◌, ◌^◌, ◌≤◌, ◌<◌, ◌≡◌, ◌≢◌, ◌⊎◌, refl, ◌∙◌, inl, inr, true,
  false, arith, ltb, leb, ◌==◌, if◌then◌else◌, Bool-cases, add32, sub32, ap, dec_lt, ne→==,
}
use bitch.Kmm.{get_page_attr, page_offset}
use bitch.Pmm.{page_size}
use bitch.Umm.{Umm, get_umm_value, page_conut, map_one_page, umm_mmap_kmm, umm_ummap_kmm}
use bitch.Vmm.{
  Vmm, get_vmm_page, map_slot, remove_slot, mmap_loop, vmm_mmap_page, unmap_run, vmm_ummap_page,
}
use bitch.Vmm.Slots.{IsWindow, get_vmm_page-remove_slot, get_vmm_page_same}
use bitch.Vmm.Direct.{vmm_mmap_page_lem}

-- The page's own address in the direct map is given, and nothing changes.
pub InDirectMap : (s : Umm) (page offset len : ℕ) (r : ℕ × Umm) → Type 0
InDirectMap s page offset len r =
    (page < s.vmm.dmmap_page_count)
    × (r ≡ (page * page_size + offset, s))
    × (umm_ummap_kmm r.1 r.0 len ≡ s)

-- NULL is given, nothing changes, and no slot that the search sees is free.
pub NoRoom : (s : Umm) (page : ℕ) (r : ℕ × Umm) → Type 0
NoRoom s page r =
    (s.vmm.dmmap_page_count ≤ page)
    × (r ≡ (0, s))
    × ((q : ℕ) → 0 < q → q ≤ s.vmm.vmm_pos → get_vmm_page s.vmm q ≢ 0)

-- A free slot maps the page, its address is given, and `umm_ummap_kmm` makes the slots what they were.
pub InSlot : (s : Umm) (page offset len : ℕ) (r : ℕ × Umm) → Type 0
InSlot s page offset len r =
    let t : Umm = umm_ummap_kmm r.1 r.0 len in
    (p : ℕ) × (0 < p)
    × (p ≤ s.vmm.vmm_pos)
    × (r.0 ≡ (s.vmm.dmmap_page_count + p) * page_size + offset)
    × (get_vmm_page s.vmm p ≡ 0)
    × ((q : ℕ)
        → get_vmm_page r.1.vmm q ≡ (if q == p then page * page_size else get_vmm_page s.vmm q))
    × (r.1.mem ≡ s.mem)
    × (r.1.vmm.pmm ≡ s.vmm.pmm)
    × ((q : ℕ) → get_vmm_page t.vmm q ≡ get_vmm_page s.vmm q)
    × (t.mem ≡ s.mem)
    × (t.vmm.pmm ≡ s.vmm.pmm)

-- What a search for a slot leaves alone.
abbrev Aside : Vmm → Vmm → Type 0
Aside s t =
    (t.dmmap_page_count ≡ s.dmmap_page_count)
    × (t.vmmap_page_count ≡ s.vmmap_page_count)
    × (t.pmm ≡ s.pmm)

mmap_loop-Aside : (s : Vmm) (a p : ℕ) → Aside s (mmap_loop s a p).1
unfolding mmap_loop map_slot
mmap_loop-Aside s a zero = (refl, refl, refl)
mmap_loop-Aside s a (suc p) = elim (Bool-cases (get_vmm_page s (suc p) == 0)) [
  | inl e ↦ rw e (refl, refl, refl)
  | inr e ↦ rw e (mmap_loop-Aside s a p)
]

vmm_mmap_page-Aside : (s : Vmm) (a : ℕ) → Aside s (vmm_mmap_page s a).1
unfolding vmm_mmap_page
vmm_mmap_page-Aside s a = elim (Bool-cases (ltb (a / page_size) s.dmmap_page_count)) [
  | inl e ↦ rw e (refl, refl, refl)
  | inr e ↦ rw e (mmap_loop-Aside s a s.vmm_pos)
]

-- Bytes inside one page.
in_one_page :
    (a offset len : ℕ)
    → 0 < len
    → offset + len ≤ page_size
    → a < 2 ^ 20 - 1
    → (get_page_attr (a * page_size + offset) ≡ a * page_size)
      × (page_conut (a * page_size + offset) len ≡ 1)
in_one_page a offset len some_len inside low = (omega arith, omega arith)

-- The slot at `p` of the window is cleared, and nothing else but the counters changes.
vmm_ummap_page_slot :
    (t : Vmm) (p : ℕ)
    → IsWindow t
    → p < t.vmmap_page_count
    → let u : Vmm = vmm_ummap_page t ((t.dmmap_page_count + p) * page_size) 1 in
      ((q : ℕ) → get_vmm_page u q ≡ (if q == p then 0 else get_vmm_page t q)) × (u.pmm ≡ t.pmm)
unfolding vmm_ummap_page unmap_run remove_slot
vmm_ummap_page_slot t p w inside =
    let at : (t.dmmap_page_count + p) * page_size / page_size ≡ t.dmmap_page_count + p =
      omega arith in
    let high : leb t.dmmap_page_count (t.dmmap_page_count + p) ≡ true = ground arith in
    let index : t.dmmap_page_count + p - t.dmmap_page_count ≡ p = omega arith in
    let fits : leb (add32 p 1) t.vmmap_page_count ≡ true = ground (arith, w) in
    let slot : add32 p 0 ≡ p = omega (arith, w, inside) in
    rw (at, high, index, fits, slot)
      (
        λ q.
            get_vmm_page_same (remove_slot t p) _ q refl refl refl
            ∙ get_vmm_page-remove_slot t w p inside q,
        refl,
      )

module _ (s : Umm) (attr len pde page : ℕ) (w : IsWindow s.vmm)
    (inside : s.vmm.vmm_pos < s.vmm.vmmap_page_count) (some_len : 0 < len)
    (one : attr % page_size + len ≤ page_size) (user : attr + len ≤ page_offset)
    (backed : get_page_attr (get_umm_value s (get_page_attr attr) pde) ≡ page * page_size)
    (some_page : 0 < page) (word : page < 2 ^ 20 - 1) where
  offset : ℕ
  offset = attr % page_size

  -- The call is one of `vmm_mmap_page`.
  umm_mmap_kmm-slot :
      let (p, m) = vmm_mmap_page s.vmm (page * page_size) in
      umm_mmap_kmm s attr len pde ≡ (
        if p == 0
        then (0, record s { vmm = m })
        else (sub32 (add32 p attr) (get_page_attr attr), record s { vmm = m }))
  unfolding umm_mmap_kmm map_one_page
  umm_mmap_kmm-slot =
      let count : page_conut attr len ≡ 1 = omega (arith, some_len, one, user) in
      let low : ltb page_offset (add32 attr len) ≡ false = ground (arith, user) in
      rw (count, low, backed, ne→== (page * page_size) 0 (λ e. omega (arith, e, some_page))) refl

  -- The address of a page, with the place of the bytes in it.
  place_lem :
      (b : ℕ)
      → 0 < b
      → b < 2 ^ 20 - 1
      → (((b * page_size) == 0) ≡ false)
        × (sub32 (add32 (b * page_size) attr) (get_page_attr attr) ≡ b * page_size + offset)
  unfolding offset
  place_lem b pos low =
      (ne→== (b * page_size) 0 (λ e. omega (arith, e, pos)), omega (arith, low, user))

  ummap_lem :
      (t : Umm) (b : ℕ)
      → b < 2 ^ 20 - 1
      → umm_ummap_kmm t (b * page_size + offset) len
        ≡ record t { vmm = vmm_ummap_page t.vmm (b * page_size) 1 }
  unfolding umm_ummap_kmm offset
  ummap_lem t b low =
      let (at, count) = in_one_page b (attr % page_size) len some_len one low in
      ap
        (λ (n : ℕ). record t {
          vmm = vmm_ummap_page t.vmm (get_page_attr (b * page_size + attr % page_size)) n;
        })
        count
      ∙ ap (λ (a : ℕ). record t { vmm = vmm_ummap_page t.vmm a 1 }) at

  kernel_direct :
      page < s.vmm.dmmap_page_count → InDirectMap s page offset len (umm_mmap_kmm s attr len pde)
  unfolding InDirectMap vmm_ummap_page
  kernel_direct h =
      let same = (vmm_mmap_page_lem s.vmm page w inside (omega (arith, word))).0 h in
      let (got, at) = place_lem page some_page word in
      let r : umm_mmap_kmm s attr len pde ≡ (page * page_size + offset, s) =
        umm_mmap_kmm-slot ∙ rw (same, got, at) refl in
      let back : page * page_size / page_size ≡ page = omega arith in
      let outside : leb s.vmm.dmmap_page_count page ≡ false = ground (arith, h) in
      (h, r, rw (r, ummap_lem s page word, back, outside) refl)

  kernel_slot :
      s.vmm.dmmap_page_count ≤ page
      → NoRoom s page (umm_mmap_kmm s attr len pde)
        ⊎ InSlot s page offset len (umm_mmap_kmm s attr len pde)
  unfolding NoRoom InSlot
  kernel_slot h =
      let m = vmm_mmap_page s.vmm (page * page_size) in
      let aside = vmm_mmap_page-Aside s.vmm (page * page_size) in
      elim ((vmm_mmap_page_lem s.vmm page w inside (omega (arith, word))).1 h) [
        | inl (none, full) ↦ inl (h, umm_mmap_kmm-slot ∙ rw none refl, full)
        | inr (p, some_p, below, address, free, _, slots, _) ↦
            let b : ℕ = s.vmm.dmmap_page_count + p in
            let low : b < 2 ^ 20 - 1 = omega (arith, w, below, inside) in
            let (got, at) = place_lem b (omega (arith, some_p)) low in
            let t : Umm = record s { vmm = m.1 } in
            let r : umm_mmap_kmm s attr len pde ≡ (b * page_size + offset, t) =
              umm_mmap_kmm-slot ∙ rw (address, got, at) refl in
            let undo =
              vmm_ummap_page_slot m.1 p (omega (arith, w, aside.0, aside.1))
                (omega (arith, below, inside, aside.1)) in
            let undone : umm_ummap_kmm t (b * page_size + offset) len
                ≡ record t { vmm = vmm_ummap_page m.1 ((m.1.dmmap_page_count + p) * page_size) 1 } =
              rw aside.0 (ummap_lem t b low) in
            rw (r, undone)
              (inr (
                p,
                some_p,
                below,
                refl,
                free,
                slots,
                refl,
                aside.2,
                λ q. ground (arith, undo.0 q, slots q, free),
                refl,
                undo.1 ∙ aside.2,
              ))
      ]

  -- Let one or more bytes lie inside one user page, below the kernel's part of the address space, and let the
  -- user's tables give the page a physical page, neither page 0 nor the last one of the address space, with
  -- a window that fills the page table and holds `vmm_pos`. When the physical page is in the direct map,
  -- `umm_mmap_kmm` returns its own address there with the place of the bytes in the page, and neither it nor
  -- `umm_ummap_kmm` of the address changes anything. Otherwise it returns NULL with nothing changed, when no slot
  -- from 1 up to `vmm_pos` is free; or a free slot now maps the physical page and no other slot changes, it
  -- returns the slot's address with the place of the bytes, and `umm_ummap_kmm` of that makes every slot what it
  -- was. The user's tables and the page allocator stay as they were.
  pub umm_ummap_kmm-umm_mmap_kmm :
      let r = umm_mmap_kmm s attr len pde in
      InDirectMap s page (attr % page_size) len r
      ⊎ (NoRoom s page r ⊎ InSlot s page (attr % page_size) len r)
  unfolding offset
  umm_ummap_kmm-umm_mmap_kmm = elim (dec_lt page s.vmm.dmmap_page_count) [
    | yes h ↦ inl (kernel_direct h)
    | no g ↦ inr (kernel_slot (omega (arith, g)))
  ]
