-- ===== src/Vmm/Direct.antt =====
-- The direct map of kernel/mm/vmm.c: `vmm_init`, `dmm_alloc_page` and `vmm_mmap_page`.
use bitch.Base.{
  ℕ, zero, suc, ◌+◌, ◌-◌, ◌*◌, ◌/◌, ◌^◌, ◌≤◌, ◌<◌, ◌≡◌, ◌≢◌, refl, ◌∙◌, ◌⊎◌, inl, inr, true, false,
  ◌&&◌, arith, ltb, leb, ◌==◌, if◌then◌else◌, add32, sub32, ltb→lt, ltb→le, lt→ltb, le→ltb,
  Bool-cases, ==→eq, dec_lt,
}
use bitch.Kmm.{PteTable, globl_page_num, globl_page_mmap, get_globl_page_attr}
use bitch.Pmm.{Pmm, page_size, is_free, pmm_up_alloc_page}
use bitch.Pmm.Free.{SamePages, TookRun-undone, is_free-pmm_free_page}
use bitch.Pmm.Inv
use bitch.Pmm.Inv.{capacity, is_free→lt}
use bitch.Pmm.UpAlloc.{
  TookRun, RefusedRun, pmm_up_alloc_page_lem, pmm_up_alloc_page-IsValid,
  bitmap_length-pmm_up_alloc_page,
}
use bitch.Vmm.{
  Vmm, get_vmm_page, get_globl_page_index, map_slot, mmap_loop, vmm_mmap_page, dmm_alloc_page,
  dmmap_page_max, direct_loop, vmm_init,
}
use bitch.Vmm.Slots.{IsWindow, get_vmm_page-map_slot, get_vmm_page_same}

-- The result of a call that found a run of direct pages, or changed no page, since there is no
-- free run or the lowest one reaches past the direct map.
abbrev pub DirectRun : Vmm → ℕ → ℕ × Vmm → Type 0
DirectRun s n r =
    TookRun s.pmm n (r.0, r.1.pmm) × (r.0 / page_size + n ≤ s.dmmap_page_count) × (r.1.pte ≡ s.pte)

abbrev pub NoDirectRun : Vmm → ℕ → ℕ × Vmm → Type 0
NoDirectRun s n r =
    (r.0 ≡ 0)
    × SamePages s.pmm r.1.pmm
    × (r.1.pte ≡ s.pte)
    × (RefusedRun s.pmm n (pmm_up_alloc_page s.pmm n)
        ⊎ (s.dmmap_page_count < (pmm_up_alloc_page s.pmm n).0 / page_size + n))

module _ (s : Vmm) (n : ℕ) (v : Inv.IsValid s.pmm) where
  dmm_split :
      0 < n
      → n ≤ s.dmmap_page_count
      → s.dmmap_page_count ≤ globl_page_num
      → RefusedRun s.pmm n (pmm_up_alloc_page s.pmm n) ⊎ TookRun s.pmm n (pmm_up_alloc_page s.pmm n)
      → NoDirectRun s n (dmm_alloc_page s n) ⊎ DirectRun s n (dmm_alloc_page s n)
  unfolding dmm_alloc_page
  dmm_split pos fits small (inl (e, blocked)) =
      let short : ltb s.dmmap_page_count (add32 (0 / page_size) n) ≡ false =
        le→ltb _ _ (omega arith) in
      rw e (rw short (inl (refl, (λ q. refl, refl), refl, inl (refl, blocked))))
  dmm_split pos fits small (inr took) =
      let end : took.0 + n ≤ capacity s.pmm = omega (
        arith,
        is_free→lt s.pmm (took.0 + n - 1) (took.2 (took.0 + n - 1) (omega arith) (omega arith)),
      ) in
      elim (Bool-cases
        (ltb s.dmmap_page_count (add32 ((pmm_up_alloc_page s.pmm n).0 / page_size) n))) [
          | inl high ↦ rw high (
              inl (
                refl,
                TookRun-undone s.pmm n (pmm_up_alloc_page s.pmm n) v
                    (pmm_up_alloc_page-IsValid s.pmm n v pos) pos
                    (bitmap_length-pmm_up_alloc_page s.pmm n) took,
                refl,
                inr (omega (arith, ltb→lt _ _ high, took.1, end, v.small)),
              ))
          | inr low ↦ rw low (inr (took, omega (arith, ltb→le _ _ low, took.1, end, v.small), refl))
        ]

  -- From a valid page allocator, a request of `dmm_alloc_page` for a positive `n` that the direct
  -- map has room for gets the lowest run of free pages, if that lies in the direct map, and NULL
  -- with no page changed, if it does not or there is none.
  pub dmm_alloc_page_lem :
      0 < n
      → n ≤ s.dmmap_page_count
      → s.dmmap_page_count ≤ globl_page_num
      → NoDirectRun s n (dmm_alloc_page s n) ⊎ DirectRun s n (dmm_alloc_page s n)
  dmm_alloc_page_lem pos fits small = dmm_split pos fits small (pmm_up_alloc_page_lem s.pmm n v pos)

  -- From a valid page allocator that has no run of `n` free pages, a request of `dmm_alloc_page`
  -- for more pages than the direct map holds (and no more than the memory has) fails, and marks
  -- the pages from 0 up to `n` as free.
  dmm_alloc_page-wild :
      n ≤ capacity s.pmm
      → s.dmmap_page_count < n
      → RefusedRun s.pmm n (pmm_up_alloc_page s.pmm n)
      → ((dmm_alloc_page s n).0 ≡ 0)
        × ((q : ℕ)
            → is_free (dmm_alloc_page s n).1.pmm q ≡ (if ltb q n then true else is_free s.pmm q))
  unfolding dmm_alloc_page
  dmm_alloc_page-wild room over (e, blocked) =
      let long : ltb s.dmmap_page_count (add32 (0 / page_size) n) ≡ true =
        lt→ltb _ _ (omega (arith, v.small)) in
      rw e (
        rw long (
          refl,
          λ q. ground (arith, is_free-pmm_free_page s.pmm 0 n v.bytes v.small (omega arith) q),
        ))

-- The direct map after the loop has run from `i` up to `last`.
direct_loop_lem :
    (pte : PteTable) (i left last q : ℕ)
    → i + left ≡ last
    → last ≤ globl_page_num
    → get_globl_page_attr (direct_loop pte i left) q
      ≡ (if leb i q && ltb q last then q * page_size else get_globl_page_attr pte q)
unfolding direct_loop
direct_loop_lem pte i zero last q e h = ground arith
direct_loop_lem pte i (suc left) last q e h =
    ground (
      arith,
      direct_loop_lem (globl_page_mmap pte i i) (i + 1) left last q (omega arith) h,
      mapped i,
    )
  where
    mapped :
        (j : ℕ)
        → j < globl_page_num
        → get_globl_page_attr (globl_page_mmap pte j j) q
          ≡ (if q == j then q * page_size else get_globl_page_attr pte q)
    mapped j k = unfold get_globl_page_attr globl_page_mmap in ground arith

-- After `vmm_init` over a page table with no page mapped, the direct map and the window fill the
-- table, page `i` of the direct map maps itself, and every slot of the window is free and counted.
vmm_init_lem :
    (m : Pmm) (pte : PteTable) (mem_page_count : ℕ)
    → ((i : ℕ) → pte i ≡ 0)
    → let s = vmm_init m pte mem_page_count in
      IsWindow s
      × ((i : ℕ) → i < s.dmmap_page_count → get_globl_page_attr s.pte i ≡ i * page_size)
      × ((q : ℕ) → get_vmm_page s q ≡ 0)
      × (s.vmm_free_page_count ≡ s.vmmap_page_count)
      × (s.vmm_pos + 1 ≡ s.vmmap_page_count)
unfolding vmm_init get_vmm_page get_globl_page_attr get_globl_page_index
vmm_init_lem m pte mem_page_count clear =
    let direct : ℕ = if ltb mem_page_count dmmap_page_max then mem_page_count else dmmap_page_max in
    let fits : direct ≤ dmmap_page_max = ground arith in
    (
      omega (arith, fits),
      λ i h.
          ground (arith, direct_loop_lem pte 0 direct direct i (omega arith) (omega (arith, fits))),
      λ q. ground (
        arith,
        direct_loop_lem pte 0 direct direct (add32 direct q) (omega arith) (omega (arith, fits)),
        clear (add32 direct q),
      ),
      refl,
      omega (arith, fits),
    )

-- The counters after a page has been mapped at the slot `p`.
abbrev found_at : Vmm → ℕ → Vmm → Vmm
found_at s p t = record t { vmm_free_page_count = sub32 s.vmm_free_page_count 1; vmm_pos = p }

-- NULL, an unchanged state, and no free slot above slot 0 and up to `vmm_pos`.
abbrev pub NoSlot : Vmm → ℕ × Vmm → Type 0
NoSlot s r = (r ≡ (0, s)) × ((q : ℕ) → 0 < q → q ≤ s.vmm_pos → get_vmm_page s q ≢ 0)

-- The highest free slot now maps `page`, and no other slot changes.
abbrev pub Mapped : Vmm → ℕ → ℕ × Vmm → Type 0
Mapped s page r =
    (p : ℕ) × (0 < p)
    × (p ≤ s.vmm_pos)
    × (r.0 ≡ (s.dmmap_page_count + p) * page_size)
    × (get_vmm_page s p ≡ 0)
    × ((q : ℕ) → p < q → q ≤ s.vmm_pos → get_vmm_page s q ≢ 0)
    × ((q : ℕ) → get_vmm_page r.1 q ≡ (if q == p then page * page_size else get_vmm_page s q))
    × (r.1.vmm_pos ≡ p)

module _ (s : Vmm) (page : ℕ) (w : IsWindow s) (inside : s.vmm_pos < s.vmmap_page_count)
    (word : page < 2 ^ 20) where
  used_at : (p q : ℕ) → (get_vmm_page s (suc p) == 0) ≡ false → q ≡ suc p → get_vmm_page s q ≢ 0
  used_at p q used e = λ z. ground arith

  mmap_loop_lem :
      (p : ℕ)
      → p ≤ s.vmm_pos
      → ((q : ℕ) → p < q → q ≤ s.vmm_pos → get_vmm_page s q ≢ 0)
      → NoSlot s (mmap_loop s (page * page_size) p)
        ⊎ Mapped s page (mmap_loop s (page * page_size) p)
  unfolding mmap_loop
  mmap_loop_lem zero h above = inl (refl, above)
  mmap_loop_lem (suc p) h above = elim (Bool-cases (get_vmm_page s (suc p) == 0)) [
    | inl free ↦ rw free (
        inr (
          suc p,
          omega arith,
          h,
          unfold get_globl_page_index in omega (arith, inside, w),
          ==→eq _ 0 free,
          above,
          λ q.
              get_vmm_page_same (map_slot s (page * page_size) (suc p))
                (found_at s (suc p) (map_slot s (page * page_size) (suc p))) q refl refl refl
              ∙ get_vmm_page-map_slot s w (suc p) (omega arith) page q word,
          refl,
        ))
    | inr used ↦ rw used (
        mmap_loop_lem p (omega arith) λ q lo hi. elim (dec_lt (suc p) q) [
          | yes l ↦ above q l hi
          | no g ↦ used_at p q used (omega arith)
        ])
  ]

  -- In a window that fills the page table, `vmm_mmap_page` returns a page of the direct map as it
  -- is; any other page it maps at the highest free slot, and changes no other slot, or it returns
  -- NULL in an unchanged state when no slot above slot 0 is free.
  pub vmm_mmap_page_lem :
      (page < s.dmmap_page_count → vmm_mmap_page s (page * page_size) ≡ (page * page_size, s))
      × (s.dmmap_page_count ≤ page
          → NoSlot s (vmm_mmap_page s (page * page_size))
            ⊎ Mapped s page (vmm_mmap_page s (page * page_size)))
  unfolding vmm_mmap_page
  vmm_mmap_page_lem =
      let same : page * page_size / page_size ≡ page = omega arith in
      (
        λ h. rw (same, lt→ltb page s.dmmap_page_count h),
        λ h.
            rw (same, le→ltb page s.dmmap_page_count h)
              (mmap_loop_lem s.vmm_pos (omega arith) λ q lo hi. absurd (omega arith)),
      )
