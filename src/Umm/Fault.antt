-- ===== src/Umm/Fault.antt =====
-- The page fault handler of kernel/mm/umm.c, and the range check of its mapping call.
use bitch.Base.{
  ℕ, ◌+◌, ◌*◌, ◌/◌, ◌^◌, ◌≤◌, ◌<◌, ◌≡◌, ◌≢◌, refl, ◌∙◌, ◌⊎◌, inl, inr, true, arith, ◌==◌,
  if◌then◌else◌, ne→==,
}
use bitch.Kmm.{pde_index, set_page, user_flags, page_offset, globl_page_num}
use bitch.Pmm.{page_size, is_free, pmm_alloc_page}
use bitch.Pmm.Alloc.{Refused, Took, pmm_alloc_page_lem, pmm_alloc_page-IsValid}
use bitch.Pmm.Inv
use bitch.Pmm.Inv.{is_free→lt}
use bitch.Umm.{Umm, get_umm_value, set_umm_value, umm_handler}
use bitch.Umm.Tables.{entry, IsTables, IsTables-taken}
use bitch.Umm.Map.{SetDone, value_mem, set_umm_value_lem}
use bitch.Vmm.{Vmm, dmm_alloc_page}

-- The fault's page maps a page that was free, with the user's rights; other pages map what they
-- did.
abbrev pub Filled : Umm → (dir attr : ℕ) → ℕ × Umm → Type 0
Filled s dir attr r =
    (p : ℕ) × (r.0 ≡ 1)
    × (attr < page_offset)
    × (is_free s.vmm.pmm p ≡ true)
    × ((a : ℕ)
        → a < 2 ^ 32
        → get_umm_value r.1 a (dir * page_size) ≡ (
            if a / page_size == attr / page_size
            then p * page_size + user_flags
            else get_umm_value s a (dir * page_size)))

-- The mapper after the handler has drawn a page.
abbrev pub drawn_vmm : Umm → Vmm
drawn_vmm s = record s.vmm { pmm = (pmm_alloc_page s.vmm.pmm).1 }

abbrev pub NotFilled : Umm → (dir attr : ℕ) → ℕ × Umm → Type 0
NotFilled s dir attr r =
    (r.0 ≡ 0)
    × ((s.vmm.pmm.free_page_count ≤ 1)
        ⊎ ((page_offset ≤ attr) ⊎ ((dmm_alloc_page (drawn_vmm s) 1).0 ≡ 0)))
    × ((a : ℕ) → get_umm_value r.1 a (dir * page_size) ≡ get_umm_value s a (dir * page_size))

module _ (s : Umm) (dir attr : ℕ) (tables : IsTables s dir) (valid : Inv.IsValid s.vmm.pmm)
    (some_direct : 0 < s.vmm.dmmap_page_count)
    (direct : s.vmm.dmmap_page_count ≤ globl_page_num) where
  abbrev drawn : Umm
  drawn = record s { vmm = drawn_vmm s }

  no_table :
      (page_offset ≤ attr)
        ⊎ ((entry drawn dir (pde_index attr) ≡ 0) × ((dmm_alloc_page (drawn_vmm s) 1).0 ≡ 0))
      → (page_offset ≤ attr) ⊎ ((dmm_alloc_page (drawn_vmm s) 1).0 ≡ 0)
  no_table (inl high) = inl high
  no_table (inr (_, null)) = inr null

  with_page :
      (phy : ℕ)
      → phy ≡ (pmm_alloc_page s.vmm.pmm).0
      → phy ≢ 0
      → (p : ℕ) → phy ≡ p * page_size
      → p < 2 ^ 20
      → is_free s.vmm.pmm p ≡ true
      → SetDone drawn dir attr
          (set_page phy user_flags)
          (set_umm_value drawn attr (set_page phy user_flags) (dir * page_size))
      → NotFilled s dir attr (umm_handler s attr (dir * page_size))
        ⊎ Filled s dir attr (umm_handler s attr (dir * page_size))
  unfolding umm_handler
  with_page phy e ne p at word free (inl (zero_result, why, same), _) =
      rw (← e, ne→== phy 0 ne, zero_result)
        (inl (
          refl,
          inr (no_table why),
          λ a.
              value_mem _ _ a (dir * page_size) refl
              ∙ same a
              ∙ value_mem s drawn a (dir * page_size) refl,
        ))
  with_page phy e ne p at word free (inr (one, user, values), _) =
      let flags : set_page phy user_flags ≡ p * page_size + user_flags = omega arith in
      rw (← e, ne→== phy 0 ne, one)
        (inr (
          p,
          refl,
          user,
          free,
          λ a h. ground (arith, values a h, flags, value_mem s drawn a (dir * page_size) refl),
        ))

  handler_split :
      Refused s.vmm.pmm (pmm_alloc_page s.vmm.pmm) ⊎ Took s.vmm.pmm (pmm_alloc_page s.vmm.pmm)
      → NotFilled s dir attr (umm_handler s attr (dir * page_size))
        ⊎ Filled s dir attr (umm_handler s attr (dir * page_size))
  handler_split (inl (null, _, _, few)) =
      unfold umm_handler in
      rw null (inl (refl, inl few, λ a. value_mem s drawn a (dir * page_size) refl))
  handler_split (inr (p, at, pos, free, top, out, cnt)) =
      with_page (pmm_alloc_page s.vmm.pmm).0 refl (omega arith) p at
        (omega (arith, is_free→lt s.vmm.pmm p free, valid.small)) free
        (set_umm_value_lem drawn dir attr (set_page (pmm_alloc_page s.vmm.pmm).0 user_flags)
          (IsTables-taken s (drawn_vmm s) dir tables λ q u. ground (arith, out q))
          (pmm_alloc_page-IsValid valid) some_direct direct)

  -- Over well-formed tables and a valid page allocator, the handler of a page fault either maps
  -- the page of the faulting address, which is below PAGE_OFFSET, to a page that was free, with
  -- the user's rights, and leaves the entry of every other page as it was, or it returns 0 and
  -- leaves all entries as they were. It returns 0 only if at most one page is free, if the address
  -- is not below PAGE_OFFSET, or if `dmm_alloc_page` returns NULL for a table.
  pub umm_handler_lem :
      NotFilled s dir attr (umm_handler s attr (dir * page_size))
      ⊎ Filled s dir attr (umm_handler s attr (dir * page_size))
  umm_handler_lem = handler_split (pmm_alloc_page_lem valid)
