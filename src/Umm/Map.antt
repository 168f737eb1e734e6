-- ===== src/Umm/Map.antt =====
-- The user page tables of kernel/mm/umm.c as a map from pages to entries.
use bitch.Base.{
  ℕ, ◌*◌, ◌/◌, ◌^◌, ◌≤◌, ◌<◌, ◌≡◌, ◌≢◌, refl, ◌∙◌, ◌⊎◌, inl, inr, true, ◌&&◌, arith, leb, ◌==◌,
  if◌then◌else◌, Bool-cases, ℕ_discrete, ==→eq,
}
use bitch.Kmm.{get_page_attr, pde_index, pte_index, page_offset, globl_page_num}
use bitch.Pmm.{page_size, is_free}
use bitch.Pmm.Inv
use bitch.Pmm.Inv.{is_free→lt}
use bitch.Umm.{Umm, get_umm_value, set_in_new_table, set_umm_value}
use bitch.Vmm.{Vmm, dmm_alloc_page}
use bitch.Vmm.Direct.{DirectRun, NoDirectRun, dmm_alloc_page_lem}
use bitch.Umm.Tables.{
  entry, table, IsTables, cell, set_old, cell-set_old, IsTables-set_old, set_new, cell-set_new,
  IsTables-set_new, IsTables-taken,
}

-- `set_umm_value` has stored nothing, or it has stored `v` for the page of `attr` and for no other.
abbrev pub Stored : Umm → (dir attr v : ℕ) → ℕ × Umm → Type 0
Stored s dir attr v r =
    (r.0 ≡ 1)
    × (attr < page_offset)
    × ((a : ℕ)
        → a < 2 ^ 32
        → get_umm_value r.1 a (dir * page_size)
          ≡ (if a / page_size == attr / page_size then v else get_umm_value s a (dir * page_size)))

abbrev pub NotStored : Umm → (dir attr : ℕ) → ℕ × Umm → Type 0
NotStored s dir attr r =
    (r.0 ≡ 0)
    × ((page_offset ≤ attr)
        ⊎ ((entry s dir (pde_index attr) ≡ 0) × ((dmm_alloc_page s.vmm 1).0 ≡ 0)))
    × ((a : ℕ) → get_umm_value r.1 a (dir * page_size) ≡ get_umm_value s a (dir * page_size))

-- An entry depends on the memory alone.
pub value_mem :
    (s t : Umm) (a pde : ℕ) → t.mem ≡ s.mem → get_umm_value t a pde ≡ get_umm_value s a pde
unfolding get_umm_value
value_mem s t a pde e = rw e

-- `get_umm_value` reads a cell.
value-cell :
    (s : Umm) (a dir : ℕ)
    → get_umm_value s a (dir * page_size) ≡ cell s dir (pde_index a) (pte_index a)
unfolding get_umm_value
value-cell s a dir = refl

same_page :
    (a attr : ℕ)
    → ((pde_index a == pde_index attr) && (pte_index a == pte_index attr))
      ≡ (a / page_size == attr / page_size)
same_page a attr = ground arith

cells→values :
    (s t : Umm) (dir attr v : ℕ)
    → ((k i : ℕ)
        → k < 1024
        → i < 1024
        → cell t dir k i
          ≡ (if (k == pde_index attr) && (i == pte_index attr) then v else cell s dir k i))
    → (a : ℕ) → a < 2 ^ 32
    → get_umm_value t a (dir * page_size)
      ≡ (if a / page_size == attr / page_size then v else get_umm_value s a (dir * page_size))
cells→values s t dir attr v cells a h =
    rw (value-cell t a dir, value-cell s a dir, ← same_page a attr)
      (cells (pde_index a) (pte_index a) (omega arith) (omega arith))

-- What `set_umm_value` leaves.
abbrev pub SetDone : Umm → (dir attr v : ℕ) → ℕ × Umm → Type 0
SetDone s dir attr v r = (NotStored s dir attr r ⊎ Stored s dir attr v r) × IsTables r.1 dir

module _ (s : Umm) (dir attr v : ℕ) (tables : IsTables s dir) (user : attr < page_offset) where
  set_in_new-SetDone :
      (r : ℕ × Vmm)
      → r ≡ dmm_alloc_page s.vmm 1
      → Inv.IsValid s.vmm.pmm
      → entry s dir (pde_index attr) ≡ 0
      → NoDirectRun s.vmm 1 r ⊎ DirectRun s.vmm 1 r
      → SetDone s dir attr v (set_in_new_table s attr v (dir * page_size))
  unfolding set_in_new_table
  set_in_new-SetDone r e valid none_here (inl (null, (same, _), _, _)) =
      rw (← e, null)
        (
          inl (
            refl,
            inr (none_here, refl),
            λ a. rw (value-cell s a dir) (value-cell (record s { vmm = r.1 }) a dir),
          ),
          IsTables-taken s r.1 dir tables λ q u. same q ∙ u,
        )
  set_in_new-SetDone r e valid none_here (inr ((p, at, run, _, out, _), _, _)) =
      let s' : Umm = record s { vmm = r.1 } in
      let tables' : IsTables s' dir =
        IsTables-taken s r.1 dir tables λ q u. ground (arith, out q) in
      let free : is_free s.vmm.pmm p ≡ true = run p (omega arith) (omega arith) in
      let word : p < 2 ^ 20 = omega (arith, is_free→lt s.vmm.pmm p free, valid.small) in
      let new : (k : ℕ) → k < 1024 → entry s dir k ≢ 0 → table s dir k ≢ p =
        λ k h ne eq. ground (arith, tables.used k h ne) in
      let ne_dir : p ≢ dir = λ eq. ground (arith, tables.dir_used) in
      rw (← e, at)
        (elim (Bool-cases (p * page_size == 0)) [
          | inl zero_page ↦ rw zero_page (
            inl (
              refl,
              inr (none_here, ==→eq _ 0 zero_page),
              λ a. rw (value-cell s a dir) (value-cell s' a dir),
            ),
            tables',
          )
          | inr got ↦ rw got (
            inr (
              refl,
              user,
              cells→values s (set_new s' dir p (pde_index attr) (pte_index attr) v) dir attr v (
                  cell-set_new s' dir p (pde_index attr) (pte_index attr) v tables' (omega arith)
                    (omega arith) new ne_dir (ground arith) word none_here),
            ),
            IsTables-set_new s' dir p (pde_index attr) (pte_index attr) v tables' (omega arith)
                (omega arith) new ne_dir (ground arith) word none_here (ground (arith, out p)),
          )
        ])

module _ (s : Umm) (dir attr v : ℕ) (tables : IsTables s dir) (valid : Inv.IsValid s.vmm.pmm)
    (some_direct : 0 < s.vmm.dmmap_page_count)
    (direct : s.vmm.dmmap_page_count ≤ globl_page_num) where
  set_umm_value-SetDone : SetDone s dir attr v (set_umm_value s attr v (dir * page_size))
  unfolding set_umm_value
  set_umm_value-SetDone = elim (Bool-cases (leb page_offset attr)) [
    | inl kernel ↦ rw kernel (inl (refl, inl (ground arith), λ a. refl), tables)
    | inr user ↦
        let below : attr < page_offset = ground arith in
        rw user (elim (Bool-cases (get_page_attr (entry s dir (pde_index attr)) == 0)) [
          | inl none ↦ rw none (
              set_in_new-SetDone s dir attr v tables below (dmm_alloc_page s.vmm 1) refl valid
                (no_table (pde_index attr) (omega arith) (==→eq _ 0 none))
                (dmm_alloc_page_lem s.vmm 1 valid (omega arith) (omega arith) direct))
          | inr old ↦
              let here : entry s dir (pde_index attr) ≢ 0 = λ e. ground arith in
              rw old (
                inr (
                  refl,
                  below,
                  cells→values s (set_old s dir (pde_index attr) (pte_index attr) v) dir attr v (
                      cell-set_old s dir (pde_index attr) (pte_index attr) v tables (omega arith)
                        (omega arith) here),
                ),
                IsTables-set_old s dir (pde_index attr) (pte_index attr) v tables (omega arith)
                    (omega arith) here,
              )
        ])
  ]
    where
      no_table : (m : ℕ) → m < 1024 → get_page_attr (entry s dir m) ≡ 0 → entry s dir m ≡ 0
      no_table m h e = elim (ℕ_discrete (entry s dir m) 0) [
        | yes z ↦ z
        | no ne ↦ absurd (omega (arith, tables.linked m h ne))
      ]

  -- Over well-formed tables, a valid page allocator and a direct map that is not empty,
  -- `set_umm_value` either stores the entry of the page of `attr`, an address below PAGE_OFFSET,
  -- and leaves the entry of every other page as it was, or it returns 0 and leaves all entries as
  -- they were. It returns 0 only if the address is not below PAGE_OFFSET, or if its table is
  -- missing and `dmm_alloc_page` returns NULL. The tables stay well formed.
  pub set_umm_value_lem :
      (NotStored s dir attr (set_umm_value s attr v (dir * page_size))
        ⊎ Stored s dir attr v (set_umm_value s attr v (dir * page_size)))
      × IsTables (set_umm_value s attr v (dir * page_size)).1 dir
  set_umm_value_lem = set_umm_value-SetDone
