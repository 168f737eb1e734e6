-- ===== src/Pmm/Reach.antt =====
-- The states that the calls of kernel/mm/pmm.c lead to.
use bitch.Base.{ℕ, ◌+◌, ◌*◌, ◌^◌, ◌≤◌, ◌<◌}
use bitch.Pmm.{Pmm, page_size, pmm_alloc_page, pmm_up_alloc_page, pmm_free_page, pmm_init}
use bitch.Pmm.Alloc.{pmm_alloc_page-IsValid}
use bitch.Pmm.Bitmap.{IsBytes}
use bitch.Pmm.Free.{RunUsed, pmm_free_page-IsValid}
use bitch.Pmm.Init.{pmm_init-IsValid}
use bitch.Pmm.Inv.{IsValid, capacity}
use bitch.Pmm.UpAlloc.{pmm_up_alloc_page-IsValid}

-- Start-up on a memory that fits, then calls in any order; what is given back is in use.
pub data Reach : Pmm → Type 0 where
  start :
      (memory : ℕ → ℕ) (addr page_count : ℕ)
      → IsBytes memory
      → addr < 2 ^ 31
      → 0 < page_count
      → page_count ≤ 2 ^ 20
      → Reach (pmm_init memory addr page_count).0
  alloc : {s : Pmm} → Reach s → Reach (pmm_alloc_page s).1
  up_alloc : {s : Pmm} (n : ℕ) → Reach s → 0 < n → Reach (pmm_up_alloc_page s n).1
  free :
      {s : Pmm} (p n : ℕ)
      → Reach s
      → 0 < n
      → p + n ≤ capacity s
      → RunUsed s p n
      → Reach (pmm_free_page s (p * page_size) n)

-- In every state that `pmm_init` and calls of the allocator lead to, where what is given back is a
-- run of pages in use, the marks enclose the free pages and the counter is their number.
pub Reach-IsValid : {s : Pmm} → Reach s → IsValid s
Reach-IsValid (start memory addr n b l p h) = pmm_init-IsValid memory addr n b l p h
Reach-IsValid (alloc r) = pmm_alloc_page-IsValid (Reach-IsValid r)
Reach-IsValid (up_alloc {s} n r p) = pmm_up_alloc_page-IsValid s n (Reach-IsValid r) p
Reach-IsValid (free {s} p n r pos fits used) =
    pmm_free_page-IsValid s p n (Reach-IsValid r) pos fits used
