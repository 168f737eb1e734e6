-- ===== src/Pmm/Tests.antt =====
-- Runs of the page allocator, and its theorems at a small memory.
use bitch.Base.{ℕ, ◌+◌, ◌*◌, ◌≤◌, ◌≡◌, refl, ◌≢◌, ◌⊎◌, true, arith, if◌then◌else◌}
use bitch.Pmm.{Pmm, page_size, is_free, pmm_alloc_page, pmm_up_alloc_page, pmm_free_page, pmm_init}
use bitch.Pmm.Alloc.{Refused, Took, pmm_alloc_page_lem}
use bitch.Pmm.Free.{RunUsed, SamePages, pmm_free_page_lem, pmm_free_page-pmm_up_alloc_page}
use bitch.Pmm.Init.{in_range, pmm_init_lem, pmm_init-IsValid}
use bitch.Pmm.Inv.{IsValid, capacity}
use bitch.Pmm.Reach.{Reach, start, alloc, up_alloc, Reach-IsValid}
use bitch.Pmm.Runs.{in_run}
use bitch.Pmm.UpAlloc.{RefusedRun, TookRun, pmm_up_alloc_page_lem}

abbrev memory : ℕ → ℕ
memory i = 0xff

-- 16 pages, of which the kernel's image takes the first four.
abbrev machine : Pmm
machine = (pmm_init memory 0x3ffe 16).0

machine_marks : (machine.head_pos ≡ 4) × (machine.tail_pos ≡ 15) × (machine.free_page_count ≡ 12)
unfolding pmm_init
machine_marks = (refl, refl, refl)

machine-IsValid : IsValid machine
machine-IsValid =
    pmm_init-IsValid memory 0x3ffe 16 (λ i. omega arith) (omega arith) (omega arith) (omega arith)

first_page : (pmm_alloc_page machine).0 ≡ 0xf000
unfolding pmm_alloc_page pmm_init
first_page = refl

three_pages : (pmm_up_alloc_page machine 3).0 ≡ 0x4000
unfolding pmm_up_alloc_page pmm_init
three_pages = refl

pmm_alloc_page_lem_example :
    Refused machine (pmm_alloc_page machine) ⊎ Took machine (pmm_alloc_page machine)
pmm_alloc_page_lem_example = pmm_alloc_page_lem machine-IsValid

pmm_up_alloc_page_lem_example :
    RefusedRun machine 3 (pmm_up_alloc_page machine 3)
    ⊎ TookRun machine 3 (pmm_up_alloc_page machine 3)
pmm_up_alloc_page_lem_example = pmm_up_alloc_page_lem machine 3 machine-IsValid (omega arith)

kernel_pages : RunUsed machine 1 2
kernel_pages q lo hi = ground (
  arith,
  pmm_init_lem memory 0x3ffe 16 (λ i. omega arith) (omega arith) (omega arith) (omega arith) q,
)

run_in_reach : 1 + 2 ≤ capacity machine
unfolding pmm_init
run_in_reach = omega arith

pmm_free_page_lem_example :
    ((q : ℕ)
      → is_free (pmm_free_page machine (1 * page_size) 2) q
        ≡ (if in_run 1 2 q then true else is_free machine q))
    × ((pmm_free_page machine (1 * page_size) 2).free_page_count ≡ machine.free_page_count + 2)
pmm_free_page_lem_example =
    pmm_free_page_lem machine 1 2 machine-IsValid (omega arith) run_in_reach kernel_pages

pmm_init_lem_example : is_free machine 5 ≡ in_range 4 16 5
pmm_init_lem_example =
    pmm_init_lem memory 0x3ffe 16 (λ i. omega arith) (omega arith) (omega arith) (omega arith) 5

got_page : (pmm_alloc_page machine).0 ≢ 0
got_page = ground (arith, first_page)

got_run : (pmm_up_alloc_page machine 3).0 ≢ 0
got_run = ground (arith, three_pages)

pmm_free_page-pmm_up_alloc_page_example :
    SamePages machine
      (pmm_free_page (pmm_up_alloc_page machine 3).1 (pmm_up_alloc_page machine 3).0 3)
pmm_free_page-pmm_up_alloc_page_example =
    pmm_free_page-pmm_up_alloc_page 3 machine-IsValid (omega arith) got_run

machine_reached : Reach machine
machine_reached =
    start memory 0x3ffe 16 (λ i. omega arith) (omega arith) (omega arith) (omega arith)

Reach-IsValid_example : IsValid (pmm_alloc_page (pmm_up_alloc_page machine 3).1).1
Reach-IsValid_example = Reach-IsValid (alloc (up_alloc 3 machine_reached (omega arith)))
