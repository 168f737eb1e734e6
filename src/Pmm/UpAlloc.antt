-- ===== src/Pmm/UpAlloc.antt =====
-- `pmm_up_alloc_page` of kernel/mm/pmm.c.
use bitch.Base.{
  ℕ, zero, suc, ◌+◌, ◌-◌, ◌*◌, ◌^◌, ◌≤◌, ◌<◌, ◌≡◌, refl, ap, ◌⊎◌, inl, inr, true, false, arith,
  dec_lt, ltb, ◌==◌, if◌then◌else◌, Bool-cases, add32, ltb→lt, ltb→le, ==→eq,
}
use bitch.Pmm.{
  Pmm, page_size, is_free, free_run, mark_run, take_run, up_alloc_loop, pmm_up_alloc_page,
}
use bitch.Pmm.Count.{count, count_run, count-le}
use bitch.Pmm.Inv.{IsValid, capacity, free_pages, is_free→lt, is_free_same}
use bitch.Pmm.Runs.{
  in_run, mark_run-IsBytes, mark_run_fields, is_free-mark_run, free_run_bounds, free_run_sound,
  free_run_stop,
}

-- The `n` pages from `p` on are free.
abbrev pub RunFree : Pmm → ℕ → ℕ → Type 0
RunFree s p n = (q : ℕ) → p ≤ q → q < p + n → is_free s q ≡ true

-- One of the `n` pages from `p` on is not free.
abbrev pub Blocked : Pmm → ℕ → ℕ → Type 0
Blocked s p n = (q : ℕ) × (p ≤ q) × (q < p + n) × (is_free s q ≡ false)

-- The lowest run of `n` free pages is handed out, and no other page changes.
abbrev pub TookRun : Pmm → ℕ → ℕ × Pmm → Type 0
TookRun s n r =
    (p : ℕ) × (r.0 ≡ p * page_size)
    × RunFree s p n
    × ((p' : ℕ) → p' < p → Blocked s p' n)
    × ((q : ℕ) → is_free r.1 q ≡ (if in_run p n q then false else is_free s q))
    × (r.1.free_page_count + n ≡ s.free_page_count)

-- NULL, an unchanged state, and no run of `n` free pages that begins below the high mark.
abbrev pub RefusedRun : Pmm → ℕ → ℕ × Pmm → Type 0
RefusedRun s n r = (r ≡ (0, s)) × ((p' : ℕ) → p' < s.tail_pos → Blocked s p' n)

module _ (s : Pmm) (n p : ℕ) (v : IsValid s) (pos : 0 < n) (run : RunFree s p n) where
  run_fits : p + n ≤ capacity s
  run_fits = omega (arith, is_free→lt s (p + n - 1) (run (p + n - 1) (omega arith) (omega arith)))

  take_run_pages :
      (q : ℕ) → is_free (take_run s n p).1 q ≡ (if in_run p n q then false else is_free s q)
  unfolding take_run
  take_run_pages q = ground (
    arith,
    is_free_same (mark_run s 1 p 0 n) (take_run s n p).1 q refl refl,
    is_free-mark_run s 1 p 0 n q v.bytes v.small,
    run_fits,
  )

  take_run_length : (take_run s n p).1.bitmap_length ≡ s.bitmap_length
  unfolding take_run
  take_run_length = (mark_run_fields s 1 p 0 n).0

  take_run_count :
      ((take_run s n p).1.free_page_count + n ≡ s.free_page_count)
      × ((take_run s n p).1.free_page_count ≡ free_pages (take_run s n p).1)
  unfolding take_run
  take_run_count = omega (
    arith,
    v.counted,
    v.small,
    run_fits,
    count_run (is_free s) (is_free (take_run s n p).1) p n (capacity s) run take_run_pages,
    count-le (is_free s) (capacity s),
    ap (λ m. count (is_free (take_run s n p).1) (m * 8)) take_run_length,
  )

  take_run-IsValid : IsValid (take_run s n p).1
  unfolding take_run
  take_run-IsValid = record {
    bytes = mark_run-IsBytes s 1 p 0 n v.bytes;
    small = omega (arith, v.small, take_run_length);
    low = λ q f. ground (arith, take_run_pages q, v.low q, v.small, run_fits);
    high = λ q f. ground (arith, take_run_pages q, v.high q, mark_run_fields s 1 p 0 n);
    counted = take_run_count.1;
    head_word = ground (arith, v.head_word);
    tail_word = omega (arith, v.tail_word, mark_run_fields s 1 p 0 n);
  }

  take_run-TookRun : ((p' : ℕ) → p' < p → Blocked s p' n) → TookRun s n (take_run s n p)
  unfolding take_run
  take_run-TookRun lowest =
      (p, omega (arith, v.small, run_fits), run, lowest, take_run_pages, take_run_count.0)

module _ (s : Pmm) (n p : ℕ) (v : IsValid s) (below : p < s.tail_pos) where
  -- The search stays clear of the wrap-around: all it walks over has a bit.
  walk_fits : (j : ℕ) → j ≤ free_run s p 0 n → p + j + 1 < 2 ^ 32
  walk_fits zero h = omega (arith, v.tail_word)
  walk_fits (suc j) h =
      let fits : p + j + 1 < 2 ^ 32 = walk_fits j (omega arith) in
      omega (arith, v.small, is_free→lt s (add32 p j) (free_run_sound s p 0 n j (omega arith) h))

  walked_free : RunFree s p (free_run s p 0 n)
  walked_free q lo hi =
      let at : add32 p (q - p) ≡ q = omega (arith, walk_fits (q - p) (omega arith)) in
      rw at at (free_run_sound s p 0 n (q - p) (omega arith) (omega arith))

  -- A search that stops early blocks every start up to the page where it stopped.
  stop_blocks :
      free_run s p 0 n < n → (p' : ℕ) → p ≤ p' → p' ≤ p + free_run s p 0 n → Blocked s p' n
  stop_blocks early p' lo hi =
      let i : ℕ = free_run s p 0 n in
      let at : add32 p i ≡ p + i = omega (arith, walk_fits i (omega arith)) in
      (p + i, hi, omega arith, rw at at (free_run_stop s p 0 n (omega arith)))

module _ (s : Pmm) (n : ℕ) (v : IsValid s) (pos : 0 < n) where
  -- No free page lies below the low mark.
  below_head : (p' : ℕ) → p' < s.head_pos → Blocked s p' n
  below_head p' h = (p', omega arith, omega arith, ground (arith, v.low p'))

  up_alloc_loop_lem :
      (fuel p : ℕ)
      → s.tail_pos < p + fuel
      → p < 2 ^ 32
      → ((p' : ℕ) → p' < p → Blocked s p' n)
      → (RefusedRun s n (up_alloc_loop fuel s n p) ⊎ TookRun s n (up_alloc_loop fuel s n p))
        × IsValid (up_alloc_loop fuel s n p).1
  unfolding up_alloc_loop
  up_alloc_loop_lem zero p enough word blocked = (inl (refl, λ p' h. blocked p' (omega arith)), v)
  up_alloc_loop_lem (suc fuel) p enough word blocked = elim (Bool-cases (ltb p s.tail_pos)) [
    | inr out ↦ rw out (inl (refl, λ p' h. blocked p' (omega (arith, ltb→le p s.tail_pos out))), v)
    | inl more ↦
        let below : p < s.tail_pos = ltb→lt p s.tail_pos more in
        rw more (elim (Bool-cases (free_run s p 0 n == n)) [
          | inl full ↦
              let run : RunFree s p n = rw (==→eq _ n full) at (walked_free s n p v below) in
              rw full
                (inr (take_run-TookRun s n p v pos run blocked), take_run-IsValid s n p v pos run)
          | inr part ↦
              let early : free_run s p 0 n < n = ground (arith, free_run_bounds s p 0 n) in
              let fits : p + free_run s p 0 n + 1 < 2 ^ 32 =
                walk_fits s n p v below (free_run s p 0 n) (omega arith) in
              let at : add32 (add32 p (free_run s p 0 n)) 1 ≡ p + free_run s p 0 n + 1 =
                omega arith in
              rw (part, at)
                (up_alloc_loop_lem fuel (p + free_run s p 0 n + 1) (omega arith) fits λ p' h.
                  elim (dec_lt p' p) [
                    | yes l ↦ blocked p' l
                    | no g ↦ stop_blocks s n p v below early p' (omega arith) (omega arith)
                  ])
        ])
  ]

  -- From a valid state `pmm_up_alloc_page` hands out the lowest run of `n` free pages (`n` is
  -- positive) and changes no other page, or returns NULL in an unchanged state, and every run of
  -- `n` pages that begins below the high mark has a page in use. The search ends in either case.
  pub pmm_up_alloc_page_lem :
      RefusedRun s n (pmm_up_alloc_page s n) ⊎ TookRun s n (pmm_up_alloc_page s n)
  unfolding pmm_up_alloc_page
  pmm_up_alloc_page_lem =
      (up_alloc_loop_lem (s.tail_pos + 1 - s.head_pos) s.head_pos (omega arith) v.head_word
        below_head).0

  -- `pmm_up_alloc_page` keeps the invariant.
  pub pmm_up_alloc_page-IsValid : IsValid (pmm_up_alloc_page s n).1
  unfolding pmm_up_alloc_page
  pmm_up_alloc_page-IsValid =
      (up_alloc_loop_lem (s.tail_pos + 1 - s.head_pos) s.head_pos (omega arith) v.head_word
        below_head).1

bitmap_length-up_alloc_loop :
    (fuel : ℕ) (s : Pmm) (n p : ℕ) → (up_alloc_loop fuel s n p).1.bitmap_length ≡ s.bitmap_length
unfolding up_alloc_loop take_run
bitmap_length-up_alloc_loop zero s n p = refl
bitmap_length-up_alloc_loop (suc fuel) s n p = ground (
  arith,
  mark_run_fields s 1 p 0 n,
  bitmap_length-up_alloc_loop fuel s n (add32 (add32 p (free_run s p 0 n)) 1),
)

pub bitmap_length-pmm_up_alloc_page :
    (s : Pmm) (n : ℕ) → (pmm_up_alloc_page s n).1.bitmap_length ≡ s.bitmap_length
unfolding pmm_up_alloc_page
bitmap_length-pmm_up_alloc_page s n =
    bitmap_length-up_alloc_loop (s.tail_pos + 1 - s.head_pos) s n s.head_pos
