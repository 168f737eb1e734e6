-- ===== src/Pmm/Free.antt =====
-- `pmm_free_page` of kernel/mm/pmm.c, and what it undoes.
use bitch.Base.{
  ℕ, ◌+◌, ◌-◌, ◌*◌, ◌/◌, ◌^◌, ◌≤◌, ◌<◌, ◌≡◌, ◌≢◌, ap, inl, inr, true, false, arith, if◌then◌else◌,
}
use bitch.Pmm.{Pmm, page_size, is_free, mark_run, pmm_alloc_page, pmm_up_alloc_page, pmm_free_page}
use bitch.Pmm.Alloc.{Took, pmm_alloc_page_lem, pmm_alloc_page-IsValid, bitmap_length-pmm_alloc_page}
use bitch.Pmm.Bitmap.{IsBytes}
use bitch.Pmm.Count.{count, count_run, count-le}
use bitch.Pmm.Inv.{IsValid, capacity, free_pages, is_free→lt, is_free_same}
use bitch.Pmm.Runs.{in_run, mark_run-IsBytes, mark_run_fields, is_free-mark_run}
use bitch.Pmm.UpAlloc.{
  TookRun, pmm_up_alloc_page_lem, pmm_up_alloc_page-IsValid, bitmap_length-pmm_up_alloc_page,
}

-- The `n` pages from `p` on are in use.
abbrev pub RunUsed : Pmm → ℕ → ℕ → Type 0
RunUsed s p n = (q : ℕ) → p ≤ q → q < p + n → is_free s q ≡ false

module _ (s : Pmm) (p n : ℕ) (bytes : (i : ℕ) → s.bitmap i < 256) (small : capacity s ≤ 2 ^ 20)
    (fits : p + n ≤ capacity s) where
  -- `pmm_free_page` frees the pages of the run and changes no other page.
  pub is_free-pmm_free_page :
      (q : ℕ)
      → is_free (pmm_free_page s (p * page_size) n) q ≡ (if in_run p n q then true else is_free s q)
  unfolding pmm_free_page
  is_free-pmm_free_page q =
      let index : p * page_size / page_size ≡ p = omega arith in
      rw index (
        ground (
          arith,
          is_free_same (mark_run s 0 p 0 n) (pmm_free_page s (p * page_size) n) q,
          is_free-mark_run s 0 p 0 n q bytes small,
        ))

module _ (s : Pmm) (p n : ℕ) (v : IsValid s) (pos : 0 < n) (fits : p + n ≤ capacity s)
    (used : RunUsed s p n) where
  abbrev freed : Pmm
  freed = pmm_free_page s (p * page_size) n

  freed_pages : (q : ℕ) → is_free freed q ≡ (if in_run p n q then true else is_free s q)
  freed_pages = is_free-pmm_free_page s p n v.bytes v.small fits

  freed_length : freed.bitmap_length ≡ s.bitmap_length
  unfolding pmm_free_page
  freed_length = (mark_run_fields s 0 (p * page_size / page_size) 0 n).0

  freed_sum : count (is_free freed) (capacity s) ≡ count (is_free s) (capacity s) + n
  freed_sum = omega (
    arith,
    count_run (is_free freed) (is_free s) p n (capacity s)
        (λ q lo hi. ground (arith, freed_pages q)) (λ q. ground (arith, freed_pages q, used q)),
  )

  freed_count :
      (freed.free_page_count ≡ s.free_page_count + n) × (freed.free_page_count ≡ free_pages freed)
  unfolding pmm_free_page
  freed_count = omega (
    arith,
    v.counted,
    v.small,
    freed_sum,
    count-le (is_free freed) (capacity s),
    ap (λ m. count (is_free freed) (m * 8)) freed_length,
  )

  freed-IsValid : IsValid freed
  unfolding pmm_free_page
  freed-IsValid = record {
    bytes = mark_run-IsBytes s 0 (p * page_size / page_size) 0 n v.bytes;
    small = omega (arith, v.small, freed_length);
    low = λ q f. ground (arith, freed_pages q, v.low q, v.small);
    high = λ q f. ground (arith, freed_pages q, v.high q, v.small);
    counted = freed_count.1;
    head_word = ground (arith, v.head_word, v.small);
    tail_word = ground (arith, v.tail_word, v.small);
  }

  -- Giving back a run of pages in use frees exactly these pages and adds their number to the
  -- counter.
  pub pmm_free_page_lem :
      ((q : ℕ) → is_free freed q ≡ (if in_run p n q then true else is_free s q))
      × (freed.free_page_count ≡ s.free_page_count + n)
  pmm_free_page_lem = (freed_pages, freed_count.0)

  -- Giving back a run of pages in use keeps the invariant.
  pub pmm_free_page-IsValid : IsValid freed
  pmm_free_page-IsValid = freed-IsValid

-- `s` and `t` have the same free pages, and count as many.
abbrev pub SamePages : Pmm → Pmm → Type 0
SamePages s t = ((q : ℕ) → is_free t q ≡ is_free s q) × (t.free_page_count ≡ s.free_page_count)

Took-undone :
    (s : Pmm) (r : ℕ × Pmm)
    → IsValid s
    → IsValid r.1
    → r.1.bitmap_length ≡ s.bitmap_length
    → Took s r
    → SamePages s (pmm_free_page r.1 r.0 1)
Took-undone s r v v' len (p, a, pos, f, top, out, cnt) =
    let undone =
      pmm_free_page_lem r.1 p 1 v' (omega arith) (omega (arith, is_free→lt s p f))
        λ q lo hi. ground (arith, out q) in
    rw a (λ q. ground (arith, undone.0 q, out q, f), omega (arith, undone.1))

pub TookRun-undone :
    (s : Pmm) (n : ℕ) (r : ℕ × Pmm)
    → IsValid s
    → IsValid r.1
    → 0 < n
    → r.1.bitmap_length ≡ s.bitmap_length
    → TookRun s n r
    → SamePages s (pmm_free_page r.1 r.0 n)
TookRun-undone s n r v v' pos len (p, a, run, low, out, cnt) =
    let fits : p + n ≤ capacity s =
      omega (arith, is_free→lt s (p + n - 1) (run (p + n - 1) (omega arith) (omega arith))) in
    let undone = pmm_free_page_lem r.1 p n v' pos (omega arith) λ q lo hi. ground (arith, out q) in
    rw a (λ q. ground (arith, undone.0 q, out q, run q), omega (arith, undone.1))

-- From a valid state, a page that `pmm_alloc_page` hands out and that is given back to
-- `pmm_free_page` leaves the free pages and their number as they were.
pmm_free_page-pmm_alloc_page :
    {s : Pmm}
    → IsValid s
    → (pmm_alloc_page s).0 ≢ 0
    → SamePages s (pmm_free_page (pmm_alloc_page s).1 (pmm_alloc_page s).0 1)
pmm_free_page-pmm_alloc_page {s} v got = elim (pmm_alloc_page_lem v) [
  | inl refused ↦ absurd (got refused.0)
  | inr took ↦
      Took-undone s (pmm_alloc_page s) v (pmm_alloc_page-IsValid v) (bitmap_length-pmm_alloc_page s)
        took
]

-- From a valid state, a run of pages that `pmm_up_alloc_page` hands out and that is given back to
-- `pmm_free_page` leaves the free pages and their number as they were.
pub pmm_free_page-pmm_up_alloc_page :
    {s : Pmm} (n : ℕ)
    → IsValid s
    → 0 < n
    → (pmm_up_alloc_page s n).0 ≢ 0
    → SamePages s (pmm_free_page (pmm_up_alloc_page s n).1 (pmm_up_alloc_page s n).0 n)
pmm_free_page-pmm_up_alloc_page {s} n v pos got = elim (pmm_up_alloc_page_lem s n v pos) [
  | inl refused ↦ absurd (got (ap (λ (r : ℕ × Pmm). r.0) refused.0))
  | inr took ↦
      TookRun-undone s n (pmm_up_alloc_page s n) v (pmm_up_alloc_page-IsValid s n v pos) pos
        (bitmap_length-pmm_up_alloc_page s n) took
]

-- `pmm_free_page` keeps the bitmap's bytes and its size.
pub pmm_free_page_bitmap :
    (s : Pmm) (attr n : ℕ)
    → IsBytes s.bitmap
    → IsBytes (pmm_free_page s attr n).bitmap
      × ((pmm_free_page s attr n).bitmap_length ≡ s.bitmap_length)
unfolding pmm_free_page
pmm_free_page_bitmap s attr n bytes = (
  mark_run-IsBytes s 0 (attr / page_size) 0 n bytes,
  (mark_run_fields s 0 (attr / page_size) 0 n).0,
)
