-- ===== src/Pmm.antt =====
-- The physical page allocator, kernel/mm/pmm.c: a bitmap of pages with a low and a high mark.
-- Addresses are `void*` of 32 bits, and 0 is `NULL`.
pub mod Alloc
pub mod Free
pub mod Init
pub mod Reach
pub mod Runs
mod Tests
pub mod UpAlloc
pub mod Bitmap
pub mod Count
pub mod Inv
use bitch.Base.{
  ℕ, zero, suc, ◌+◌, ◌-◌, ◌*◌, ◌/◌, ◌%◌, ◌^◌, Bool, true, false, Option, none, some, bit_and,
  bit_or, ltb, ◌==◌, if◌then◌else◌, add32, sub32, mul32, update, ◌||◌, leb,
}

-- The file's static variables. `bitmap` is what `pmm_bitmap` points at, a byte for each index.
pub record Pmm : Type 0 where
  pub bitmap : ℕ → ℕ
  pub bitmap_length : ℕ
  pub free_page_count : ℕ
  pub head_pos : ℕ
  pub tail_pos : ℕ

abbrev pub page_size : ℕ
page_size = 0x1000

-- `b &= ~(0x1 << k)`, on a byte that is promoted to `int` and cut back.
unfoldable pub clear_bit : ℕ → ℕ → ℕ
clear_bit b k = bit_and b (0xffff_ffff - 2 ^ k) % 2 ^ 8

-- `b |= (0x1 << k)`
unfoldable pub raise_bit : ℕ → ℕ → ℕ
raise_bit b k = bit_or b (2 ^ k) % 2 ^ 8

-- `(b >> k) & 0x1`
unfoldable pub read_bit : ℕ → ℕ → ℕ
read_bit b k = bit_and (b / 2 ^ k) 1

-- The byte that `set_bit_mask` stores.
unfoldable pub masked : ℕ → ℕ → ℕ → ℕ
unfolding clear_bit raise_bit
masked b k mask = if mask == 0 then clear_bit b k else raise_bit b k

-- Out of range nothing is written. No caller reads the return code.
unfoldable pub set_bit_mask : Pmm → ℕ → ℕ → Pmm
unfolding masked update
set_bit_mask s index mask = record s {
  bitmap =
      if ltb index (s.bitmap_length * 8)
      then update s.bitmap (index / 8) (masked (s.bitmap (index / 8)) (index % 8) mask)
      else s.bitmap;
}

-- `none` is the -1 of an index out of range.
unfoldable pub get_bit_mask : Pmm → ℕ → Option ℕ
unfolding read_bit
get_bit_mask s index =
    if ltb index (s.bitmap_length * 8)
    then some (read_bit (s.bitmap (index / 8)) (index % 8))
    else none

-- `get_bit_mask(index) == 0`
unfoldable pub is_free : Pmm → ℕ → Bool
unfolding get_bit_mask
is_free s index = elim (get_bit_mask s index) [ none ↦ false | some b ↦ b == 0 ]

unfoldable pub get_pmm_free_count : Pmm → ℕ
get_pmm_free_count s = s.free_page_count

-- The loop of `pmm_alloc_page`, by recursion on `pmm_tail_pos`: at 0 the test `head < tail` fails.
unfoldable pub alloc_loop : Pmm → ℕ → ℕ × Pmm
unfolding is_free set_bit_mask
alloc_loop s zero = (0, record s { tail_pos = 0 })
alloc_loop s (suc t) =
    if ltb s.head_pos (suc t)
    then if is_free s (suc t)
      then (
        mul32 (t + 1) page_size,
        record (set_bit_mask s (suc t) 1) {
          tail_pos = t;
          free_page_count = sub32 s.free_page_count 1;
        },
      )
      else alloc_loop s t
    else (0, record s { tail_pos = suc t })

unfoldable pub pmm_alloc_page : Pmm → ℕ × Pmm
unfolding alloc_loop
pmm_alloc_page s = alloc_loop s s.tail_pos

-- The first inner loop of `pmm_up_alloc_page`, with `left` rounds to go: the final `i`.
unfoldable pub free_run : Pmm → ℕ → ℕ → ℕ → ℕ
unfolding is_free
free_run s p i zero = i
free_run s p i (suc left) = if is_free s (add32 p i) then free_run s p (i + 1) left else i

-- The loops that write one mask to `left` pages, from `p + i` on.
unfoldable pub mark_run : Pmm → ℕ → ℕ → ℕ → ℕ → Pmm
unfolding set_bit_mask
mark_run s mask p i zero = s
mark_run s mask p i (suc left) = mark_run (set_bit_mask s (add32 p i) mask) mask p (i + 1) left

-- What `pmm_up_alloc_page` does once it has found a run at `p`.
unfoldable pub take_run : Pmm → ℕ → ℕ → ℕ × Pmm
unfolding mark_run
take_run s count p = (
  mul32 p page_size,
  record (mark_run s 1 p 0 count) {
    head_pos = if p == s.head_pos then add32 s.head_pos count else s.head_pos;
    free_page_count = sub32 s.free_page_count count;
  },
)

-- The outer loop at `p`, on fuel: each round moves `p` up by at least 1.
unfoldable pub up_alloc_loop : ℕ → Pmm → ℕ → ℕ → ℕ × Pmm
unfolding free_run take_run
up_alloc_loop zero s count p = (0, s)
up_alloc_loop (suc fuel) s count p =
    let i = free_run s p 0 count in
    let rest = up_alloc_loop fuel s count (add32 (add32 p i) 1) in
    if ltb p s.tail_pos then if i == count then take_run s count p else rest else (0, s)

unfoldable pub pmm_up_alloc_page : Pmm → ℕ → ℕ × Pmm
unfolding up_alloc_loop
pmm_up_alloc_page s count = up_alloc_loop (s.tail_pos + 1 - s.head_pos) s count s.head_pos

unfoldable pub pmm_free_page : Pmm → ℕ → ℕ → Pmm
unfolding mark_run
pmm_free_page s attr count =
    let index : ℕ = attr / page_size in
    let last : ℕ = sub32 (add32 index count) 1 in
    record (mark_run s 0 index 0 count) {
      head_pos = if ltb index s.head_pos then index else s.head_pos;
      tail_pos = if ltb s.tail_pos last then last else s.tail_pos;
      free_page_count = add32 s.free_page_count count;
    }

-- The loop of `pmm_init` at `i`, with `left` rounds to go.
unfoldable pub init_loop : Pmm → ℕ → ℕ → ℕ → ℕ → Pmm
init_loop s base_page page_count i zero = s
init_loop s base_page page_count i (suc left) =
    let outside : Bool = ltb i base_page || leb page_count i in
    init_loop
      (record (set_bit_mask s i (if outside then 1 else 0)) {
        free_page_count = if outside then s.free_page_count else add32 s.free_page_count 1;
      })
      base_page page_count (i + 1) left

-- `memory` is what lies at `_mem_base_addr`, `page_count` is `mem_page_count`; the second result is
-- the new `_mem_base_addr`.
unfoldable pub pmm_init : (memory : ℕ → ℕ) → (mem_base_addr page_count : ℕ) → Pmm × ℕ
unfolding init_loop set_bit_mask
pmm_init memory mem_base_addr page_count =
    let bitmap_length : ℕ = add32 page_count 7 / 8 in
    let base_addr : ℕ = add32 mem_base_addr bitmap_length in
    let base_page : ℕ = sub32 (add32 base_addr page_size) 1 / page_size in
    let blank : Pmm = record {
      bitmap = memory;
      bitmap_length = bitmap_length;
      free_page_count = 0;
      head_pos = base_page;
      tail_pos = sub32 page_count 1;
    } in
    (init_loop blank base_page page_count 0 (bitmap_length * 8), base_addr)
