-- ===== src/Pmm/Init.antt =====
-- `pmm_init` of kernel/mm/pmm.c.
use bitch.Base.{
  ℕ, zero, suc, ◌+◌, ◌-◌, ◌*◌, ◌/◌, ◌^◌, ◌≤◌, ◌<◌, ◌≡◌, refl, ap, ◌∙◌, Bool, ◌&&◌, ◌||◌, arith, ltb,
  leb, ◌==◌, if◌then◌else◌, add32, sub32,
}
use native.Mathlib.Numerals.{add-one}
use bitch.Pmm.{Pmm, is_free, set_bit_mask, init_loop, pmm_init}
use bitch.Pmm.Bitmap.{IsBytes, is_free-set_bit_mask, set_bit_mask-IsBytes}
use bitch.Pmm.Count.{count, count-le, count_ext}
use bitch.Pmm.Inv.{
  IsValid, capacity, free_pages, is_free→lt, is_free_same, bitmap_length-set_bit_mask,
  head_pos-set_bit_mask, tail_pos-set_bit_mask,
}

-- `q` lies from `base` up to `top`.
abbrev pub in_range : ℕ → ℕ → ℕ → Bool
in_range base top q = leb base q && ltb q top

module _ (base top : ℕ) where
  -- The state after the loop's round at `i`.
  abbrev round : Pmm → ℕ → Pmm
  round s i = record (set_bit_mask s i (if ltb i base || leb top i then 1 else 0)) {
    free_page_count =
        if ltb i base || leb top i then s.free_page_count else add32 s.free_page_count 1;
  }

  is_free-round :
      (s : Pmm) (i q : ℕ)
      → IsBytes s.bitmap
      → i < capacity s
      → is_free (round s i) q ≡ (if q == i then in_range base top i else is_free s q)
  is_free-round s i q h b = ground (
    arith,
    is_free_same (set_bit_mask s i (if ltb i base || leb top i then 1 else 0)) (round s i) q refl
        refl,
    is_free-set_bit_mask s i (if ltb i base || leb top i then 1 else 0) q h,
  )

  -- What the loop leaves, from `i` up to `last`.
  record Done (s : Pmm) (i last : ℕ) (t : Pmm) : Type 0 where
    bytes : IsBytes t.bitmap
    len : t.bitmap_length ≡ s.bitmap_length
    pages :
        (q : ℕ) → is_free t q ≡ (if leb i q && ltb q last then in_range base top q else is_free s q)
    counted : t.free_page_count ≡ count (in_range base top) last
    head : t.head_pos ≡ s.head_pos
    tail : t.tail_pos ≡ s.tail_pos

  round_sum :
      (s : Pmm) (i : ℕ)
      → i < 2 ^ 20
      → s.free_page_count ≡ count (in_range base top) i
      → (round s i).free_page_count ≡ count (in_range base top) (i + 1)
  round_sum s i small c =
      rw add-one (unfold count in ground (arith, count-le (in_range base top) i))

  init_loop-Done :
      (s : Pmm) (i left last : ℕ)
      → IsBytes s.bitmap
      → capacity s ≤ 2 ^ 20
      → i + left ≡ last
      → last ≤ capacity s
      → s.free_page_count ≡ count (in_range base top) i
      → Done s i last (init_loop s base top i left)
  unfolding init_loop
  init_loop-Done s i zero last h small e fits c = record {
    bytes = h;
    len = refl;
    pages = λ q. ground arith;
    counted = c ∙ ap (count (in_range base top)) (omega arith);
    head = refl;
    tail = refl;
  }
  init_loop-Done s i (suc left) last h small e fits c =
      let mask : ℕ = if ltb i base || leb top i then 1 else 0 in
      let len : (set_bit_mask s i mask).bitmap_length ≡ s.bitmap_length =
        bitmap_length-set_bit_mask s i mask in
      let rest =
        init_loop-Done (round s i) (i + 1) left last (set_bit_mask-IsBytes s i mask h) (omega arith)
          (omega arith) (omega arith) (round_sum s i (omega arith) c) in
      record {
        bytes = rest.bytes;
        len = rest.len ∙ len;
        pages = λ q. ground (arith, rest.pages q, is_free-round s i q h);
        counted = rest.counted;
        head = rest.head ∙ head_pos-set_bit_mask s i mask;
        tail = rest.tail ∙ tail_pos-set_bit_mask s i mask;
      }

-- The pages that the kernel may hand out: past the kernel and the bitmap, and in the memory.
abbrev pub base_page : ℕ → ℕ → ℕ
base_page mem_base_addr page_count = (mem_base_addr + (page_count + 7) / 8 + 0xfff) / 0x1000

module _ (memory : ℕ → ℕ) (addr page_count : ℕ) (bytes : IsBytes memory) (low : addr < 2 ^ 31)
    (some_page : 0 < page_count) (small : page_count ≤ 2 ^ 20) where
  abbrev started : Pmm
  started = (pmm_init memory addr page_count).0

  blank : Pmm
  blank = record {
    bitmap = memory;
    bitmap_length = (page_count + 7) / 8;
    free_page_count = 0;
    head_pos = base_page addr page_count;
    tail_pos = page_count - 1;
  }

  started_eq :
      started ≡ init_loop blank (base_page addr page_count) page_count 0 ((page_count + 7) / 8 * 8)
  unfolding pmm_init blank
  started_eq =
      let length_eq : add32 page_count 7 / 8 ≡ (page_count + 7) / 8 = omega arith in
      let base_eq : sub32 (add32 (add32 addr ((page_count + 7) / 8)) 0x1000) 1 / 0x1000
          ≡ base_page addr page_count =
        omega arith in
      let tail_eq : sub32 page_count 1 ≡ page_count - 1 = omega arith in
      rw (length_eq, base_eq, tail_eq) refl

  finished : Done (base_page addr page_count) page_count blank 0 ((page_count + 7) / 8 * 8) started
  unfolding blank count
  finished = rw started_eq (
      init_loop-Done (base_page addr page_count) page_count blank 0 ((page_count + 7) / 8 * 8)
        ((page_count + 7) / 8 * 8) bytes (omega arith) (omega arith) (omega arith) refl)

  -- For a memory of at most 2 ^ 20 pages, with the kernel's data in its first half, the pages
  -- that are free after `pmm_init` are exactly those from the first whole page past the bitmap
  -- up to the memory's end.
  pub pmm_init_lem : (q : ℕ) → is_free started q ≡ in_range (base_page addr page_count) page_count q
  unfolding blank
  pmm_init_lem q = ground (arith, finished.pages q, is_free→lt started q, finished.len)

  counted_started : started.free_page_count ≡ free_pages started
  unfolding blank
  counted_started = omega (
    arith,
    finished.counted,
    count_ext (in_range (base_page addr page_count) page_count) (is_free started)
        ((page_count + 7) / 8 * 8) pmm_init_lem,
    ap (λ n. count (is_free started) (n * 8)) finished.len,
  )

  -- `pmm_init` sets up the invariant.
  pub pmm_init-IsValid : IsValid started
  unfolding blank
  pmm_init-IsValid = record {
    bytes = finished.bytes;
    small = omega (arith, finished.len);
    low = λ q f. ground (arith, pmm_init_lem q, finished.head);
    high = λ q f. ground (arith, pmm_init_lem q, finished.tail);
    counted = counted_started;
    head_word = omega (arith, finished.head);
    tail_word = omega (arith, finished.tail);
  }
