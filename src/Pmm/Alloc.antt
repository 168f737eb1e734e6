-- ===== src/Pmm/Alloc.antt =====
-- `pmm_alloc_page` of kernel/mm/pmm.c.
use bitch.Base.{
  ℕ, zero, suc, ◌+◌, ◌*◌, ◌^◌, ◌≤◌, ◌<◌, ◌≡◌, refl, sym, ap, ◌∙◌, ◌⊎◌, inl, inr, true, false, arith,
  ltb, Bool-cases, ltb→lt, ltb→le, sub32,
}
use bitch.Pmm.{Pmm, page_size, set_bit_mask, is_free, alloc_loop, pmm_alloc_page}
use bitch.Pmm.Bitmap.{is_free-set_bit_mask, set_bit_mask-IsBytes}
use bitch.Pmm.Count.{count, Without, count-Without, count-le-one, count_ext, count-le}
use bitch.Pmm.Inv.{
  IsValid, capacity, free_pages, is_free→lt, is_free_same, bitmap_length-set_bit_mask,
  head_pos-set_bit_mask,
}

-- The state after page `p` has been taken.
abbrev taken : Pmm → ℕ → ℕ → Pmm
taken s p t = record (set_bit_mask s p 1) {
  tail_pos = t;
  free_page_count = sub32 s.free_page_count 1;
}

taken-Without :
    (s : Pmm) (p t : ℕ)
    → IsValid s
    → is_free s p ≡ true
    → Without (is_free s) (is_free (taken s p t)) p
taken-Without s p t v h q = ground (
  arith,
  is_free_same (set_bit_mask s p 1) (taken s p t) q refl refl,
  is_free-set_bit_mask s p 1 q v.bytes,
  is_free→lt s p,
)

taken-count :
    (s : Pmm) (p t : ℕ)
    → IsValid s
    → is_free s p ≡ true
    → ((taken s p t).free_page_count + 1 ≡ s.free_page_count)
      × ((taken s p t).free_page_count ≡ free_pages (taken s p t))
taken-count s p t v h = omega (
  arith,
  count-Without (is_free s) (is_free (taken s p t)) p (capacity s) (taken-Without s p t v h) h
      (is_free→lt s p h),
  count-le (is_free s) (capacity s),
  ap (λ n. count (is_free (taken s p t)) (n * 8)) (bitmap_length-set_bit_mask s p 1),
)

taken-IsValid :
    (s : Pmm) (p t : ℕ)
    → IsValid s
    → is_free s p ≡ true
    → p ≡ suc t
    → ((q : ℕ) → is_free s q ≡ true → q ≤ p)
    → s.head_pos ≤ t
    → IsValid (taken s p t)
taken-IsValid s p t v h e top b = record {
  bytes = set_bit_mask-IsBytes s p 1 v.bytes;
  small = omega (arith, v.small, bitmap_length-set_bit_mask s p 1);
  low = λ q f. ground (arith, taken-Without s p t v h q, v.low q, head_pos-set_bit_mask s p 1);
  high = λ q f. ground (arith, taken-Without s p t v h q, top q);
  counted = (taken-count s p t v h).1;
  head_word = omega (arith, v.head_word, head_pos-set_bit_mask s p 1);
  tail_word = omega (arith, is_free→lt s p h, v.small);
}

-- Nothing is handed out, nothing changes, and at most one page was free.
abbrev pub Refused : Pmm → ℕ × Pmm → Type 0
Refused s r =
    (r.0 ≡ 0)
    × ((q : ℕ) → is_free r.1 q ≡ is_free s q)
    × (r.1.free_page_count ≡ s.free_page_count)
    × (s.free_page_count ≤ 1)

-- The highest free page is handed out, and no other page changes.
abbrev pub Took : Pmm → ℕ × Pmm → Type 0
Took s r =
    (p : ℕ) × (r.0 ≡ p * page_size)
    × (0 < p)
    × (is_free s p ≡ true)
    × ((q : ℕ) → is_free s q ≡ true → q ≤ p)
    × Without (is_free s) (is_free r.1) p
    × (r.1.free_page_count + 1 ≡ s.free_page_count)

-- The loop has stopped at `t`, with every free page between the head mark and `t`.
stopped :
    (s : Pmm) (t : ℕ)
    → IsValid s
    → ((q : ℕ) → is_free s q ≡ true → q ≤ t)
    → t < 2 ^ 32
    → t ≤ s.head_pos
    → (Refused s (0, record s { tail_pos = t }) ⊎ Took s (0, record s { tail_pos = t }))
      × IsValid (record s { tail_pos = t })
stopped s t v top small b = (
  inl (
    refl,
    λ q. is_free_same s (record s { tail_pos = t }) q refl refl,
    refl,
    omega (
      arith,
      v.counted,
      count-le-one (is_free s) t (capacity s) (λ q f. omega (arith, top q f, v.low q f)),
    ),
  ),
  record {
    bytes = v.bytes;
    small = v.small;
    low = λ q f. v.low q (sym (is_free_same s (record s { tail_pos = t }) q refl refl) ∙ f);
    high = λ q f. top q (sym (is_free_same s (record s { tail_pos = t }) q refl refl) ∙ f);
    counted =
        v.counted
        ∙ sym (
            count_ext (is_free s) (is_free (record s { tail_pos = t })) (capacity s)
              λ q. is_free_same s (record s { tail_pos = t }) q refl refl);
    head_word = v.head_word;
    tail_word = small;
  },
)

below_used :
    (s : Pmm) (t q : ℕ) → is_free s (suc t) ≡ false → is_free s q ≡ true → q ≤ suc t → q ≤ t
below_used s t q u f h = ground arith

alloc_loop_lem :
    (s : Pmm) (t : ℕ)
    → IsValid s
    → ((q : ℕ) → is_free s q ≡ true → q ≤ t)
    → t < 2 ^ 32
    → (Refused s (alloc_loop s t) ⊎ Took s (alloc_loop s t)) × IsValid (alloc_loop s t).1
unfolding alloc_loop
alloc_loop_lem s zero v top small = stopped s zero v top small (omega arith)
alloc_loop_lem s (suc t) v top small = elim (Bool-cases (ltb s.head_pos (suc t))) [
  | inr out ↦ rw out (stopped s (suc t) v top small (ltb→le s.head_pos (suc t) out))
  | inl more ↦ rw more (elim (Bool-cases (is_free s (suc t))) [
    | inl f ↦ rw f (
      inr (
        suc t,
        omega (arith, is_free→lt s (suc t) f, v.small),
        omega arith,
        f,
        top,
        taken-Without s (suc t) t v f,
        (taken-count s (suc t) t v f).0,
      ),
      taken-IsValid s (suc t) t v f refl top (omega (arith, ltb→lt s.head_pos (suc t) more)),
    )
    | inr u ↦ rw u (alloc_loop_lem s t v (λ q f. below_used s t q u f (top q f)) (omega arith))
  ])
]

-- From a valid state `pmm_alloc_page` hands out the highest free page and changes no other, or
-- returns NULL, changes no page, and at most one page was free.
pub pmm_alloc_page_lem :
    {s : Pmm} → IsValid s → Refused s (pmm_alloc_page s) ⊎ Took s (pmm_alloc_page s)
unfolding pmm_alloc_page
pmm_alloc_page_lem {s} v = (alloc_loop_lem s s.tail_pos v v.high v.tail_word).0

-- `pmm_alloc_page` keeps the invariant.
pub pmm_alloc_page-IsValid : {s : Pmm} → IsValid s → IsValid (pmm_alloc_page s).1
unfolding pmm_alloc_page
pmm_alloc_page-IsValid {s} v = (alloc_loop_lem s s.tail_pos v v.high v.tail_word).1

bitmap_length-alloc_loop : (s : Pmm) (t : ℕ) → (alloc_loop s t).1.bitmap_length ≡ s.bitmap_length
unfolding alloc_loop
bitmap_length-alloc_loop s zero = refl
bitmap_length-alloc_loop s (suc t) =
    ground (arith, bitmap_length-set_bit_mask s (suc t) 1, bitmap_length-alloc_loop s t)

pub bitmap_length-pmm_alloc_page : (s : Pmm) → (pmm_alloc_page s).1.bitmap_length ≡ s.bitmap_length
unfolding pmm_alloc_page
bitmap_length-pmm_alloc_page s = bitmap_length-alloc_loop s s.tail_pos
