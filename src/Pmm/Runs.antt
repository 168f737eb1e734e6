-- ===== src/Pmm/Runs.antt =====
-- The runs of pages of kernel/mm/pmm.c: searching one, and writing one.
use bitch.Base.{
  ℕ, zero, suc, ◌+◌, ◌^◌, ◌≤◌, ◌<◌, ◌≡◌, refl, Bool, true, false, ◌&&◌, arith, ltb, leb, ◌==◌,
  if◌then◌else◌, add32,
}
use bitch.Pmm.{Pmm, set_bit_mask, is_free, free_run, mark_run}
use bitch.Pmm.Bitmap.{IsBytes, is_free-set_bit_mask, set_bit_mask-IsBytes}
use bitch.Pmm.Inv.{capacity, bitmap_length-set_bit_mask}

-- `q` lies in the run of `n` pages from `p` on.
abbrev pub in_run : ℕ → ℕ → ℕ → Bool
in_run p n q = leb p q && ltb q (p + n)

pub mark_run-IsBytes :
    (s : Pmm) (mask p i left : ℕ) → IsBytes s.bitmap → IsBytes (mark_run s mask p i left).bitmap
unfolding mark_run
mark_run-IsBytes s mask p i zero h = h
mark_run-IsBytes s mask p i (suc left) h =
    mark_run-IsBytes (set_bit_mask s (add32 p i) mask) mask p (i + 1) left
      (set_bit_mask-IsBytes s (add32 p i) mask h)

-- Writing a run changes nothing but the bitmap.
pub mark_run_fields :
    (s : Pmm) (mask p i left : ℕ)
    → let t = mark_run s mask p i left in
      (t.bitmap_length ≡ s.bitmap_length)
      × (t.head_pos ≡ s.head_pos)
      × (t.tail_pos ≡ s.tail_pos)
      × (t.free_page_count ≡ s.free_page_count)
unfolding mark_run set_bit_mask
mark_run_fields s mask p i zero = (refl, refl, refl, refl)
mark_run_fields s mask p i (suc left) =
    mark_run_fields (set_bit_mask s (add32 p i) mask) mask p (i + 1) left

-- Writing a run that has bits changes those pages and no other.
pub is_free-mark_run :
    (s : Pmm) (mask p i left q : ℕ)
    → IsBytes s.bitmap
    → capacity s ≤ 2 ^ 20
    → p + i + left ≤ capacity s
    → is_free (mark_run s mask p i left) q
      ≡ (if in_run (p + i) left q then mask == 0 else is_free s q)
unfolding mark_run
is_free-mark_run s mask p i zero q h small b = ground arith
is_free-mark_run s mask p i (suc left) q h small b = ground (
  arith,
  is_free-mark_run (set_bit_mask s (add32 p i) mask) mask p (i + 1) left q
      (set_bit_mask-IsBytes s (add32 p i) mask h),
  bitmap_length-set_bit_mask s (add32 p i) mask,
  is_free-set_bit_mask s (add32 p i) mask q h,
)

-- A run that lies past the bitmap's end, or a page out of range, is never found free.
-- What the search knows when it stops after `free_run` pages.
pub free_run_bounds :
    (s : Pmm) (p i left : ℕ) → (i ≤ free_run s p i left) × (free_run s p i left ≤ i + left)
unfolding free_run
free_run_bounds s p i zero = (omega arith, omega arith)
free_run_bounds s p i (suc left) = ground (arith, free_run_bounds s p (i + 1) left)

pub free_run_sound :
    (s : Pmm) (p i left j : ℕ) → i ≤ j → j < free_run s p i left → is_free s (add32 p j) ≡ true
unfolding free_run
free_run_sound s p i zero j h b = absurd (omega arith)
free_run_sound s p i (suc left) j h b = ground (arith, free_run_sound s p (i + 1) left j)

-- A search that stops early has met a page that is not free.
pub free_run_stop :
    (s : Pmm) (p i left : ℕ)
    → free_run s p i left < i + left
    → is_free s (add32 p (free_run s p i left)) ≡ false
unfolding free_run
free_run_stop s p i zero h = absurd (omega arith)
free_run_stop s p i (suc left) h = ground (arith, free_run_stop s p (i + 1) left)
