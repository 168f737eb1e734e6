-- ===== src/Pmm/Inv.antt =====
-- The invariant of the page allocator: its marks enclose the free pages, and its counter counts them.
use bitch.Base.{ℕ, ◌*◌, ◌^◌, ◌≤◌, ◌<◌, ◌≡◌, refl, true, arith}
use bitch.Pmm.{Pmm, set_bit_mask, is_free}
use bitch.Pmm.Bitmap.{IsBytes}
use bitch.Pmm.Count.{count}

-- The number of pages that the bitmap has a bit for.
abbrev pub capacity : Pmm → ℕ
capacity s = s.bitmap_length * 8

abbrev pub free_pages : Pmm → ℕ
free_pages s = count (is_free s) (capacity s)

-- `small`: 32-bit addresses leave room for 2 ^ 20 pages.
pub record IsValid (s : Pmm) : Type 0 where
  pub bytes : IsBytes s.bitmap
  pub small : capacity s ≤ 2 ^ 20
  pub low : (q : ℕ) → is_free s q ≡ true → s.head_pos ≤ q
  pub high : (q : ℕ) → is_free s q ≡ true → q ≤ s.tail_pos
  pub counted : s.free_page_count ≡ free_pages s
  pub head_word : s.head_pos < 2 ^ 32
  pub tail_word : s.tail_pos < 2 ^ 32

-- A free page has a bit.
pub is_free→lt : (s : Pmm) (q : ℕ) → is_free s q ≡ true → q < capacity s
unfolding is_free
is_free→lt s q h = ground arith

-- The marks and the counter have no part in what is free.
pub is_free_same :
    (s t : Pmm) (q : ℕ)
    → t.bitmap ≡ s.bitmap
    → t.bitmap_length ≡ s.bitmap_length
    → is_free t q ≡ is_free s q
unfolding is_free
is_free_same s t q e f = rw (e, f)

pub bitmap_length-set_bit_mask :
    (s : Pmm) (p mask : ℕ) → (set_bit_mask s p mask).bitmap_length ≡ s.bitmap_length
unfolding set_bit_mask
bitmap_length-set_bit_mask s p mask = refl

pub head_pos-set_bit_mask : (s : Pmm) (p mask : ℕ) → (set_bit_mask s p mask).head_pos ≡ s.head_pos
unfolding set_bit_mask
head_pos-set_bit_mask s p mask = refl

pub tail_pos-set_bit_mask : (s : Pmm) (p mask : ℕ) → (set_bit_mask s p mask).tail_pos ≡ s.tail_pos
unfolding set_bit_mask
tail_pos-set_bit_mask s p mask = refl
