-- ===== src/Pmm/Bitmap.antt =====
-- The bitmap of kernel/mm/pmm.c as a set of free pages.
use bitch.Base.{
  ℕ, zero, suc, ◌*◌, ◌/◌, ◌%◌, ◌<◌, ◌≡◌, refl, Bool, true, ◌&&◌, arith, ltb, ◌==◌, if◌then◌else◌,
  update, checked, law_of-checked,
}
use bitch.Pmm.{Pmm, masked, read_bit, set_bit_mask, is_free}

-- Every byte, with every pair of bits.
byte_law : ℕ → ℕ → ℕ → Bool
unfolding masked read_bit
byte_law b k j =
    (read_bit (masked b k 0) j == (if j == k then 0 else read_bit b j))
    && ((read_bit (masked b k 1) j == (if j == k then 1 else read_bit b j))
        && (ltb (masked b k 0) 256 && ltb (masked b k 1) 256))

byte_table : checked (λ b. checked (λ k. checked (byte_law b k) 8) 8) 256 ≡ true
unfolding checked byte_law
byte_table = refl

byte_law_lem : (b k j : ℕ) → b < 256 → k < 8 → j < 8 → byte_law b k j ≡ true
byte_law_lem b k j hb hk hj =
    law_of-checked (byte_law b k)
      (law_of-checked (λ k. checked (byte_law b k) 8)
        (law_of-checked (λ b. checked (λ k. checked (byte_law b k) 8) 8) byte_table hb) hk)
      hj

-- What a byte holds once one of its bits has been written.
masked-bits :
    (b k j mask : ℕ)
    → b < 256
    → k < 8
    → j < 8
    → ((read_bit (masked b k mask) j == 0) ≡ (if j == k then mask == 0 else (read_bit b j == 0)))
      × (masked b k mask < 256)
unfolding masked byte_law
masked-bits b k j zero hb hk hj = ground (arith, byte_law_lem b k j hb hk hj)
masked-bits b k j (suc m) hb hk hj = ground (arith, byte_law_lem b k j hb hk hj)

-- The bitmap's bytes are bytes.
abbrev pub IsBytes : (ℕ → ℕ) → Type 0
IsBytes f = (i : ℕ) → f i < 256

pub set_bit_mask-IsBytes :
    (s : Pmm) (p mask : ℕ) → IsBytes s.bitmap → IsBytes (set_bit_mask s p mask).bitmap
unfolding set_bit_mask update
set_bit_mask-IsBytes s p mask h i =
    ground (arith, h i, masked-bits (s.bitmap (p / 8)) (p % 8) 0 mask (h (p / 8)))

-- Writing one bit changes that page alone, and no page out of range.
pub is_free-set_bit_mask :
    (s : Pmm) (p mask q : ℕ)
    → IsBytes s.bitmap
    → is_free (set_bit_mask s p mask) q
      ≡ (if (q == p) && ltb p (s.bitmap_length * 8) then mask == 0 else is_free s q)
unfolding is_free set_bit_mask update
is_free-set_bit_mask s p mask q h =
    ground (arith, masked-bits (s.bitmap (p / 8)) (p % 8) (q % 8) mask (h (p / 8)))
