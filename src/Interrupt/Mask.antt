-- ===== src/Interrupt/Mask.antt =====
-- The masks of the interrupt controller: a bit that is 0 lets an interrupt through.
use bitch.Base.{
  ℕ, ◌/◌, ◌%◌, ◌^◌, ◌<◌, ◌≡◌, refl, arith, Bool, true, ltb, ◌&&◌, ◌==◌, if◌then◌else◌, checked,
  law_of-checked,
}
use bitch.Interrupt.{unmask}

abbrev pub mask_bit : (mask i : ℕ) → ℕ
mask_bit mask i = mask / 2 ^ i % 2

clears_bit : (mask n i : ℕ) → Bool
clears_bit mask n i =
    (mask_bit (unmask mask n) i == (if n == i then 0 else mask_bit mask i))
    && ltb (unmask mask n) 0x100

-- Every mask, every bit that is cleared and every bit.
all_clear : checked (λ mask. checked (λ n. checked (clears_bit mask n) 8) 8) 0x100 ≡ true
unfolding checked clears_bit
all_clear = refl

pub unmask_lem :
    {mask n i : ℕ}
    → mask < 0x100
    → n < 8
    → i < 8
    → (mask_bit (unmask mask n) i ≡ (if n == i then 0 else mask_bit mask i))
      × (unmask mask n < 0x100)
unfolding clears_bit
unmask_lem {mask} {n} {i} byte low bit =
    let row =
      law_of-checked (λ mask. checked (λ n. checked (clears_bit mask n) 8) 8) all_clear byte in
    let cell = law_of-checked (λ n. checked (clears_bit mask n) 8) row low in
    let law = law_of-checked (clears_bit mask n) cell bit in ground (arith, law)
