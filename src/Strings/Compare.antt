-- ===== src/Strings/Compare.antt =====
-- `memcmp` and `strcmp` of lib/string.h.
use bitch.Base.{
  ℕ, zero, suc, ◌+◌, ◌<◌, ◌≤◌, ◌≡◌, ◌≢◌, ◌↔◌, inl, inr, refl, arith, Bool-cases, ==→eq, eq→==,
  sub32, ◌==◌,
}
use bitch.Strings.{memcmp, compare_bytes}

-- Some byte among those from `i` up to `i + left` is equal in both.
abbrev pub SameByte : (dest src : ℕ → ℕ) → (i left : ℕ) → Type 0
SameByte dest src i left = (j : ℕ) × (i ≤ j) × (j < i + left) × (dest j ≡ src j)

module _ (dest src : ℕ → ℕ) (bytes : (j : ℕ) → (dest j < 0x100) × (src j < 0x100)) where
  found_same :
      (left ret i : ℕ)
      → (left ≡ 0 → ret ≢ 0)
      → compare_bytes dest src ret i left ≡ 0
      → SameByte dest src i left
  unfolding compare_bytes
  found_same zero ret i ne e = absurd (ne refl e)
  found_same (suc left) ret i ne e = elim (Bool-cases (sub32 (dest i) (src i) == 0)) [
    | inl same ↦
        (i, omega arith, omega arith, omega (arith, ==→eq (sub32 (dest i) (src i)) 0 same, bytes i))
    | inr other ↦
        let differs : sub32 (dest i) (src i) ≢ 0 =
          λ z. ground (arith, eq→== (sub32 (dest i) (src i)) 0 z) in
        let (j, lo, hi, eq) =
          found_same left (sub32 (dest i) (src i)) (i + 1) (λ _. differs) (rw other at e) in
        (j, omega arith, omega arith, eq)
  ]

  same_found : (left ret i : ℕ) → SameByte dest src i left → compare_bytes dest src ret i left ≡ 0
  unfolding compare_bytes
  same_found zero ret i (j, lo, hi, eq) = absurd (omega arith)
  same_found (suc left) ret i (j, lo, hi, eq) = elim (Bool-cases (sub32 (dest i) (src i) == 0)) [
    | inl same ↦ rw same (==→eq (sub32 (dest i) (src i)) 0 same)
    | inr other ↦
        let here : i ≢ j = λ e. ground (arith, e, eq, bytes i) in
        rw other (
          same_found left (sub32 (dest i) (src i)) (i + 1)
            (j, omega (arith, here), omega arith, eq))
  ]

  -- `memcmp` of a positive number of bytes returns 0 just when the two buffers have some byte in
  -- common at the same place, and not when they are equal throughout.
  pub memcmp_lem : (len : ℕ) → 0 < len → (memcmp dest src len ≡ 0) ↔ SameByte dest src 0 len
  unfolding memcmp
  memcmp_lem len pos = (found_same len 0 0 (λ z. absurd (omega (arith, z))), same_found len 0 0)
