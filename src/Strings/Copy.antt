-- ===== src/Strings/Copy.antt =====
-- The loops of `strlen` and of `strcpy` over a string, lib/string.h.
use bitch.Base.{
  ℕ, zero, suc, ◌+◌, ◌<◌, ◌≤◌, ◌≡◌, ◌≢◌, ◌⊎◌, refl, sym, ◌∙◌, ap, inl, inr, arith, true, false,
  some, ltb, ◌==◌, Bool-cases, ==→eq, ltb→lt, ltb→le, update, update-here, update-other,
}
use bitch.Strings.{strlen, strcpy}

-- `src` is a string of `n` characters.
abbrev pub IsString : (src : ℕ → ℕ) (n : ℕ) → Type 0
IsString src n = ((j : ℕ) → j < n → src j ≢ 0) × (src n ≡ 0)

-- The end of the string is the first zero.
at_end : (src : ℕ → ℕ) (n i : ℕ) → IsString src n → i ≤ n → (src i == 0) ≡ true → i ≡ n
at_end src n i string low at = elim (Bool-cases (ltb i n)) [
  | inl e ↦ absurd (string.0 i (ltb→lt i n e) (==→eq (src i) 0 at))
  | inr e ↦ omega (arith, low, ltb→le i n e)
]

before_end : (src : ℕ → ℕ) (n i : ℕ) → IsString src n → i ≤ n → (src i == 0) ≡ false → i + 1 ≤ n
before_end src n i string low at = elim (Bool-cases (ltb i n)) [
  | inl e ↦ omega (arith, ltb→lt i n e)
  | inr e ↦
      (let same : i ≡ n = omega (arith, low, ltb→le i n e) in
        let zero_at : src i ≡ 0 = ap src same ∙ string.1 in ground (arith, at, zero_at))
]

pub strlen_lem :
    (src : ℕ → ℕ) (n fuel i : ℕ)
    → IsString src n
    → i ≤ n
    → n < fuel + i
    → strlen fuel src i ≡ some n
unfolding strlen
strlen_lem src n zero i string low enough = absurd (omega (arith, low, enough))
strlen_lem src n (suc fuel) i string low enough = elim (Bool-cases (src i == 0)) [
  | inl e ↦ rw e (ap some (at_end src n i string low e))
  | inr e ↦ rw e (
      strlen_lem src n fuel (i + 1) string (before_end src n i string low e)
        (omega (arith, enough)))
]

not_in : {i j n : ℕ} → (j < i) ⊎ (n < j) → i ≤ n → j ≢ i
not_in (inl low) small same = omega (arith, low, same)
not_in (inr high) small same = omega (arith, high, small, same)

wider : {i j n : ℕ} → (j < i) ⊎ (n < j) → (j < i + 1) ⊎ (n < j)
wider (inl low) = inl (omega (arith, low))
wider (inr high) = inr high

after_index : {i j : ℕ} → i ≤ j → (j == i) ≡ false → i + 1 ≤ j
after_index from other = ground (arith, from, other)

-- A copy of the `n + 1` bytes from index `i` on.
pub strcpy_lem :
    (dest src : ℕ → ℕ) (n fuel i : ℕ)
    → IsString src n
    → i ≤ n
    → n < fuel + i
    → (r : ℕ → ℕ) × (strcpy fuel dest src i ≡ some r)
      × ((j : ℕ) → i ≤ j → j ≤ n → r j ≡ src j)
      × ((j : ℕ) → (j < i) ⊎ (n < j) → r j ≡ dest j)
unfolding strcpy
strcpy_lem dest src n zero i string low enough = absurd (omega (arith, low, enough))
strcpy_lem dest src n (suc fuel) i string low enough = elim (Bool-cases (src i == 0)) [
  | inl e ↦
      (let end : i ≡ n = at_end src n i string low e in
        (
          update dest i 0,
          rw e refl,
          λ j from to.
              (let same : j ≡ i = omega (arith, from, to, end) in
                rw same (update-here dest i 0 ∙ sym (==→eq (src i) 0 e))),
          λ j out. update-other dest i 0 j (λ same. not_in out low same),
        ))
  | inr e ↦
      (let (r, returns, copied, kept) =
          strcpy_lem (update dest i (src i)) src n fuel (i + 1) string
            (before_end src n i string low e) (omega (arith, enough)) in
        (
          r,
          rw e returns,
          λ j from to. elim (Bool-cases (j == i)) [
            | inl f ↦ rw (==→eq j i f) (kept i (inl (omega arith)) ∙ update-here dest i (src i))
            | inr f ↦ copied j (after_index from f) to
          ],
          λ j out. kept j (wider out) ∙ update-other dest i (src i) j (λ same. not_in out low same),
        ))
]
