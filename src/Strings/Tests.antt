-- ===== src/Strings/Tests.antt =====
-- The theorem on `memcmp` at two names that differ.
use bitch.Base.{ℕ, ◌≡◌, ◌↔◌, refl, arith, ltb, if◌then◌else◌}
use bitch.Strings.{memcmp}
use bitch.Strings.Compare.{SameByte, memcmp_lem}

-- "ABBB" and "ACCC"
abbrev left_name : ℕ → ℕ
left_name j = if ltb j 1 then 0x41 else 0x42

abbrev right_name : ℕ → ℕ
right_name j = if ltb j 1 then 0x41 else 0x43

equal_names : memcmp left_name right_name 4 ≡ 0
unfolding memcmp
equal_names = refl

memcmp_lem_example : (memcmp left_name right_name 4 ≡ 0) ↔ SameByte left_name right_name 0 4
memcmp_lem_example =
    memcmp_lem left_name right_name (λ j. (ground arith, ground arith)) 4 (omega arith)
