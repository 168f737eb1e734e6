-- ===== src/Strings.antt =====
-- The memory and string routines of lib/string.h. A buffer or a string is a function from the index of
-- its bytes; `char` is signed, but the routines only test for 0 or compare for equality.
pub mod Compare
pub mod Copy
mod Tests
use bitch.Base.{
  ℕ, zero, suc, ◌+◌, ◌-◌, ◌*◌, ◌/◌, ◌%◌, ◌^◌, Bool, true, false, Option, none, some, ◌==◌, ltb, not,
  ◌||◌, if◌then◌else◌, sub32, update,
}

-- Copying `left` bytes from index `i` on.
unfoldable pub copy_bytes : (ℕ → ℕ) → (ℕ → ℕ) → (i left : ℕ) → ℕ → ℕ
unfolding update
copy_bytes dest src i zero = dest
copy_bytes dest src i (suc left) = copy_bytes (update dest i (src i)) src (i + 1) left

unfoldable pub memcpy : (dest src : ℕ → ℕ) → (len : ℕ) → ℕ → ℕ
unfolding copy_bytes
memcpy dest src len = copy_bytes dest src 0 len

-- The loop of `memcmp` at `i`; `ret` is an `int`, as a bit pattern.
unfoldable pub compare_bytes : (dest src : ℕ → ℕ) → (ret i left : ℕ) → ℕ
compare_bytes dest src ret i zero = ret
compare_bytes dest src ret i (suc left) =
    let next : ℕ = sub32 (dest i) (src i) in
    if next == 0 then next else compare_bytes dest src next (i + 1) left

unfoldable pub memcmp : (dest src : ℕ → ℕ) → (len : ℕ) → ℕ
unfolding compare_bytes
memcmp dest src len = compare_bytes dest src 0 0 len

unfoldable pub set_bytes : (ℕ → ℕ) → (val i left : ℕ) → ℕ → ℕ
unfolding update
set_bytes dest val i zero = dest
set_bytes dest val i (suc left) = set_bytes (update dest i val) val (i + 1) left

unfoldable pub memset : (dest : ℕ → ℕ) → (val len : ℕ) → ℕ → ℕ
unfolding set_bytes
memset dest val len = set_bytes dest (val % 0x100) 0 len

-- The loop of `strcmp`, on fuel. The result is -1, 0 or 1, as a bit pattern.
unfoldable pub strcmp : (fuel : ℕ) → (dest src : ℕ → ℕ) → (i : ℕ) → Option ℕ
strcmp zero dest src i = none
strcmp (suc fuel) dest src i =
    let rest = strcmp fuel dest src (i + 1) in
    if src i == dest i
    then if dest i == 0 then some 0 else rest
    else some (if ltb (src i) (dest i) then 2 ^ 32 - 1 else 1)

-- `strcpy` from index `i` on, on fuel.
unfoldable pub strcpy : (fuel : ℕ) → (dest src : ℕ → ℕ) → (i : ℕ) → Option (ℕ → ℕ)
unfolding update
strcpy zero dest src i = none
strcpy (suc fuel) dest src i =
    let rest = strcpy fuel (update dest i (src i)) src (i + 1) in
    if src i == 0 then some (update dest i 0) else rest

-- `strlen` and `strchr` from index `i` on, on fuel; `strchr` returns an index, and `none` for NULL.
unfoldable pub strlen : (fuel : ℕ) → (src : ℕ → ℕ) → (i : ℕ) → Option ℕ
strlen zero src i = none
strlen (suc fuel) src i = let rest = strlen fuel src (i + 1) in if src i == 0 then some i else rest

unfoldable pub strchr : (fuel : ℕ) → (s : ℕ → ℕ) → (c i : ℕ) → Option (Option ℕ)
strchr zero s c i = none
strchr (suc fuel) s c i =
    let rest = strchr fuel s c (i + 1) in
    if (s i == 0) || (s i == c) then some (if s i == c then some i else none) else rest
