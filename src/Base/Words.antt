-- ===== src/Base/Words.antt =====
-- The 32-bit words of the kernel (`_size_t` and `_u32_t`), with their wrap-around written out, and
-- arrays as functions from their index.
use Prim.Native.Nat.{ℕ, ◌+◌, ◌-◌, ◌*◌, ◌%◌, ◌^◌}
use mathlib.Core.Path.{◌≡◌, refl}
use mathlib.Core.Logic.{◌≢◌}
use mathlib.Core.Option.{Option, some}
use bitch.Base.Tests.{ltb, ◌==◌, if◌then◌else◌, eq→==, ne→==}

-- `a + b`, `a - b` and `a * b` on `_size_t`.
abbrev pub add32 : ℕ → ℕ → ℕ
add32 a b = (a + b) % 2 ^ 32

abbrev pub sub32 : ℕ → ℕ → ℕ
sub32 a b = (a + 2 ^ 32 - b) % 2 ^ 32

abbrev pub mul32 : ℕ → ℕ → ℕ
mul32 a b = a * b % 2 ^ 32

-- `f[i] = v`
unfoldable pub update {ℓ} : {A : Type ℓ} → (ℕ → A) → ℕ → A → ℕ → A
update f i v j = if j == i then v else f j

-- Reading an array after one element has changed.
pub update-here {ℓ} : {A : Type ℓ} (m : ℕ → A) (i : ℕ) (v : A) → update m i v i ≡ v
unfolding update
update-here m i v = rw (eq→== i i refl) refl

pub update-other {ℓ} :
    {A : Type ℓ} (m : ℕ → A) (i : ℕ) (v : A) (x : ℕ) → x ≢ i → update m i v x ≡ m x
unfolding update
update-other m i v x ne = rw (ne→== x i ne) refl

-- The same on `_u64_t`.
abbrev pub add64 : ℕ → ℕ → ℕ
add64 a b = (a + b) % 2 ^ 64

abbrev pub sub64 : ℕ → ℕ → ℕ
sub64 a b = (a + 2 ^ 64 - b) % 2 ^ 64

abbrev pub mul64 : ℕ → ℕ → ℕ
mul64 a b = a * b % 2 ^ 64

-- The outcome of a request to read `count` bytes of `image` from `offect` on into a buffer: it was
-- served in full, and changed no other byte of the buffer.
abbrev pub Served : (image buf : ℕ → ℕ) → (count offect : ℕ) → Option ℕ × (ℕ → ℕ) → Type 0
Served image buf count offect r =
    (r.0 ≡ some count) × ((q : ℕ) → r.1 q ≡ (if ltb q count then image (offect + q) else buf q))
