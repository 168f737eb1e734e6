-- ===== src/Pmm/Count.antt =====
-- Counting the free pages of a bitmap.
use Prim.Native.Nat.{min}
use bitch.Base.{
  ℕ, zero, suc, ◌+◌, ◌≤◌, ◌<◌, ◌≡◌, refl, Bool, true, false, ◌&&◌, arith, ltb, leb, ◌==◌,
  if◌then◌else◌,
}

-- How many of the pages below `n` are in the set `f`.
unfoldable pub count : (ℕ → Bool) → ℕ → ℕ
count f zero = 0
count f (suc n) = (if f n then 1 else 0) + count f n

pub count_ext : (f g : ℕ → Bool) (n : ℕ) → ((q : ℕ) → g q ≡ f q) → count g n ≡ count f n
unfolding count
count_ext f g zero h = refl
count_ext f g (suc n) h = ground (arith, h n, count_ext f g n h)

-- `g` is `f` less the page `p`.
abbrev pub Without : (f g : ℕ → Bool) → ℕ → Type 0
Without f g p = (q : ℕ) → g q ≡ (if q == p then false else f q)

count_above : (f g : ℕ → Bool) (p n : ℕ) → Without f g p → n ≤ p → count g n ≡ count f n
unfolding count
count_above f g p zero h b = refl
count_above f g p (suc n) h b = ground (arith, h n, count_above f g p n h)

pub count-Without :
    (f g : ℕ → Bool) (p n : ℕ) → Without f g p → f p ≡ true → p < n → count f n ≡ suc (count g n)
unfolding count
count-Without f g p zero h e b = absurd (omega arith)
count-Without f g p (suc n) h e b =
    ground (arith, h n, count_above f g p n h, count-Without f g p n h e)

count_below : (f : ℕ → Bool) (h n : ℕ) → ((q : ℕ) → f q ≡ true → q ≡ h) → n ≤ h → count f n ≡ 0
unfolding count
count_below f h zero only b = refl
count_below f h (suc n) only b = ground (arith, only n, count_below f h n only)

-- A set with one possible member has at most one.
pub count-le-one : (f : ℕ → Bool) (h n : ℕ) → ((q : ℕ) → f q ≡ true → q ≡ h) → count f n ≤ 1
unfolding count
count-le-one f h zero only = omega arith
count-le-one f h (suc n) only =
    ground (arith, only n, count_below f h n only, count-le-one f h n only)

pub count-le : (f : ℕ → Bool) (n : ℕ) → count f n ≤ n
unfolding count
count-le f zero = omega arith
count-le f (suc n) = ground (arith, count-le f n)

-- Taking the run of `k` pages from `p` on out of `f`, all members, takes `k` from the count.
pub count_run :
    (f g : ℕ → Bool) (p k n : ℕ)
    → ((q : ℕ) → p ≤ q → q < p + k → f q ≡ true)
    → ((q : ℕ) → g q ≡ (if leb p q && ltb q (p + k) then false else f q))
    → count f n + min n p ≡ count g n + min n (p + k)
unfolding count
count_run f g p k zero all h = omega arith
count_run f g p k (suc n) all h = ground (arith, h n, all n, count_run f g p k n all h)
