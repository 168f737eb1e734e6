-- ===== src/Heap/Release.antt =====
-- The pages that `kfree` gives back.
use bitch.Base.{
  ℕ, ◌+◌, ◌-◌, ◌<◌, ◌≤◌, ◌≡◌, ◌≢◌, ◌⊎◌, inl, inr, refl, arith, Bool, true, false, List, [], ◌∷◌,
  ◌++◌, ◌==◌, if◌then◌else◌, eq→==,
}
use bitch.Heap.Blocks.{
  Block, bottom, top, IsBlock, Stacked, OnTop, IsStack, Among, AllApart-one, OnTop-one,
  OnTop-between, Among-middle,
}

abbrev pub Covers : Block → ℕ → Type 0
Covers x k = (bottom x ≤ k) × (k ≤ top x)

-- The oldest of the blocks `x` and `xs`.
abbrev pub nearest : Block → List Block → Block
nearest x [] = x
nearest x (y ∷ ys) = nearest y ys

-- Whether a block shares its first page with the next older one, and its last page with the next newer one.
abbrev pub shares_first : Block → List Block → Bool
shares_first m [] = false
shares_first m (l ∷ ls) = top l == bottom m

abbrev pub shares_last : Block → List Block → Bool
shares_last m [] = false
shares_last m (x ∷ xs) = top m == bottom (nearest x xs)

pub IsStack-below : (above below : List Block) → IsStack (above ++ below) → IsStack below
unfolding IsStack
IsStack-below [] below stack = stack
IsStack-below (x ∷ above) below stack = IsStack-below above below stack.2

pub nearest-Among : (x : Block) (xs : List Block) → Among (nearest x xs) (x ∷ xs)
unfolding Among
nearest-Among x [] = inl refl
nearest-Among x (y ∷ ys) = inr (nearest-Among y ys)

pub nearest-OnTop :
    (x m : Block) (xs below : List Block)
    → IsStack (x ∷ xs ++ m ∷ below)
    → IsBlock (nearest x xs) × OnTop (nearest x xs) (m ∷ below)
unfolding IsStack
nearest-OnTop x m [] below stack = (stack.0, stack.1)
nearest-OnTop x m (y ∷ ys) below stack = nearest-OnTop y m ys below stack.2

module _ (m : Block) (is : IsBlock m) (k : ℕ) (own : Covers m k) where
  -- An older block that has a page with this one.
  shares_older :
      (z : Block) (below : List Block)
      → OnTop m below
      → Among z below
      → Covers z k
      → (shares_first m below ≡ true) × (k ≡ bottom m)
  unfolding OnTop Among
  shares_older z [] on here covers = absurd (omega (arith, here))
  shares_older z (l ∷ ls) (inl on) here covers = elim (OnTop-one m z (l ∷ ls) (inl on) here) [
    | inl stacked ↦ (eq→== (top l) (bottom m) (on.0).0, omega (arith, stacked, covers, own))
    | inr apart ↦ absurd (ground (arith, apart, covers, own))
  ]
  shares_older z (l ∷ ls) (inr apart) here covers =
      absurd (ground (arith, AllApart-one m z (l ∷ ls) apart here, covers, own))

  nearest_shares :
      (x : Block) (xs below : List Block)
      → IsStack (x ∷ xs ++ m ∷ below)
      → Stacked m x
      → top m ≡ bottom (nearest x xs)
  unfolding Among IsStack
  nearest_shares x [] below stack stacked = stacked.0
  nearest_shares x (y ∷ ys) below stack stacked =
      let near = nearest-OnTop y m ys below stack.2 in
      let between : Stacked (nearest y ys) x =
        OnTop-between x (nearest y ys) m (y ∷ ys) below stack.1 (nearest-Among y ys) stacked is in
      elim (OnTop-one (nearest y ys) m (m ∷ below) near.1 (inl refl)) [
        | inl on ↦ on.0
        | inr apart ↦ absurd (ground (arith, apart, between, stacked, is, near.0))
      ]

  -- A newer block that has a page with this one.
  shares_newer :
      (z : Block) (above below : List Block)
      → IsStack (above ++ m ∷ below)
      → Among z above
      → Covers z k
      → (shares_last m above ≡ true) × (k ≡ top m)
  unfolding OnTop Among IsStack
  shares_newer z [] below stack here covers = absurd (omega (arith, here))
  shares_newer z (x ∷ xs) below stack (inl e) covers =
      let on : OnTop z (xs ++ m ∷ below) = rw e (stack.1) in
      elim (OnTop-one z m (xs ++ m ∷ below) on (Among-middle m xs below)) [
        | inl stacked ↦ (
          eq→== (top m) (bottom (nearest x xs))
              (nearest_shares x xs below stack (rw (← e) stacked)),
          omega (arith, stacked, covers, own),
        )
        | inr apart ↦ absurd (ground (arith, apart, covers, own))
      ]
  shares_newer z (x ∷ []) below stack (inr there) covers = absurd (omega (arith, there))
  shares_newer z (x ∷ y ∷ ys) below stack (inr there) covers =
      shares_newer z (y ∷ ys) below stack.2 there covers

Among-append :
    (z : Block) (above below : List Block)
    → Among z (above ++ below)
    → Among z above ⊎ Among z below
unfolding Among
Among-append z [] below here = inr here
Among-append z (x ∷ above) below (inl e) = inl (inl e)
Among-append z (x ∷ above) below (inr there) = elim (Among-append z above below there) [
  | inl before ↦ inl (inr before)
  | inr behind ↦ inr behind
]

pub Among-above : (z : Block) (above below : List Block) → Among z above → Among z (above ++ below)
unfolding Among
Among-above z [] below here = absurd (omega (arith, here))
Among-above z (x ∷ above) below (inl e) = inl e
Among-above z (x ∷ above) below (inr there) = inr (Among-above z above below there)

pub Among-below : (z : Block) (above below : List Block) → Among z below → Among z (above ++ below)
unfolding Among
Among-below z [] below here = here
Among-below z (x ∷ above) below here = inr (Among-below z above below here)

-- The pages that no other block has: the first of them, and their number.
abbrev pub first_page : Block → List Block → ℕ
first_page m below = if shares_first m below then bottom m + 1 else bottom m

abbrev pub own_count : Block → (above below : List Block) → ℕ
own_count m above below =
    let all : ℕ = top m + 1 - bottom m in
    let most : ℕ = if shares_first m below then all - 1 else all in
    if shares_last m above then most - 1 else most

abbrev pub Alone : Block → (others : List Block) → ℕ → Type 0
Alone m others k = Covers m k × ((z : Block) → Among z others → Covers z k → 1 ≤ 0)

abbrev pub InOwn : Block → (above below : List Block) → ℕ → Type 0
InOwn m above below k =
    (first_page m below ≤ k) × (k < first_page m below + own_count m above below)

first_covered :
    (m : Block) (below : List Block)
    → IsStack (m ∷ below)
    → shares_first m below ≡ true
    → (z : Block) × Among z below × Covers z (bottom m)
unfolding IsStack Among
first_covered m [] stack shared = cc
first_covered m (l ∷ ls) stack shared =
    let is : IsBlock l = (stack.2).0 in (l, inl refl, ground (arith, shared, is))

last_covered :
    (m : Block) (above below : List Block)
    → IsStack (above ++ m ∷ below)
    → shares_last m above ≡ true
    → (z : Block) × Among z above × Covers z (top m)
last_covered m [] below stack shared = cc
last_covered m (x ∷ xs) below stack shared =
    let is : IsBlock (nearest x xs) = (nearest-OnTop x m xs below stack).0 in
    (nearest x xs, nearest-Among x xs, ground (arith, shared, is))

module _ (m : Block) (above below : List Block) (stack : IsStack (above ++ m ∷ below)) (k : ℕ) where
  suffix : IsStack (m ∷ below)
  suffix = IsStack-below above (m ∷ below) stack

  pub only_own : InOwn m above below k → Alone m (above ++ below) k
  unfolding IsStack
  only_own inside =
      let is : IsBlock m = suffix.0 in
      let own : Covers m k = ground (arith, inside, is) in
      (
        own,
        λ z here covers. elim (Among-append z above below here) [
          | inl before ↦
              let r = shares_newer m is k own z above below stack before covers in
              ground (arith, r, inside)
          | inr behind ↦
              let r = shares_older m is k own z below suffix.1 behind covers in
              ground (arith, r, inside)
        ],
      )

  first_other : Alone m (above ++ below) k → shares_first m below ≡ true → k ≢ bottom m
  first_other alone shared here =
      let (z, among, covers) = first_covered m below suffix shared in
      absurd (
        omega (
          arith,
          alone.1 z (Among-below z above below among)
              (omega (arith, here, covers), omega (arith, here, covers)),
        ))

  last_other : Alone m (above ++ below) k → shares_last m above ≡ true → k ≢ top m
  last_other alone shared here =
      let (z, among, covers) = last_covered m above below stack shared in
      absurd (
        omega (
          arith,
          alone.1 z (Among-above z above below among)
              (omega (arith, here, covers), omega (arith, here, covers)),
        ))

  pub own_only : Alone m (above ++ below) k → InOwn m above below k
  own_only alone = let f = first_other alone in let l = last_other alone in ground (arith, alone.0)
