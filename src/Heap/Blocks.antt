-- ===== src/Heap/Blocks.antt =====
-- The blocks of the heap and the pages that they share. A block takes the place behind another one only on its
-- last page.
use bitch.Base.{
  ℕ, ◌+◌, ◌-◌, ◌*◌, ◌/◌, ◌<◌, ◌≤◌, ◌≡◌, ◌≢◌, ◌⊎◌, inl, inr, refl, arith, List, [], ◌∷◌, ◌++◌,
}

pub record Block : Type 0 where
  pub at : ℕ
  pub len : ℕ

-- The first and the last page of a block.
abbrev pub bottom : Block → ℕ
bottom x = x.at / 0x1000

abbrev pub top : Block → ℕ
top x = (x.at + x.len - 1) / 0x1000

-- A block has room for its header, is not at NULL and ends before the last page of the address space. It begins with a page, or lies on one
-- page only.
abbrev pub IsBlock : Block → Type 0
IsBlock x =
    (0 < x.at)
    × (12 ≤ x.len)
    × (x.at + x.len ≤ 0xffff_f000)
    × ((x.at ≡ bottom x * 0x1000) ⊎ (bottom x ≡ top x))

-- Two blocks share no page; `y` lies behind `x` on the last page of `x`, and on no other page.
abbrev pub Apart : Block → Block → Type 0
Apart x y = (top x < bottom y) ⊎ (top y < bottom x)

abbrev pub Stacked : Block → Block → Type 0
Stacked x y = (top x ≡ bottom y) × (bottom y ≡ top y) × (x.at + x.len ≤ y.at)

unfoldable pub AllApart : Block → List Block → Type 0
AllApart y [] = 0 ≤ 0
AllApart y (x ∷ xs) = Apart x y × AllApart y xs

-- `y` shares its page with the first of the older blocks `xs`, and is apart from all others.
unfoldable pub OnTop : Block → List Block → Type 0
OnTop y [] = 0 ≤ 0
OnTop y (x ∷ xs) = (Stacked x y × OnTop y xs) ⊎ AllApart y (x ∷ xs)

-- The blocks of a heap, the newest first.
unfoldable pub IsStack : List Block → Type 0
IsStack [] = 0 ≤ 0
IsStack (y ∷ xs) = IsBlock y × OnTop y xs × IsStack xs

unfoldable pub Among : Block → List Block → Type 0
Among x [] = 1 ≤ 0
Among x (y ∷ ys) = (x ≡ y) ⊎ Among x ys

pub OnTop-apart : (y : Block) (xs : List Block) → AllApart y xs → OnTop y xs
unfolding OnTop AllApart
OnTop-apart y [] apart = apart
OnTop-apart y (x ∷ xs) apart = inr apart

pub AllApart-one : (y z : Block) (xs : List Block) → AllApart y xs → Among z xs → Apart z y
unfolding AllApart Among
AllApart-one y z [] apart here = absurd (omega (arith, here))
AllApart-one y z (x ∷ xs) apart (inl e) = rw e (apart.0)
AllApart-one y z (x ∷ xs) apart (inr there) = AllApart-one y z xs apart.1 there

pub OnTop-one : (y z : Block) (xs : List Block) → OnTop y xs → Among z xs → Stacked z y ⊎ Apart z y
unfolding OnTop Among
OnTop-one y z [] on here = absurd (omega (arith, here))
OnTop-one y z (x ∷ xs) (inl on) (inl e) = inl (rw e (on.0))
OnTop-one y z (x ∷ xs) (inl on) (inr there) = OnTop-one y z xs on.1 there
OnTop-one y z (x ∷ xs) (inr apart) here = inr (AllApart-one y z (x ∷ xs) apart here)

-- Without a block in the middle, the others are still a stack.
AllApart-without :
    (y m : Block) (above xs : List Block) → AllApart y (above ++ m ∷ xs) → AllApart y (above ++ xs)
unfolding AllApart
AllApart-without y m [] xs apart = apart.1
AllApart-without y m (x ∷ above) xs apart = (apart.0, AllApart-without y m above xs apart.1)

OnTop-without :
    (y m : Block) (above xs : List Block) → OnTop y (above ++ m ∷ xs) → OnTop y (above ++ xs)
unfolding OnTop
OnTop-without y m [] xs (inl on) = on.1
OnTop-without y m [] xs (inr apart) = OnTop-apart y xs (AllApart-without y m [] xs apart)
OnTop-without y m (x ∷ above) xs (inl on) = inl (on.0, OnTop-without y m above xs on.1)
OnTop-without y m (x ∷ above) xs (inr apart) = inr (AllApart-without y m (x ∷ above) xs apart)

pub IsStack-without :
    (m : Block) (above xs : List Block) → IsStack (above ++ m ∷ xs) → IsStack (above ++ xs)
unfolding IsStack
IsStack-without m [] xs stack = stack.2
IsStack-without m (x ∷ above) xs stack =
    (stack.0, OnTop-without x m above xs stack.1, IsStack-without m above xs stack.2)

-- A block that is put behind the newest one, on the rest of its last page.
OnTop-next :
    (new x : Block) (xs : List Block) → IsBlock x → Stacked x new → OnTop x xs → OnTop new xs
unfolding OnTop AllApart
OnTop-next new x [] is stacked on = on
OnTop-next new x (z ∷ zs) is stacked (inl on) =
    inl ((omega arith, omega arith, omega arith), OnTop-next new x zs is stacked on.1)
OnTop-next new x (z ∷ zs) is stacked (inr apart) = inr (apart_next (z ∷ zs) apart)
  where
    apart_next : (zs : List Block) → AllApart x zs → AllApart new zs
    apart_next [] apart = apart
    apart_next (z ∷ zs) apart = (ground arith, apart_next zs apart.1)

pub IsStack-push :
    (new x : Block) (xs : List Block)
    → IsStack (x ∷ xs)
    → IsBlock new
    → Stacked x new
    → IsStack (new ∷ x ∷ xs)
unfolding IsStack OnTop
IsStack-push new x xs stack is stacked =
    (is, inl (stacked, OnTop-next new x xs stack.0 stacked stack.1), stack)

pub Among-middle : (m : Block) (ys below : List Block) → Among m (ys ++ m ∷ below)
unfolding Among
Among-middle m [] below = inl refl
Among-middle m (y ∷ ys) below = inr (Among-middle m ys below)

-- What has been put on a block's page has been put on that of each block in between.
pub OnTop-between :
    (x z m : Block) (ys below : List Block)
    → OnTop x (ys ++ m ∷ below)
    → Among z ys
    → Stacked m x
    → IsBlock m
    → Stacked z x
unfolding OnTop AllApart Among
OnTop-between x z m [] below on here stacked is = absurd (omega (arith, here))
OnTop-between x z m (y ∷ ys) below (inl on) (inl e) stacked is = rw e (on.0)
OnTop-between x z m (y ∷ ys) below (inl on) (inr there) stacked is =
    OnTop-between x z m ys below on.1 there stacked is
OnTop-between x z m (y ∷ ys) below (inr apart) here stacked is =
    let far : Apart m x = AllApart-one x m (ys ++ m ∷ below) apart.1 (Among-middle m ys below) in
    absurd (ground (arith, far))

pub IsBlock-of : (z : Block) (xs : List Block) → IsStack xs → Among z xs → IsBlock z
unfolding IsStack Among
IsBlock-of z [] stack here = absurd (omega (arith, here))
IsBlock-of z (x ∷ xs) stack (inl e) = rw e (stack.0)
IsBlock-of z (x ∷ xs) stack (inr there) = IsBlock-of z xs stack.2 there

-- The blocks of a stack have different addresses.
pub OnTop-ne :
    (y z : Block) (xs : List Block) → IsBlock y → IsStack xs → OnTop y xs → Among z xs → z.at ≢ y.at
OnTop-ne y z xs is stack on here same =
    let own : IsBlock z = IsBlock-of z xs stack here in
    elim (OnTop-one y z xs on here) [
      | inl stacked ↦ omega (arith, own, stacked, same)
      | inr apart ↦ absurd (ground (arith, own, is, apart, same))
    ]
