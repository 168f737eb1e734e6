-- ===== src/Heap/Links.antt =====
-- The headers of the heap, which link its blocks in the order of their allocation.
use bitch.Base.{
  ℕ, ◌≤◌, ◌≡◌, ◌≢◌, inl, inr, refl, sym, ap, ◌∙◌, arith, List, [], ◌∷◌, ◌++◌, update, update-here,
  update-other,
}
use bitch.Heap.{AllocHeader}
use bitch.Heap.Blocks.{Block, IsStack, Among, OnTop-ne}
use bitch.Heap.Release.{nearest, nearest-Among, Among-above, Among-below}

abbrev pub at_of : List Block → ℕ
at_of [] = 0
at_of (x ∷ xs) = x.at

-- The headers of the blocks, the newest first; `next` is what lies behind them.
unfoldable pub Linked : (ℕ → AllocHeader) → (next : ℕ) → List Block → Type 0
Linked h next [] = 0 ≤ 0
Linked h next (x ∷ xs) =
    ((h x.at).next ≡ next)
    × ((h x.at).last ≡ at_of xs)
    × ((h x.at).length ≡ x.len)
    × Linked h x.at xs

pub Linked-same :
    (h g : ℕ → AllocHeader) (next : ℕ) (xs : List Block)
    → Linked h next xs
    → ((z : Block) → Among z xs → g z.at ≡ h z.at)
    → Linked g next xs
unfolding Linked Among
Linked-same h g next [] linked same = linked
Linked-same h g next (x ∷ xs) linked same =
    let e : g x.at ≡ h x.at = same x (inl refl) in
    (
      ap (λ r. r.next) e ∙ linked.0,
      ap (λ r. r.last) e ∙ linked.1,
      ap (λ r. r.length) e ∙ linked.2,
      Linked-same h g x.at xs linked.3 (λ z there. same z (inr there)),
    )

-- The headers when the block `m` is taken out from between `above` and `below`.
abbrev pub drop_next : (ℕ → AllocHeader) → Block → (below : List Block) → ℕ → AllocHeader
drop_next h m [] = h
drop_next h m (l ∷ ls) = update h l.at (record (h l.at) { next = (h m.at).next })

abbrev pub drop_last : (ℕ → AllocHeader) → Block → (above : List Block) → ℕ → AllocHeader
drop_last h m [] = h
drop_last h m (x ∷ xs) =
    update h (nearest x xs).at (record (h (nearest x xs).at) { last = (h m.at).last })

abbrev pub unlinked : (ℕ → AllocHeader) → Block → (above below : List Block) → ℕ → AllocHeader
unlinked h m above below = drop_last (drop_next h m below) m above

drop_next-Linked :
    (h : ℕ → AllocHeader) (next : ℕ) (m : Block) (below : List Block)
    → Linked h next (m ∷ below)
    → IsStack (m ∷ below)
    → Linked (drop_next h m below) next below
unfolding Linked IsStack Among
drop_next-Linked h next m [] linked stack = omega arith
drop_next-Linked h next m (l ∷ ls) linked stack =
    let g : ℕ → AllocHeader = drop_next h m (l ∷ ls) in
    let here : g l.at ≡ record (h l.at) { next = (h m.at).next } =
      update-here h l.at (record (h l.at) { next = (h m.at).next }) in
    let old : Linked h m.at (l ∷ ls) = linked.3 in
    (
      ap (λ r. r.next) here ∙ linked.0,
      ap (λ r. r.last) here ∙ old.1,
      ap (λ r. r.length) here ∙ old.2,
      Linked-same h g l.at ls old.3 (λ z there.
          update-other h l.at (record (h l.at) { next = (h m.at).next }) z.at
            (OnTop-ne l z ls (stack.2).0 (stack.2).2 (stack.2).1 there)),
    )

pub drop_next-same :
    (h : ℕ → AllocHeader) (m : Block) (below : List Block) (a : ℕ)
    → ((z : Block) → Among z below → z.at ≢ a)
    → drop_next h m below a ≡ h a
unfolding Among
drop_next-same h m [] a away = refl
drop_next-same h m (l ∷ ls) a away =
    update-other h l.at (record (h l.at) { next = (h m.at).next }) a
      (λ e. away l (inl refl) (sym e))

-- A block above others is none of them.
pub stack-ne : (x z : Block) (xs : List Block) → IsStack (x ∷ xs) → Among z xs → z.at ≢ x.at
unfolding IsStack
stack-ne x z xs stack here = OnTop-ne x z xs stack.0 stack.2 stack.1 here

pub unlinked-Linked :
    (h : ℕ → AllocHeader) (next : ℕ) (m : Block) (above below : List Block)
    → Linked h next (above ++ m ∷ below)
    → IsStack (above ++ m ∷ below)
    → Linked (unlinked h m above below) next (above ++ below)
unfolding Linked IsStack Among
unlinked-Linked h next m [] below linked stack = drop_next-Linked h next m below linked stack
unlinked-Linked h next m (x ∷ []) below linked stack =
    let g : ℕ → AllocHeader = drop_next h m below in
    let v : AllocHeader = record (g x.at) { last = (g m.at).last } in
    let away : (z : Block) → Among z below → z.at ≢ x.at =
      λ z here. stack-ne x z (m ∷ below) stack (inr here) in
    let here : update g x.at v x.at ≡ v = update-here g x.at v in
    let old : g x.at ≡ h x.at = drop_next-same h m below x.at away in
    let own : g m.at ≡ h m.at =
      drop_next-same h m below m.at (λ z here. stack-ne m z below stack.2 here) in
    (
      ap (λ r. r.next) here ∙ ap (λ r. r.next) old ∙ linked.0,
      ap (λ r. r.last) here ∙ ap (λ r. r.last) own ∙ (linked.3).1,
      ap (λ r. r.length) here ∙ ap (λ r. r.length) old ∙ linked.2,
      Linked-same g (update g x.at v) x.at below (drop_next-Linked h x.at m below linked.3 stack.2)
          (λ z here. update-other g x.at v z.at (away z here)),
    )
unlinked-Linked h next m (x ∷ y ∷ ys) below linked stack =
    let g : ℕ → AllocHeader = drop_next h m below in
    let n : Block = nearest y ys in
    let away : (z : Block) → Among z below → z.at ≢ x.at = λ z here.
      stack-ne x z (y ∷ ys ++ m ∷ below) stack (Among-below z (y ∷ ys) (m ∷ below) (inr here)) in
    let not_near : x.at ≢ n.at = λ e.
      stack-ne x n (y ∷ ys ++ m ∷ below) stack
        (Among-above n (y ∷ ys) (m ∷ below) (nearest-Among y ys)) (sym e) in
    let same : update g n.at (record (g n.at) { last = (g m.at).last }) x.at ≡ h x.at =
      update-other g n.at (record (g n.at) { last = (g m.at).last }) x.at not_near
      ∙ drop_next-same h m below x.at away in
    (
      ap (λ r. r.next) same ∙ linked.0,
      ap (λ r. r.last) same ∙ linked.1,
      ap (λ r. r.length) same ∙ linked.2,
      unlinked-Linked h x.at m (y ∷ ys) below linked.3 stack.2,
    )
