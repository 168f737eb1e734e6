-- ===== src/Heap/Free.antt =====
-- `kfree` of kernel/mm/alloc.c.
use bitch.Base.{
  ℕ, ◌+◌, ◌-◌, ◌*◌, ◌^◌, ◌<◌, ◌≡◌, ◌≢◌, ◌↔◌, inl, inr, refl, ap, ◌∙◌, arith, Bool, true, false,
  List, [], ◌∷◌, ◌++◌, ltb, ◌==◌, if◌then◌else◌, add32, sub32, update, update-here, update-other,
  ne→==, Bool-cases, ltb→lt,
}
use bitch.Pmm.{page_size}
use bitch.Vmm.{vmm_free_page}
use bitch.Heap.{
  AllocHeader, Heap, header_size, page_start, page_count, positive, leave_last, leave_next, kfree,
  end_of,
}
use bitch.Heap.Blocks.{
  Block, bottom, top, IsBlock, IsStack, Among, IsBlock-of, Among-middle, IsStack-without,
}
use bitch.Heap.Release.{
  nearest, shares_first, shares_last, first_page, own_count, InOwn, Alone, only_own, own_only,
  IsStack-below, nearest-OnTop,
}
use bitch.Heap.Links.{
  at_of, Linked, drop_next, drop_last, unlinked, unlinked-Linked, drop_next-same, stack-ne,
}

-- The headers link the blocks, and the static `pos` is the newest one.
pub record IsHeap (s : Heap) (blocks : List Block) : Type 0 where
  pub linked : Linked s.header_at 0 blocks
  pub pos_is : s.pos ≡ at_of blocks
  pub stack : IsStack blocks

-- The number of pages of a block.
page_count-len : (m : Block) → IsBlock m → page_count m.len ≡ top m + 1 - bottom m
page_count-len m is = ground (arith, is)

same_page : (a b : ℕ) → (a * 0x1000 == b * 0x1000) ≡ (a == b)
same_page a b = ground arith

leave_last_lem :
    (s : Heap) (m : Block) (below : List Block) (num : ℕ)
    → IsStack (m ∷ below)
    → Linked s.header_at m.at below
    → (s.header_at m.at).last ≡ at_of below
    → leave_last s m.at (bottom m * 0x1000) num ≡ (
      first_page m below * 0x1000,
      (if shares_first m below then sub32 num 1 else num),
      record s { header_at = drop_next s.header_at m below },
    )
unfolding leave_last IsStack Linked
leave_last_lem s m [] num stack linked last = rw last refl
leave_last_lem s m (l ∷ ls) num stack linked last =
    let is : IsBlock l = (stack.2).0 in
    let own : IsBlock m = stack.0 in
    let g : ℕ → AllocHeader = drop_next s.header_at m (l ∷ ls) in
    let len : (g l.at).length ≡ l.len =
      ap (λ r. r.length)
        (update-here s.header_at l.at
          (record (s.header_at l.at) { next = (s.header_at m.at).next }))
      ∙ linked.2 in
    let page : page_start (sub32 (add32 l.at l.len) 1) ≡ top l * 0x1000 = omega (arith, is) in
    let some_l : l.at ≢ 0 = λ e. omega (arith, is, e) in
    rw (last, ne→== l.at 0 some_l, len, page, same_page (top l) (bottom m))
      (elim (Bool-cases (top l == bottom m)) [
        | inl e ↦ rw e (
            let next : add32 (bottom m * 0x1000) 0x1000 ≡ (bottom m + 1) * 0x1000 =
              omega (arith, own) in
            rw next refl)
        | inr e ↦ rw e refl
      ])

-- What lies behind a block that has `above` on it, and the new `pos` without it.
abbrev up_at : (next : ℕ) → List Block → ℕ
up_at next [] = next
up_at next (x ∷ xs) = (nearest x xs).at

abbrev pos_without : (pos : ℕ) → (above below : List Block) → ℕ
pos_without pos [] below = at_of below
pos_without pos (x ∷ xs) below = pos

Linked-below :
    (h : ℕ → AllocHeader) (next : ℕ) (m : Block) (above below : List Block)
    → Linked h next (above ++ m ∷ below)
    → Linked h (up_at next above) (m ∷ below)
unfolding Linked
Linked-below h next m [] below linked = linked
Linked-below h next m (x ∷ []) below linked = linked.3
Linked-below h next m (x ∷ y ∷ ys) below linked = Linked-below h x.at m (y ∷ ys) below linked.3

nearest-ne :
    (x m : Block) (xs below : List Block) → IsStack (x ∷ xs ++ m ∷ below) → m.at ≢ (nearest x xs).at
unfolding IsStack
nearest-ne x m [] below stack = stack-ne x m (m ∷ below) stack (Among-middle m [] below)
nearest-ne x m (y ∷ ys) below stack = nearest-ne y m ys below stack.2

-- `leave_next` by the address of the next block.
abbrev leave_at : Heap → (mem num next : ℕ) → ℕ × Heap
leave_at t mem num next =
    let last : ℕ = (t.header_at mem).last in
    let u : Heap = record t {
      header_at = update t.header_at next (record (t.header_at next) { last = last });
    } in
    if next == 0
    then (num, record t { pos = last })
    else if page_start (sub32 (end_of u mem) 1) == page_start next
    then (sub32 num 1, u)
    else (num, u)

leave_next-at :
    (t : Heap) (mem num : ℕ) → leave_next t mem num ≡ leave_at t mem num (t.header_at mem).next
unfolding leave_next
leave_next-at t mem num = refl

leave_next_lem :
    (t : Heap) (m : Block) (above below : List Block) (num : ℕ)
    → IsStack (above ++ m ∷ below)
    → (t.header_at m.at).length ≡ m.len
    → (t.header_at m.at).next ≡ up_at 0 above
    → (t.header_at m.at).last ≡ at_of below
    → leave_next t m.at num ≡ (
      (if shares_last m above then sub32 num 1 else num),
      record t { pos = pos_without t.pos above below; header_at = drop_last t.header_at m above },
    )
unfolding Among IsStack
leave_next_lem t m [] below num stack len next last =
    leave_next-at t m.at num ∙ ap (leave_at t m.at num) next ∙ rw last refl
leave_next_lem t m (x ∷ xs) below num stack len next last =
    let n : Block = nearest x xs in
    let near : IsBlock n = (nearest-OnTop x m xs below stack).0 in
    let own : IsBlock m =
      IsBlock-of m (m ∷ below) (IsStack-below (x ∷ xs) (m ∷ below) stack) (inl refl) in
    let apart : m.at ≢ n.at = nearest-ne x m xs below stack in
    let length : (drop_last t.header_at m (x ∷ xs) m.at).length ≡ m.len =
      ap (λ r. r.length)
        (update-other t.header_at n.at
          (record (t.header_at n.at) { last = (t.header_at m.at).last }) m.at apart)
      ∙ len in
    let page : page_start (sub32 (add32 m.at m.len) 1) ≡ top m * 0x1000 = omega (arith, own) in
    let some_n : n.at ≢ 0 = λ e. omega (arith, near, e) in
    leave_next-at t m.at num
    ∙ ap (leave_at t m.at num) next
    ∙ rw (ne→== n.at 0 some_n, length, page, same_page (top m) (bottom n))
        (elim (Bool-cases (top m == bottom n)) [ inl e ↦ rw e refl | inr e ↦ rw e refl ])

-- The number that `kfree` counts down to is positive just when the block has pages of its own.
abbrev left_count : (all : ℕ) (first last : Bool) → ℕ
left_count all first last =
    let most : ℕ = if first then sub32 all 1 else all in if last then sub32 most 1 else most

left_count_lem :
    (all : ℕ) (first last : Bool)
    → 0 < all
    → all < 2 ^ 20
    → let own : ℕ =
        let most : ℕ = if first then all - 1 else all in if last then most - 1 else most in
      (positive (left_count all first last) ≡ ltb 0 own)
      × (0 < own → left_count all first last ≡ own)
left_count_lem all true true some_page few = (ground arith, λ p. omega (arith, p))
left_count_lem all true false some_page few = (ground arith, λ p. omega (arith, p))
left_count_lem all false true some_page few = (ground arith, λ p. omega (arith, p))
left_count_lem all false false some_page few = (ground arith, λ p. omega (arith, p))

-- The heap without the block `m`, and then without its pages.
abbrev pub without : Heap → Block → (above below : List Block) → Heap
without s m above below = record s {
  header_at = unlinked s.header_at m above below;
  pos = pos_without s.pos above below;
}

abbrev pub released : Heap → Block → (above below : List Block) → Heap
released s m above below =
    let own : ℕ = own_count m above below in
    record (without s m above below) {
      vmm = if ltb 0 own then vmm_free_page s.vmm (first_page m below * page_size) own else s.vmm;
    }

pos_without-at :
    (m : Block) (pos : ℕ) (above below : List Block)
    → pos ≡ at_of (above ++ m ∷ below)
    → pos_without pos above below ≡ at_of (above ++ below)
pos_without-at m pos [] below e = refl
pos_without-at m pos (x ∷ xs) below e = e

module _ (s : Heap) (m : Block) (above below : List Block)
    (heap : IsHeap s (above ++ m ∷ below)) where
  kfree-released : kfree s (m.at + header_size) ≡ released s m above below
  unfolding kfree Linked IsStack
  kfree-released =
      let stack : IsStack (m ∷ below) = IsStack-below above (m ∷ below) heap.stack in
      let own : IsBlock m = stack.0 in
      let linked : Linked s.header_at (up_at 0 above) (m ∷ below) =
        Linked-below s.header_at 0 m above below heap.linked in
      let g : ℕ → AllocHeader = drop_next s.header_at m below in
      let same : g m.at ≡ s.header_at m.at =
        drop_next-same s.header_at m below m.at (λ z here. stack-ne m z below stack here) in
      let mem : sub32 (m.at + header_size) header_size ≡ m.at = omega (arith, own) in
      let all : page_count (s.header_at m.at).length ≡ top m + 1 - bottom m =
        ap page_count linked.2 ∙ page_count-len m own in
      let count =
        left_count_lem (top m + 1 - bottom m) (shares_first m below) (shares_last m above) in
      let first = leave_last_lem s m below (top m + 1 - bottom m) stack linked.3 linked.1 in
      let next =
        leave_next_lem (record s { header_at = g }) m above below
          (if shares_first m below then sub32 (top m + 1 - bottom m) 1 else top m + 1 - bottom m)
          heap.stack (ap (λ r. r.length) same ∙ linked.2) (ap (λ r. r.next) same ∙ linked.0)
          (ap (λ r. r.last) same ∙ linked.1) in
      let few : 0 < top m + 1 - bottom m = omega (arith, own) in
      let low : top m + 1 - bottom m < 2 ^ 20 = omega (arith, own) in
      rw (mem, all, first, next, (count few low).0)
        (elim (Bool-cases (ltb 0 (own_count m above below))) [
          | inl e ↦ rw (e, (count few low).1 (ltb→lt 0 (own_count m above below) e)) refl
          | inr e ↦ rw e refl
        ])

  released-IsHeap : IsHeap (released s m above below) (above ++ below)
  released-IsHeap = record {
    linked = unlinked-Linked s.header_at 0 m above below heap.linked heap.stack;
    pos_is = pos_without-at m s.pos above below heap.pos_is;
    stack = IsStack-without m above below heap.stack;
  }

-- What `kfree` of the block `m` leads to.
abbrev pub Freed : Heap → Block → (above below : List Block) → Heap → Type 0
Freed s m above below t =
    let own : ℕ = own_count m above below in
    let first : ℕ = first_page m below in
    IsHeap t (above ++ below)
    × (t.vmm ≡ (if ltb 0 own then vmm_free_page s.vmm (first * page_size) own else s.vmm))
    × ((k : ℕ) → InOwn m above below k ↔ Alone m (above ++ below) k)

-- Let the blocks of a heap, the newest first, be those of `above`, the block `m` and those of `below`. Then
-- `kfree` of what `kmalloc` returned for `m` leaves a heap with the blocks of `above` and `below`. It gives
-- back one run of pages with one call of `vmm_free_page`, and makes no call where this run is empty. A page
-- is in this run just when `m` has bytes on it and no other block of the heap covers it.
pub kfree_lem :
    (s : Heap) (m : Block) (above below : List Block)
    → IsHeap s (above ++ m ∷ below)
    → Freed s m above below (kfree s (m.at + header_size))
kfree_lem s m above below heap = rw (kfree-released s m above below heap) (
  released-IsHeap s m above below heap,
  refl,
  λ k. (only_own m above below heap.stack k, own_only m above below heap.stack k),
)
