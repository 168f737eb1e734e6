-- ===== src/Heap/Push.antt =====
-- A new block on top of the heap of kernel/mm/alloc.c, and `kmalloc` where it fits behind the newest one.
use bitch.Base.{
  ℕ, ◌+◌, ◌-◌, ◌/◌, ◌<◌, ◌≤◌, ◌≡◌, ◌≢◌, ◌⊎◌, inl, inr, refl, sym, ap, ◌∙◌, arith, true, List, [],
  ◌∷◌, leb, ◌==◌, if◌then◌else◌, add32, sub32, update, update-here, update-other, ne→==,
}
use bitch.Pmm.{page_size}
use bitch.Vmm.{Vmm, get_vmm_page}
use bitch.Heap.{
  AllocHeader, Heap, header_size, page_start, page_count, left_behind, end_of, push_block, kmalloc,
}
use bitch.Heap.Blocks.{
  Block, bottom, IsBlock, Apart, Stacked, AllApart, IsStack, IsStack-push, Among, IsBlock-of,
  OnTop-one,
}
use bitch.Heap.Release.{Covers}
use bitch.Heap.Links.{at_of, Linked, Linked-same, stack-ne}
use bitch.Heap.Free.{IsHeap}

-- Every page of the blocks is a slot of the window that is in use.
abbrev pub Mapped : Vmm → ℕ → Type 0
Mapped v k = (v.dmmap_page_count ≤ k) × (get_vmm_page v (k - v.dmmap_page_count) ≢ 0)

abbrev pub OnPages : Vmm → List Block → Type 0
OnPages v blocks = (x : Block) → Among x blocks → (k : ℕ) → Covers x k → Mapped v k

-- The headers that `push_block` leaves, by the address of the last block.
abbrev pushed : (ℕ → AllocHeader) → (pos at len : ℕ) → ℕ → AllocHeader
pushed h pos at len =
    let made : ℕ → AllocHeader = update h at (record { last = pos; next = 0; length = len }) in
    if pos == 0 then made else update made pos (record (made pos) { next = at })

push_block-at :
    (s : Heap) (at len : ℕ) → (push_block s at len).header_at ≡ pushed s.header_at s.pos at len
unfolding push_block
push_block-at s at len = refl

-- The first block, and a block on another one.
first-Linked :
    (h : ℕ → AllocHeader) (b : Block)
    → Linked (update h b.at (record { last = 0; next = 0; length = b.len })) 0 (b ∷ [])
unfolding Linked
first-Linked h b =
    let v : AllocHeader = record { last = 0; next = 0; length = b.len } in
    let here : update h b.at v b.at ≡ v = update-here h b.at v in
    (ap (λ r. r.next) here, ap (λ r. r.last) here, ap (λ r. r.length) here, omega arith)

second-Linked :
    (h : ℕ → AllocHeader) (b x : Block) (xs : List Block)
    → Linked h 0 (x ∷ xs)
    → IsStack (b ∷ x ∷ xs)
    → let made : ℕ → AllocHeader =
        update h b.at (record { last = x.at; next = 0; length = b.len }) in
      Linked (update made x.at (record (made x.at) { next = b.at })) 0 (b ∷ x ∷ xs)
unfolding Linked IsStack Among
second-Linked h b x xs linked stack =
    let v : AllocHeader = record { last = x.at; next = 0; length = b.len } in
    let made : ℕ → AllocHeader = update h b.at v in
    let w : AllocHeader = record (made x.at) { next = b.at } in
    let away : (z : Block) → Among z (x ∷ xs) → z.at ≢ b.at =
      λ z here. stack-ne b z (x ∷ xs) stack here in
    let own : update made x.at w b.at ≡ v =
      update-other made x.at w b.at (λ e. away x (inl refl) (sym e)) ∙ update-here h b.at v in
    let old : made x.at ≡ h x.at = update-other h b.at v x.at (away x (inl refl)) in
    let last : update made x.at w x.at ≡ w = update-here made x.at w in
    (
      ap (λ r. r.next) own,
      ap (λ r. r.last) own,
      ap (λ r. r.length) own,
      (
        ap (λ r. r.next) last,
        ap (λ r. r.last) last ∙ ap (λ r. r.last) old ∙ linked.1,
        ap (λ r. r.length) last ∙ ap (λ r. r.length) old ∙ linked.2,
        Linked-same h (update made x.at w) x.at xs linked.3 (λ z here.
            update-other made x.at w z.at (stack-ne x z xs stack.2 here)
            ∙ update-other h b.at v z.at (away z (inr here))),
      ),
    )

pushed-Linked :
    (h : ℕ → AllocHeader) (b : Block) (blocks : List Block)
    → Linked h 0 blocks
    → IsStack (b ∷ blocks)
    → Linked (pushed h (at_of blocks) b.at b.len) 0 (b ∷ blocks)
unfolding IsStack
pushed-Linked h b [] linked stack = first-Linked h b
pushed-Linked h b (x ∷ xs) linked stack =
    let is : IsBlock x = (stack.2).0 in
    rw (ne→== x.at 0 (λ e. omega (arith, is, e))) (second-Linked h b x xs linked stack)

-- A new block on a heap.
pub push_block-IsHeap :
    (s : Heap) (b : Block) (blocks : List Block)
    → IsHeap s blocks
    → IsStack (b ∷ blocks)
    → IsHeap (push_block s b.at b.len) (b ∷ blocks)
push_block-IsHeap s b blocks heap stack = record {
  linked =
      rw (push_block-at s b.at b.len ∙ ap (λ p. pushed s.header_at p b.at b.len) heap.pos_is)
        (pushed-Linked s.header_at b blocks heap.linked stack);
  pos_is = unfold push_block in refl;
  stack = stack;
}

-- What `kmalloc` leads to: a new block with room for what was asked for, which shares no byte with another.
pub record Allocated (blocks : List Block) (size : ℕ) (r : ℕ × Heap) : Type 0 where
  pub block : Block
  pub address : r.0 ≡ block.at + header_size
  pub room : block.len ≡ size + header_size
  pub heap : IsHeap r.1 (block ∷ blocks)
  pub on_pages : OnPages r.1.vmm (block ∷ blocks)
  pub disjoint :
      (x : Block) → Among x blocks → (x.at + x.len ≤ block.at) ⊎ (block.at + block.len ≤ x.at)

pub disjoint_of :
    (b x : Block) (blocks : List Block)
    → IsStack (b ∷ blocks)
    → Among x blocks
    → (x.at + x.len ≤ b.at) ⊎ (b.at + b.len ≤ x.at)
unfolding IsStack
disjoint_of b x blocks stack here =
    let own : IsBlock b = stack.0 in
    let old : IsBlock x = IsBlock-of x blocks stack.2 here in
    elim (OnTop-one b x blocks stack.1 here) [
      | inl stacked ↦ inl (stacked.2)
      | inr apart ↦ ground (arith, apart, own, old)
    ]

-- The number of pages for a block.
abbrev pub pages_for : ℕ → ℕ
pages_for size = (size + header_size + 0xfff) / 0x1000

pub page_count-pages :
    (size : ℕ) → size < 0x8000_0000 → page_count (add32 size header_size) ≡ pages_for size
page_count-pages size small = omega (arith, small)

-- The block behind the newest one.
abbrev pub behind : Block → ℕ → Block
behind x size = record { at = x.at + x.len; len = size + header_size }

-- A block that fits behind the end `e` of another one ends on the same page.
room_behind :
    (e len : ℕ)
    → 0 < e
    → e ≤ 0xffff_f000
    → 12 ≤ len
    → len ≤ sub32 (page_start (sub32 (add32 e page_size) 1)) e
    → ((e - 1) / 0x1000 ≡ e / 0x1000)
      × (e / 0x1000 ≡ (e + len - 1) / 0x1000)
      × (e + len ≤ 0xffff_f000)
room_behind e len some low big fits = (omega arith, omega arith, omega arith)

module _ (s : Heap) (x : Block) (xs : List Block) (size : ℕ) (heap : IsHeap s (x ∷ xs))
    (small : size < 0x8000_0000)
    (fits : leb (size + header_size) (left_behind s s.pos) ≡ true) where
  x-IsBlock : IsBlock x
  unfolding IsStack
  x-IsBlock = (heap.stack).0

  end_of-x : end_of s s.pos ≡ x.at + x.len
  unfolding Linked
  end_of-x =
      ap (end_of s) heap.pos_is ∙ ap (add32 x.at) ((heap.linked).2) ∙ omega (arith, x-IsBlock)

  behind_fits : (Stacked x (behind x size)) × IsBlock (behind x size)
  behind_fits =
      let e : left_behind s s.pos
          ≡ sub32 (page_start (sub32 (add32 (x.at + x.len) page_size) 1)) (x.at + x.len) =
        ap (λ e. sub32 (page_start (sub32 (add32 e page_size) 1)) e) end_of-x in
      let r =
        room_behind (x.at + x.len) (size + header_size) (omega (arith, x-IsBlock))
          (omega (arith, x-IsBlock)) (omega arith) (ground (arith, fits, e)) in
      ((r.0, r.1, omega arith), (omega (arith, x-IsBlock), omega arith, r.2, inr r.1))

  kmalloc-behind :
      kmalloc s size
      ≡ (x.at + x.len + header_size, push_block s (x.at + x.len) (size + header_size))
  unfolding kmalloc
  kmalloc-behind =
      let len : add32 size header_size ≡ size + header_size = omega (arith, small) in
      let some_pos : s.pos ≢ 0 = λ e. omega (arith, e, heap.pos_is, x-IsBlock) in
      let r = behind_fits.1 in
      let start : add32 (x.at + x.len) header_size ≡ x.at + x.len + header_size =
        omega (arith, r, x-IsBlock) in
      rw (len, ne→== s.pos 0 some_pos, fits, end_of-x, start) refl

  pub kmalloc-behind_Allocated : OnPages s.vmm (x ∷ xs) → Allocated (x ∷ xs) size (kmalloc s size)
  unfolding Among
  kmalloc-behind_Allocated on_pages =
      let b : Block = behind x size in
      let own : Stacked x b = behind_fits.0 in
      rw kmalloc-behind (record {
        block = b;
        address = refl;
        room = refl;
        heap =
            push_block-IsHeap s b (x ∷ xs) heap (IsStack-push b x xs heap.stack behind_fits.1 own);
        on_pages =
            unfold push_block in
            λ z here k covers. elim here [
              | inl e ↦
                  let at : z.at ≡ b.at = ap (λ r. r.at) e in
                  let len : z.len ≡ b.len = ap (λ r. r.len) e in
                  on_pages x (inl refl) k (omega (arith, at, len, covers, own, x-IsBlock))
              | inr there ↦ on_pages z there k covers
            ];
        disjoint = λ z here.
            disjoint_of b z (x ∷ xs) (IsStack-push b x xs heap.stack behind_fits.1 own) here;
      })

-- Two blocks that have no common page.
pub Apart-of :
    (x b : Block) → IsBlock x → IsBlock b → ((k : ℕ) → Covers x k → Covers b k → 1 ≤ 0) → Apart x b
Apart-of x b is own none = ground (arith, is, own, none (bottom x), none (bottom b))

pub AllApart-of :
    (b : Block) (blocks : List Block)
    → ((z : Block) → Among z blocks → Apart z b)
    → AllApart b blocks
unfolding AllApart Among
AllApart-of b [] apart = omega arith
AllApart-of b (x ∷ xs) apart = (apart x (inl refl), AllApart-of b xs (λ z here. apart z (inr here)))
