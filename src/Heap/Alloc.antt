-- ===== src/Heap/Alloc.antt =====
-- `kmalloc` of kernel/mm/alloc.c, with new pages where they are needed.
use bitch.Base.{
  ℕ, ◌+◌, ◌-◌, ◌*◌, ◌<◌, ◌≤◌, ◌≡◌, ◌≢◌, ◌⊎◌, inl, inr, refl, ap, arith, true, false, not, List, [],
  ◌∷◌, leb, ◌==◌, ◌&&◌, add32, ne→==, Bool-cases,
}
use bitch.Pmm.Inv
use bitch.Vmm.{get_vmm_page, vmm_alloc_page}
use bitch.Vmm.Slots.{IsWindow}
use bitch.Vmm.Alloc.{TookSlots, SlotsFree, vmm_alloc_page_lem}
use bitch.Heap.{Heap, header_size, page_count, left_behind, push_block, kmalloc}
use bitch.Heap.Blocks.{Block, bottom, top, IsBlock, Apart, OnTop-apart, IsStack, Among, IsBlock-of}
use bitch.Heap.Release.{Covers}
use bitch.Heap.Free.{IsHeap}
use bitch.Heap.Push.{
  OnPages, push_block-IsHeap, Allocated, disjoint_of, pages_for, page_count-pages,
  kmalloc-behind_Allocated, Apart-of, AllApart-of,
}

module _ (s : Heap) (blocks : List Block) (size : ℕ) (heap : IsHeap s blocks)
    (on_pages : OnPages s.vmm blocks) (small : size < 0x8000_0000) (w : IsWindow s.vmm)
    (in_window : s.vmm.vmm_pos < s.vmm.vmmap_page_count)
    (took : TookSlots s.vmm (pages_for size) (vmm_alloc_page s.vmm (pages_for size))) where
  abbrev n : ℕ
  n = pages_for size

  abbrev fresh : Block
  fresh = record { at = (vmm_alloc_page s.vmm n).0; len = size + header_size }

  -- The first of its pages.
  abbrev first : ℕ
  first = s.vmm.dmmap_page_count + (took.top + 1 - n)

  fresh-pages : (bottom fresh ≡ first) × (top fresh ≡ first + n - 1)
  fresh-pages =
      let at : fresh.at ≡ first * 0x1000 = took.address in (omega (arith, at), omega (arith, at))

  fresh-IsBlock : IsBlock fresh
  fresh-IsBlock =
      let at : fresh.at ≡ first * 0x1000 = took.address in
      let room : n ≤ took.top = took.room in
      let inside : took.top ≤ s.vmm.vmm_pos = took.inside in
      (
        omega (arith, at, room),
        omega arith,
        omega (arith, at, w, in_window, inside),
        inl (omega (arith, at)),
      )

  in_run :
      (k : ℕ)
      → Covers fresh k
      → (took.top + 1 - n ≤ k - s.vmm.dmmap_page_count)
        × (k - s.vmm.dmmap_page_count < took.top + 1)
  in_run k covers = let room : n ≤ took.top = took.room in omega (arith, covers, fresh-pages, room)

  old-Apart : (z : Block) → Among z blocks → Apart z fresh
  old-Apart z here =
      Apart-of z fresh (IsBlock-of z blocks heap.stack here) fresh-IsBlock (λ k old new.
        let room : n ≤ took.top = took.room in
        let run = in_run k new in
        absurd (
          (on_pages z here k old).1
            (took.were_free (k - s.vmm.dmmap_page_count) run.0 (omega (arith, run, room)))))

  -- A slot that was in use, and one of the run, holds a page.
  slot-Mapped :
      (q : ℕ)
      → ((took.top + 1 - n ≤ q) × (q < took.top + 1)) ⊎ (get_vmm_page s.vmm q ≢ 0)
      → get_vmm_page (vmm_alloc_page s.vmm n).1 q ≢ 0
  slot-Mapped q used e =
      let room : n ≤ took.top = took.room in
      let p : ℕ = took.top + 1 - n in
      let some = (took.pages).ne_zero (q - p) in
      absurd (ground (arith, took.slots q, some, used, e, room))

  fresh-OnPages : OnPages (vmm_alloc_page s.vmm n).1 (fresh ∷ blocks)
  unfolding Among
  fresh-OnPages z here k covers =
      let count : (vmm_alloc_page s.vmm n).1.dmmap_page_count ≡ s.vmm.dmmap_page_count =
        took.direct_count in
      elim here [
        | inl e ↦
            let at : z.at ≡ fresh.at = ap (λ r. r.at) e in
            let len : z.len ≡ fresh.len = ap (λ r. r.len) e in
            let own : Covers fresh k = omega (arith, at, len, covers) in
            (
              omega (arith, count, own, fresh-pages),
              rw count (slot-Mapped (k - s.vmm.dmmap_page_count) (inl (in_run k own))),
            )
        | inr there ↦
            let old = on_pages z there k covers in
            (
              omega (arith, count, old.0),
              rw count (slot-Mapped (k - s.vmm.dmmap_page_count) (inr old.1)),
            )
      ]

  fresh-IsStack : IsStack (fresh ∷ blocks)
  unfolding IsStack
  fresh-IsStack =
      (fresh-IsBlock, OnTop-apart fresh blocks (AllApart-of fresh blocks old-Apart), heap.stack)

  kmalloc-fresh :
      (not (s.pos == 0) && leb (size + header_size) (left_behind s s.pos)) ≡ false
      → Allocated blocks size (kmalloc s size)
  unfolding kmalloc
  kmalloc-fresh full =
      let len : add32 size header_size ≡ size + header_size = omega (arith, small) in
      let pages : page_count (add32 size header_size) ≡ n = page_count-pages size small in
      let own : IsBlock fresh = fresh-IsBlock in
      let some : fresh.at ≢ 0 = λ e. omega (arith, e, own) in
      let start : add32 fresh.at header_size ≡ fresh.at + header_size = omega (arith, own) in
      let t : Heap = record s { vmm = (vmm_alloc_page s.vmm n).1 } in
      let old : IsHeap t blocks = record {
        linked = heap.linked;
        pos_is = heap.pos_is;
        stack = heap.stack;
      } in
      rw (pages, len, full, ne→== fresh.at 0 some, start)
        (record {
          block = fresh;
          address = refl;
          room = refl;
          heap = push_block-IsHeap t fresh blocks old fresh-IsStack;
          on_pages = unfold push_block in fresh-OnPages;
          disjoint = λ z here. disjoint_of fresh z blocks fresh-IsStack here;
        })

kmalloc-fits :
    (s : Heap) (blocks : List Block) (size : ℕ)
    → IsHeap s blocks
    → OnPages s.vmm blocks
    → size < 0x8000_0000
    → (not (s.pos == 0) && leb (size + header_size) (left_behind s s.pos)) ≡ true
    → Allocated blocks size (kmalloc s size)
kmalloc-fits s [] size heap on_pages small fits =
    let none_yet : s.pos ≡ 0 = heap.pos_is in absurd (ground (arith, none_yet, fits))
kmalloc-fits s (x ∷ xs) size heap on_pages small fits =
    kmalloc-behind_Allocated s x xs size heap small (ground (arith, fits)) on_pages

-- Let the pages of the blocks of a heap be slots of the page mapper's window that are in use, and let the page
-- mapper be able to give the pages for the new block: its window fills the page table, the page allocator is
-- valid and has enough free pages, and there is a run of free slots above slot 0. Then `kmalloc` of less than
-- 2 GB succeeds. It returns the address behind the header of a new block, which has the bytes asked for and
-- shares no byte with another block; the heap has this block and those it had, whose pages are in use.
pub kmalloc_lem :
    (s : Heap) (blocks : List Block) (size p0 : ℕ)
    → IsHeap s blocks
    → OnPages s.vmm blocks
    → size < 0x8000_0000
    → IsWindow s.vmm
    → s.vmm.vmm_pos < s.vmm.vmmap_page_count
    → Inv.IsValid s.vmm.pmm
    → pages_for size < s.vmm.pmm.free_page_count
    → p0 ≤ s.vmm.vmm_pos
    → pages_for size ≤ p0
    → SlotsFree s.vmm (p0 + 1 - pages_for size) (pages_for size)
    → Allocated blocks size (kmalloc s size)
kmalloc_lem s blocks size p0 heap on_pages small w in_window v enough below room run =
    let n : ℕ = pages_for size in
    let took : TookSlots s.vmm n (vmm_alloc_page s.vmm n) =
      vmm_alloc_page_lem s.vmm n w v (omega arith) enough in_window p0 below room run in
    elim (Bool-cases (not (s.pos == 0) && leb (size + header_size) (left_behind s s.pos))) [
      | inl fits ↦ kmalloc-fits s blocks size heap on_pages small fits
      | inr full ↦ kmalloc-fresh s blocks size heap on_pages small w in_window took full
    ]
