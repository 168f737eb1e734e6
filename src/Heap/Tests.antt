-- ===== src/Heap/Tests.antt =====
-- A heap with two blocks on one page, and an empty one on the machine of Vmm/Tests.
use bitch.Base.{ℕ, ◌+◌, ◌≡◌, inl, inr, refl, arith, [], ◌∷◌, ◌==◌, if◌then◌else◌}
use bitch.Vmm.Tests.{machine, memory-IsValid, free_memory, all_slots_free}
use bitch.Heap.{AllocHeader, Heap, header_size, kmalloc, kfree, leave_last, leave_next}
use bitch.Heap.Blocks.{Block, OnTop, IsStack, Among}
use bitch.Heap.Links.{Linked}
use bitch.Heap.Free.{IsHeap, Freed, kfree_lem}
use bitch.Heap.Alloc.{kmalloc_lem}
use bitch.Heap.Push.{Allocated}

abbrev older : Block
older = record { at = 0x5000; len = 100 }

abbrev newer : Block
newer = record { at = 0x5064; len = 50 }

abbrev headers : ℕ → AllocHeader
headers a =
    if a == 0x5000
    then record { last = 0; next = 0x5064; length = 100 }
    else record { last = 0x5000; next = 0; length = 50 }

abbrev two_blocks : Heap
two_blocks = record { pos = 0x5064; header_at = headers; vmm = machine 16 }

two_blocks-IsHeap : IsHeap two_blocks (newer ∷ older ∷ [])
unfolding Linked IsStack OnTop
two_blocks-IsHeap = record {
  linked = (refl, refl, refl, (refl, refl, refl, omega arith));
  pos_is = refl;
  stack = (
    (omega arith, omega arith, omega arith, inr refl),
    inl ((omega arith, omega arith, omega arith), omega arith),
    ((omega arith, omega arith, omega arith, inr refl), omega arith, omega arith),
  );
}

-- The page is kept for the newer block.
keeps_page : (kfree two_blocks 0x500c).pos ≡ 0x5064
unfolding kfree leave_last leave_next
keeps_page = refl

-- A third block lies behind the two.
next_place : (kmalloc two_blocks 8).0 ≡ 0x5064 + 50 + 12
unfolding kmalloc
next_place = refl

kfree_lem_example : Freed two_blocks older (newer ∷ []) [] (kfree two_blocks (0x5000 + header_size))
kfree_lem_example = kfree_lem two_blocks older (newer ∷ []) [] two_blocks-IsHeap

abbrev empty : Heap
empty = record { pos = 0; header_at = headers; vmm = machine 16 }

empty-IsHeap : IsHeap empty []
unfolding Linked IsStack
empty-IsHeap = record { linked = omega arith; pos_is = refl; stack = omega arith }

kmalloc_lem_example : Allocated [] 5000 (kmalloc empty 5000)
unfolding Among
kmalloc_lem_example =
    kmalloc_lem empty [] 5000 5 empty-IsHeap (λ x here. absurd (omega (arith, here))) (omega arith)
      refl (omega arith) memory-IsValid (omega (arith, free_memory)) (omega arith) (omega arith)
      (λ q lo hi. all_slots_free 16 q)
