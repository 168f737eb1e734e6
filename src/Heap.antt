-- ===== src/Heap.antt =====
-- The kernel heap, kernel/mm/alloc.c: blocks of memory with a header in front, on pages of the page mapper.
pub mod Blocks
pub mod Release
pub mod Links
pub mod Push
pub mod Free
pub mod Alloc
mod Tests
use bitch.Base.{
  ℕ, ◌+◌, ◌-◌, ◌*◌, ◌/◌, ◌^◌, Bool, not, ◌&&◌, ltb, leb, ◌==◌, if◌then◌else◌, add32, sub32, update,
}
use bitch.Pmm.{page_size}
use bitch.Vmm.{Vmm, vmm_alloc_page, vmm_free_page}

-- `_alloc_header_t`
pub record AllocHeader : Type 0 where
  pub last : ℕ
  pub next : ℕ
  pub length : ℕ

-- The static `pos`, the headers by their addresses, and the page mapper.
pub record Heap : Type 0 where
  pub pos : ℕ
  pub header_at : ℕ → AllocHeader
  pub vmm : Vmm

-- sizeof(_alloc_header_t)
abbrev pub header_size : ℕ
header_size = 12

-- `a & ~(PAGE_SIZE - 1)`, and `(len + PAGE_SIZE - 1) / PAGE_SIZE`
abbrev pub page_start : ℕ → ℕ
page_start a = a / page_size * page_size

abbrev pub page_count : ℕ → ℕ
page_count len = sub32 (add32 len page_size) 1 / page_size

-- The end of the block at `mem`, and the bytes behind it on its last page.
abbrev pub end_of : Heap → ℕ → ℕ
end_of s mem = add32 mem (s.header_at mem).length

abbrev pub left_behind : Heap → ℕ → ℕ
left_behind s mem = sub32 (page_start (sub32 (add32 (end_of s mem) page_size) 1)) (end_of s mem)

-- The header of the new block at `mem`, which is then the last one.
unfoldable pub push_block : Heap → (mem len : ℕ) → Heap
unfolding update
push_block s mem len =
    let made : ℕ → AllocHeader =
      update s.header_at mem (record { last = s.pos; next = 0; length = len }) in
    record s {
      pos = mem;
      header_at =
          if s.pos == 0 then made else update made s.pos (record (made s.pos) { next = mem });
    }

unfoldable pub kmalloc : Heap → ℕ → ℕ × Heap
kmalloc s size =
    let len : ℕ = add32 size header_size in
    let r = vmm_alloc_page s.vmm (page_count len) in
    if not (s.pos == 0) && leb len (left_behind s s.pos)
    then (add32 (end_of s s.pos) header_size, push_block s (end_of s s.pos) len)
    else if r.0 == 0
    then (0, record s { vmm = r.1 })
    else (add32 r.0 header_size, push_block (record s { vmm = r.1 }) r.0 len)

-- `kfree` on the side of the block in front, and then on that of the block behind: the first page to give
-- back, their number, and the heap.
unfoldable pub leave_last : Heap → (mem attr num : ℕ) → ℕ × ℕ × Heap
unfolding update
leave_last s mem attr num =
    let h : AllocHeader = s.header_at mem in
    let t : Heap = record s {
      header_at = update s.header_at h.last (record (s.header_at h.last) { next = h.next });
    } in
    if h.last == 0
    then (attr, num, s)
    else if page_start (sub32 (end_of t h.last) 1) == attr
    then (add32 attr page_size, sub32 num 1, t)
    else (attr, num, t)

unfoldable pub leave_next : Heap → (mem num : ℕ) → ℕ × Heap
unfolding update
leave_next s mem num =
    let h : AllocHeader = s.header_at mem in
    let t : Heap = record s {
      header_at = update s.header_at h.next (record (s.header_at h.next) { last = h.last });
    } in
    if h.next == 0
    then (num, record s { pos = h.last })
    else if page_start (sub32 (end_of t mem) 1) == page_start h.next
    then (sub32 num 1, t)
    else (num, t)

-- `num > 0` of a signed number.
abbrev pub positive : ℕ → Bool
positive num = ltb 0 num && ltb num (2 ^ 31)

unfoldable pub kfree : Heap → ℕ → Heap
kfree s p =
    let mem : ℕ = sub32 p header_size in
    let (attr, most, t) = leave_last s mem (page_start mem) (page_count (s.header_at mem).length) in
    let (num, u) = leave_next t mem most in
    if positive num then record u { vmm = vmm_free_page u.vmm attr num } else u
