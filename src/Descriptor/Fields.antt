-- ===== src/Descriptor/Fields.antt =====
-- The fields of descriptors as the processor reads them.
use bitch.Base.{
  ℕ, ◌+◌, ◌-◌, ◌*◌, ◌/◌, ◌<◌, ◌%◌, ◌^◌, ◌≡◌, refl, ◌≢◌, ◌↔◌, arith, update, ne→==, eq→==, lt→ltb,
}
use bitch.Kmm.{page_offset}
use bitch.Descriptor.{
  SegmentDescriptor, GateDescriptor, set_segment_descriptor, set_gate_descriptor, gdt_init, idt_set,
  idt_attribute, max_attr, gdt_kernel_code_index, gdt_kernel_data_index, gdt_user_code_index,
  gdt_user_data_index, gate_attribute,
}

abbrev segment_base : SegmentDescriptor → ℕ
segment_base d = d.base_addr_1 + d.base_addr_2 * 0x10000 + d.base_addr_3 * 0x100_0000

abbrev segment_limit : SegmentDescriptor → ℕ
segment_limit d = d.limit_1 + d.attribute / 0x100 % 0x10 * 0x10000

abbrev gate_offset : GateDescriptor → ℕ
gate_offset d = d.offset_1 + d.offset_2 * 0x10000

-- A descriptor that `set_segment_descriptor` has filled holds the 32-bit base and the attribute's
-- flags that it was given; the processor reads its 20-bit limit as given just when the bits 8 to 11
-- of the limit equal its bits 16 to 19, since the function stores the former in the place of the
-- latter.
set_segment_descriptor_lem :
    (base limit attribute : ℕ)
    → base < 2 ^ 32
    → limit < 2 ^ 20
    → attribute < 2 ^ 16
    → let d = set_segment_descriptor base limit attribute in
      (segment_base d ≡ base)
      × (d.attribute % 0x100 ≡ attribute % 0x100)
      × (d.attribute / 0x1000 ≡ attribute / 0x1000)
      × ((segment_limit d ≡ limit) ↔ (limit / 0x100 % 0x10 ≡ limit / 0x10000))
unfolding set_segment_descriptor
set_segment_descriptor_lem base limit attribute b l a =
    (omega arith, omega arith, omega arith, ((λ e. omega arith), (λ e. omega arith)))

-- After `gdt_init` the users' segments span all of memory, and the kernel's start at PAGE_OFFSET; but
-- the limit of the kernel's is 0xfffff pages, and not that of the memory above PAGE_OFFSET.
gdt_init-wide :
    (list : ℕ → SegmentDescriptor) (gdt tss tss_size : ℕ)
    → let t = (gdt_init list gdt tss tss_size).0 in
      (segment_base (t gdt_user_code_index) ≡ 0)
      × (segment_limit (t gdt_user_code_index) ≡ (max_attr - 1) / 0x1000)
      × (segment_limit (t gdt_user_data_index) ≡ (max_attr - 1) / 0x1000)
      × (segment_base (t gdt_kernel_code_index) ≡ page_offset)
      × (segment_base (t gdt_kernel_data_index) ≡ page_offset)
      × (segment_limit (t gdt_kernel_code_index) ≡ 0xfffff)
      × (segment_limit (t gdt_kernel_code_index) ≢ (max_attr - page_offset - 1) / 0x1000)
unfolding gdt_init set_segment_descriptor update
gdt_init-wide list gdt tss tss_size =
    (refl, refl, refl, refl, refl, refl, λ e. absurd (omega (arith, e)))

-- `idt_set` of a byte `n` points gate `n` to a 32-bit address, as a present interrupt gate into the
-- kernel's code, and changes no other gate; a later `idt_attribute` keeps that address and selector.
idt_set_lem :
    (list : ℕ → GateDescriptor) (n address attribute : ℕ)
    → n < 0x100
    → address < 2 ^ 32
    → let t = idt_set list n address in
      (gate_offset (t n) ≡ address)
      × ((t n).selector ≡ 8)
      × ((t n).attribute ≡ gate_attribute)
      × ((q : ℕ) → q ≢ n → t q ≡ list q)
      × (gate_offset (idt_attribute t n attribute n) ≡ address)
      × ((idt_attribute t n attribute n).selector ≡ 8)
unfolding idt_set idt_attribute set_gate_descriptor update
idt_set_lem list n address attribute byte word =
    let whole : address % 0x10000 + address / 0x10000 % 0x10000 * 0x10000 ≡ address = omega arith in
    rw (lt→ltb n 0x100 byte, eq→== n n refl)
      (whole, refl, refl, (λ q ne. rw (ne→== q n ne) refl), whole, refl)
