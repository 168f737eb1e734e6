-- ===== src/Descriptor.antt =====
-- Segment and gate descriptors: arch/x86/descriptor.c, and the tables of kernel/mm/gdt.c and
-- kernel/intr/idt.c. `&` with a mask of adjacent bits is a division and a remainder, and `|` of
-- disjoint bits is a sum.
pub mod Fields
use bitch.Base.{
  ℕ, zero, suc, ◌+◌, ◌-◌, ◌*◌, ◌/◌, ◌%◌, ◌^◌, bit_or, ltb, if◌then◌else◌, add32, sub32, update,
}
use bitch.Kmm.{page_offset}

-- `_segment_descriptor_t`, `_gate_descriptor_t` and `_ptr_t`
pub record SegmentDescriptor : Type 0 where
  pub limit_1 : ℕ
  pub base_addr_1 : ℕ
  pub base_addr_2 : ℕ
  pub attribute : ℕ
  pub base_addr_3 : ℕ

pub record GateDescriptor : Type 0 where
  pub offset_1 : ℕ
  pub selector : ℕ
  pub always0 : ℕ
  pub attribute : ℕ
  pub offset_2 : ℕ

pub record Ptr : Type 0 where
  pub limit : ℕ
  pub base_attr : ℕ

unfoldable pub set_segment_descriptor : (base_attr limit attribute : ℕ) → SegmentDescriptor
set_segment_descriptor base_attr limit attribute = record {
  limit_1 = limit % 0x10000;
  base_addr_1 = base_attr % 0x10000;
  base_addr_2 = base_attr / 0x10000 % 0x100;
  attribute = attribute / 0x1000 % 0x10 * 0x1000 + limit / 0x100 % 0x10 * 0x100 + attribute % 0x100;
  base_addr_3 = base_attr / 0x100_0000 % 0x100;
}

unfoldable pub set_gate_descriptor : (selector offset attribute : ℕ) → GateDescriptor
set_gate_descriptor selector offset attribute = record {
  offset_1 = offset % 0x10000;
  selector = selector % 0x10000;
  always0 = 0;
  attribute = attribute % 0x100;
  offset_2 = offset / 0x10000 % 0x10000;
}

-- What `load_gdt` and `load_idt` hand to the processor; each descriptor has 8 bytes.
abbrev pub load_gdt : (base_attr length : ℕ) → Ptr
load_gdt base_attr length = record {
  limit = (8 * (length % 0x10000) + 0xffff) % 0x10000;
  base_attr = base_attr % 2 ^ 32;
}

abbrev pub load_idt : (base_attr length : ℕ) → Ptr
load_idt base_attr length = record {
  limit = (8 * (length % 0x10000) + 0xffff) % 0x10000;
  base_attr = base_attr % 2 ^ 32;
}

-- GDT_LENGTH, IDT_LENGTH, the indices of the kernel's and the users' segments, MAX_ATTR
abbrev pub gdt_length : ℕ
gdt_length = 6

abbrev pub idt_length : ℕ
idt_length = 0x100

abbrev pub gdt_kernel_code_index : ℕ
gdt_kernel_code_index = 1

abbrev pub gdt_kernel_data_index : ℕ
gdt_kernel_data_index = 2

abbrev pub gdt_user_code_index : ℕ
gdt_user_code_index = 3

abbrev pub gdt_user_data_index : ℕ
gdt_user_data_index = 4

abbrev pub gdt_tss_index : ℕ
gdt_tss_index = 5

abbrev pub max_attr : ℕ
max_attr = 0x1_0000_0000

-- The attributes: SEGM_G|SEGM_DB|DESC_P|DESC_S with a privilege and a type, those of the task state
-- segment, and DESC_P|DESC_D|GATE_TYPE_INT.
abbrev pub code_attribute : (privilege : ℕ) → ℕ
code_attribute privilege = 0x8000 + 0x4000 + 0x80 + privilege + 0x10 + 0x0a

abbrev pub data_attribute : (privilege : ℕ) → ℕ
data_attribute privilege = 0x8000 + 0x4000 + 0x80 + privilege + 0x10 + 0x02

abbrev pub tss_attribute : ℕ
tss_attribute = 0x80 + 0x60 + 0x08 + 0x01

abbrev pub gate_attribute : ℕ
gate_attribute = 0x80 + 0x08 + 0x06

-- `list` is `gdt_list`, `gdt` its address, `tss` that of `globl_tss`, and `tss_size` its size.
unfoldable pub gdt_init :
    (list : ℕ → SegmentDescriptor) (gdt tss tss_size : ℕ) → (ℕ → SegmentDescriptor) × Ptr
unfolding update
gdt_init list gdt tss tss_size =
    let kernel_limit : ℕ = (max_attr - page_offset - 1) / 0x1000 in
    let user_limit : ℕ = (max_attr - 1) / 0x1000 in
    let a = update list 0 (set_segment_descriptor 0 0 0) in
    let b =
      update a gdt_kernel_code_index
        (set_segment_descriptor page_offset kernel_limit (code_attribute 0)) in
    let c =
      update b gdt_kernel_data_index
        (set_segment_descriptor page_offset kernel_limit (data_attribute 0)) in
    let d =
      update c gdt_user_code_index (set_segment_descriptor 0 user_limit (code_attribute 0x60)) in
    let e =
      update d gdt_user_data_index (set_segment_descriptor 0 user_limit (data_attribute 0x60)) in
    (
      update e gdt_tss_index
          (set_segment_descriptor (add32 tss page_offset) tss_size tss_attribute),
      load_gdt (add32 gdt page_offset) gdt_length,
    )

-- `n` is a byte. The selector is that of the kernel's code, with no privilege.
unfoldable pub idt_set : (list : ℕ → GateDescriptor) (n base_attr : ℕ) → ℕ → GateDescriptor
unfolding update
idt_set list n base_attr =
    if ltb n idt_length
    then update list n (set_gate_descriptor (8 * gdt_kernel_code_index) base_attr gate_attribute)
    else list

unfoldable pub idt_attribute : (list : ℕ → GateDescriptor) (n attribute : ℕ) → ℕ → GateDescriptor
unfolding update
idt_attribute list n attribute =
    if ltb n idt_length
    then update list n (record (list n) { attribute = bit_or (list n).attribute attribute })
    else list

-- `idt` is the address of `idt_list`.
abbrev pub idt_init : (idt : ℕ) → Ptr
idt_init idt = load_idt (add32 idt page_offset) idt_length
