-- ===== src/Elf.antt =====
-- The loading of a program, kernel/binfmt/elf.c. The file is a parameter: what `file_read` of
-- kernel/dev/file.c puts into a buffer.
pub mod Segment
mod Tests
use bitch.Base.{
  ℕ, zero, suc, ◌+◌, ◌-◌, ◌*◌, ◌≡◌, Bool, true, false, ◌&&◌, Option, none, some, ltb, leb, ◌==◌,
  if◌then◌else◌, add32, mul32, sub32,
}
use bitch.Fat.{word16, word32}
use bitch.Strings.{memset}
use bitch.Umm.{Umm, umm_mmap_kmm, umm_ummap_kmm}

-- The fields of the two headers, which are the bytes of the file.
abbrev pub e_type : (ℕ → ℕ) → ℕ
e_type header = word16 header 16

abbrev pub e_entry : (ℕ → ℕ) → ℕ
e_entry header = word32 header 24

abbrev pub e_phoff : (ℕ → ℕ) → ℕ
e_phoff header = word32 header 28

abbrev pub e_phentsize : (ℕ → ℕ) → ℕ
e_phentsize header = word16 header 42

abbrev pub e_phnum : (ℕ → ℕ) → ℕ
e_phnum header = word16 header 44

abbrev pub p_type : (ℕ → ℕ) → ℕ
p_type header = word32 header 0

abbrev pub p_offset : (ℕ → ℕ) → ℕ
p_offset header = word32 header 4

abbrev pub p_vaddr : (ℕ → ℕ) → ℕ
p_vaddr header = word32 header 8

abbrev pub p_filesz : (ℕ → ℕ) → ℕ
p_filesz header = word32 header 16

abbrev pub p_memsz : (ℕ → ℕ) → ℕ
p_memsz header = word32 header 20

-- PT_LOAD
abbrev pub pt_load : ℕ
pt_load = 1

-- The user page tables, and the bytes of memory by their addresses in the kernel.
pub record Loader : Type 0 where
  pub umm : Umm
  pub memory : ℕ → ℕ

-- `file_read` with its path: the result, -1 is `none`, and the buffer.
abbrev pub FileRead : Type 0
FileRead = (buf : ℕ → ℕ) → (count offect : ℕ) → Option ℕ × (ℕ → ℕ)

-- The buffer at an address, and the memory with a buffer there.
abbrev pub at_address : (ℕ → ℕ) → (p : ℕ) → ℕ → ℕ
at_address memory p j = memory (p + j)

abbrev pub store_at : (memory buf : ℕ → ℕ) → (p : ℕ) → ℕ → ℕ
store_at memory buf p a = if leb p a then buf (a - p) else memory a

-- The larger of the two sizes of a segment.
abbrev pub segment_size : (ℕ → ℕ) → ℕ
segment_size header =
    if ltb (p_filesz header) (p_memsz header) then p_memsz header else p_filesz header

-- What follows the mapping of a segment at `p`.
unfoldable pub fill_segment : FileRead → (header : ℕ → ℕ) → (p : ℕ) → Loader → Bool × Loader
fill_segment file_read header p s =
    let size : ℕ = segment_size header in
    let r = file_read (at_address s.memory p) (p_filesz header) (p_offset header) in
    let read : ℕ → ℕ = store_at s.memory r.1 p in
    let rest : ℕ = add32 p (p_filesz header) in
    let clear : ℕ → ℕ = memset (at_address read rest) 0 (sub32 size (p_filesz header)) in
    elim r.0 [
      | none ↦ (false, record { umm = umm_ummap_kmm s.umm p size; memory = read })
      | some done ↦
          (true, record { umm = umm_ummap_kmm s.umm p size; memory = store_at read clear rest })
    ]

unfoldable pub load_segment : FileRead → (header : ℕ → ℕ) → (pde : ℕ) → Loader → Bool × Loader
load_segment file_read header pde s =
    let m = umm_mmap_kmm s.umm (p_vaddr header) (segment_size header) pde in
    let t : Loader = record s { umm = m.1 } in
    if m.0 == 0 then (false, t) else fill_segment file_read header m.0 t

-- The loop of `load_program` from segment `n` on; `local` is what the header's structure holds before it is
-- read.
unfoldable pub load_loop :
    FileRead → (local : ℕ → ℕ) → (offect size pde n left : ℕ) → Loader → Option ℕ × Loader
load_loop file_read local offect size pde n zero s = (some n, s)
load_loop file_read local offect size pde n (suc left) s =
    let r = file_read local 32 (add32 offect (mul32 size n)) in
    let loaded = if p_type r.1 == pt_load then load_segment file_read r.1 pde s else (true, s) in
    let rest = load_loop file_read local offect size pde (n + 1) left loaded.1 in
    elim r.0 [ none ↦ (none, s) | some done ↦ if loaded.0 then rest else (none, loaded.1) ]

unfoldable pub load_program :
    FileRead → (local : ℕ → ℕ) → (offect size num pde : ℕ) → Loader → Option ℕ × Loader
unfolding load_loop
load_program file_read local offect size num pde s =
    load_loop file_read local offect size pde 0 num s

-- `elf_exec` returns, or the processor enters the program.
pub data Started : Type 0 where
  returned : Loader → Started
  entered : (entry : ℕ) → Loader → Started

abbrev pub is_elf : (ℕ → ℕ) → Bool
is_elf header =
    (header 0 == 0x7f)
    && (header 1 == 0x45)
    && (header 2 == 0x4c)
    && (header 3 == 0x46)
    && (header 4 == 1)
    && (e_type header == 2)

-- The path is freed before the program is entered; the heap is not part of this state.
unfoldable pub elf_exec : FileRead → (local program : ℕ → ℕ) → (pde : ℕ) → Loader → Started
elf_exec file_read local program pde s =
    let r = file_read local 52 0 in
    let loaded =
      load_program file_read program (e_phoff r.1) (e_phentsize r.1) (e_phnum r.1) pde s in
    elim r.0 [
      | none ↦ returned s
      | some done ↦
          if is_elf r.1
          then elim loaded.0 [
            | none ↦ returned loaded.1
            | some num ↦ entered (e_entry r.1) loaded.1
          ]
          else returned s
    ]
