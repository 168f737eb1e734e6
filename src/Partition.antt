-- ===== src/Partition.antt =====
-- The partition tables, kernel/dev/part.c, kernel/dev/part/mbr.c and gpt.c: each entry of a table becomes a call
-- of `disk_mmap`.
pub mod Drives
mod Tests
use bitch.Base.{
  ℕ, zero, suc, ◌+◌, ◌*◌, ◌-◌, ◌^◌, Bool, true, false, not, ◌&&◌, Option, none, some, ◌==◌,
  if◌then◌else◌, add32, mul32, add64, sub64, mul64, update,
}
use bitch.Ata.{Ata, Drive, Buffer}
use bitch.Fat.{Fat, word16, word32}
use bitch.Fat.Dir.{◌>>=◌}
use bitch.Fs.{Fs, disk_fs_init}
use bitch.Disk.{Disk, Disks, DiskDevType, disk_read, disk_mmap, get_disk_sector_size}

abbrev word64 : Buffer → ℕ → ℕ
word64 b i = word32 b i + word32 b (i + 4) * 2 ^ 32

-- TYPE_EMPTY, TYPE_EXT, TYPE_GPT
abbrev type_empty : ℕ
type_empty = 0x00

abbrev type_ext : ℕ
type_ext = 0x05

abbrev type_gpt : ℕ
type_gpt = 0xee

-- The fields of `_mbr_part_t` in the entry `i`, and `sign` of `_mbr_t`.
abbrev part_type : Buffer → ℕ → ℕ
part_type mbr i = mbr (i * 16 + 4)

abbrev first_sector_lba : Buffer → ℕ → ℕ
first_sector_lba mbr i = word32 mbr (i * 16 + 8)

abbrev sector_num : Buffer → ℕ → ℕ
sector_num mbr i = word32 mbr (i * 16 + 12)

abbrev sign : Buffer → ℕ
sign mbr = word16 mbr 64

-- The fields of `_gpt_header_t` and of `_gpt_entry_t`.
abbrev gpt_sign : Buffer → ℕ
gpt_sign header = word64 header 0

abbrev start_part_entries_lba : Buffer → ℕ
start_part_entries_lba header = word64 header 72

abbrev part_entries_num : Buffer → ℕ
part_entries_num header = word32 header 80

abbrev part_entry_size : Buffer → ℕ
part_entry_size header = word32 header 84

abbrev first_lba : Buffer → ℕ
first_lba entry = word64 entry 32

abbrev last_lba : Buffer → ℕ
last_lba entry = word64 entry 40

-- `!= -1`
abbrev succeeds : Option ℕ → Bool
succeeds r = elim r [ none ↦ false | some _ ↦ true ]

-- A result of type `_ssize_t` that is used as a `_size_t`, and as a `_u64_t`.
abbrev as_size : Option ℕ → ℕ
as_size r = elim r [ none ↦ 2 ^ 32 - 1 | some n ↦ n ]

abbrev as_u64 : Option ℕ → ℕ
as_u64 r = elim r [ none ↦ 2 ^ 64 - 1 | some n ↦ n ]

-- The drives; what `fat_init` takes; the address that `kmalloc` gives for the next structure; and the
-- contents of a local structure before it is read.
module _ (ata : Ata) (drives : ℕ → Drive) (boot : Buffer) (fat : Fat) (full : Bool)
    (kmalloc : Disks → ℕ) (local : Buffer) where
  abbrev map_part : Disks → (id start_sector sector_count : ℕ) → Option ℕ × Disks
  map_part d id start_sector sector_count =
      disk_mmap ata drives boot fat full d (kmalloc d) id start_sector sector_count

  -- The loop of `gpt_part` from the entry `i` on.
  unfoldable gpt_loop : (header : Buffer) → (id i left n : ℕ) → Disks → ℕ × Disks
  gpt_loop header id i zero n d = (n, d)
  gpt_loop header id i (suc left) n d =
      let at : ℕ =
        add64 (mul64 (as_u64 (get_disk_sector_size d id)) (start_part_entries_lba header))
          (mul32 i (part_entry_size header)) in
      let r = disk_read ata drives d id local 128 at in
      let used : Bool = succeeds r.0 && not (first_lba r.1 == 0) in
      let count : ℕ = add64 (sub64 (last_lba r.1) (first_lba r.1)) 1 in
      gpt_loop header id (i + 1) left (if used then add32 n 1 else n)
        (if used then (map_part d id (first_lba r.1) count).1 else d)

  unfoldable gpt_part : (id : ℕ) → Disks → ℕ × Disks
  unfolding gpt_loop
  gpt_part id d =
      let r = disk_read ata drives d id local 92 (as_u64 (get_disk_sector_size d id)) in
      if succeeds r.0 && (gpt_sign r.1 == 0x5452415020494645)
      then gpt_loop r.1 id 0 (part_entries_num r.1) 0 d
      else (0, d)

  -- The entry `i` of the table of the disk `id`; `again` is the call of `mbr_part` for an extended partition.
  unfoldable mbr_entry :
      (again : ℕ → Disks → Option (ℕ × Disks))
      → (mbr : Buffer) → (id i n : ℕ) → Disks
      → Option (ℕ × Disks)
  mbr_entry again mbr id i n d =
      let r = map_part d id (first_sector_lba mbr i) (sector_num mbr i) in
      let g = gpt_part id d in
      if part_type mbr i == type_ext
      then (again (as_size r.0) r.1 >>= λ s. some (add32 (add32 n s.0) 1, s.1))
      else if part_type mbr i == type_gpt
      then some (add32 n g.0, g.1)
      else if part_type mbr i == type_empty
      then some (n, d)
      else some (add32 n 1, r.1)

  unfoldable mbr_loop :
      (again : ℕ → Disks → Option (ℕ × Disks))
      → (mbr : Buffer) → (id i left n : ℕ) → Disks
      → Option (ℕ × Disks)
  unfolding mbr_entry
  mbr_loop again mbr id i zero n d = some (n, d)
  mbr_loop again mbr id i (suc left) n d =
      mbr_entry again mbr id i n d >>= λ s. mbr_loop again mbr id (i + 1) left s.0 s.1

  -- On fuel for the extended partitions inside each other; `none` means that it ran out.
  unfoldable mbr_part : ℕ → (id : ℕ) → Disks → Option (ℕ × Disks)
  unfolding mbr_loop
  mbr_part zero id d = none
  mbr_part (suc fuel) id d =
      let r = disk_read ata drives d id local 66 0x1be in
      if succeeds r.0 && (sign r.1 == 0xaa55)
      then mbr_loop (mbr_part fuel) r.1 id 0 4 0 d
      else some (0, d)

  unfoldable disk_part : ℕ → (id : ℕ) → Disks → Option (ℕ × Disks)
  unfolding mbr_part
  disk_part fuel id d = mbr_part fuel id d

  -- The structure of a new disk; `kmalloc` leaves `fs` as it was there.
  abbrev disk_of : Disks → (at : ℕ) → DiskDevType → (dev_id sector_count : ℕ) → Disk
  disk_of d at dev_type dev_id sector_count = record {
    id = d.new_id;
    dev_type = dev_type;
    dev_id = dev_id;
    start_sector = 0;
    sector_count = sector_count;
    fs = (d.disk_at at).fs;
    part_id = 0;
    part_count = 0;
    pdisk = 0;
    last = d.pos;
    next = 0;
  }

  unfoldable link_disk : Disks → (at : ℕ) → Disk → Disks
  unfolding update
  link_disk d at disk =
      let made : ℕ → Disk = update d.disk_at at disk in
      record {
        new_id = add32 d.new_id 1;
        header = if d.header == 0 then at else d.header;
        pos = at;
        disk_at =
            if d.pos == 0 then made else update made d.pos (record (made d.pos) { next = at });
      }

  pub disk_create : ℕ → DiskDevType → (dev_id sector_count : ℕ) → Disks → Option (Option ℕ × Disks)
  unfolding disk_part link_disk update
  disk_create fuel dev_type dev_id sector_count d =
      let at : ℕ = kmalloc d in
      let t : Disks = link_disk d at (disk_of d at dev_type dev_id sector_count) in
      let parted = disk_part fuel d.new_id t in
      if at == 0
      then some (none, d)
      else (parted >>= λ s.
          let fs : Fs = disk_fs_init (disk_read ata drives s.1) d.new_id boot fat full in
          let disk : Disk = record (s.1.disk_at at) { fs = fs } in
          some (some d.new_id, record s.1 { disk_at = update s.1.disk_at at disk }))
