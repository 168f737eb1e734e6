-- ===== src/Disk.antt =====
-- Disks and their partitions, kernel/dev/disk.c. The structures lie at addresses, linked by `last` and `next`.
pub mod Find
pub mod Map
pub mod Read
pub mod Remove
pub mod Write
pub mod Tests
use bitch.Base.{
  ℕ, zero, suc, ◌+◌, ◌%◌, ◌^◌, Bool, Option, none, some, ltb, ◌==◌, if◌then◌else◌, add32, add64,
  sub64, mul64, update,
}
use bitch.Ata.{Ata, Drive, Buffer, ata_sector_size, ata_read}
use bitch.Fat.{Fat, Reader}
use bitch.Fat.Lookup.{File}
use bitch.Fs.{Fs, disk_fs_init, fs_readdir, fs_read, fs_write}

-- `_disk_dev_type_t`
pub data DiskDevType : Type 0 where
  disk_ata : DiskDevType

-- `_disk_t`
pub record Disk : Type 0 where
  pub id : ℕ
  pub dev_type : DiskDevType
  pub dev_id : ℕ
  pub start_sector : ℕ
  pub sector_count : ℕ
  pub fs : Fs
  pub part_id : ℕ
  pub part_count : ℕ
  pub pdisk : ℕ
  pub last : ℕ
  pub next : ℕ

-- The static variables of kernel/dev/disk.c, and the structures by their addresses.
pub record Disks : Type 0 where
  pub new_id : ℕ
  pub header : ℕ
  pub pos : ℕ
  pub disk_at : ℕ → Disk

-- The loop of `get_disk`, on fuel. There are at most `new_id` structures, so that `new_id + 1` rounds are
-- enough.
unfoldable pub get_disk_loop : ℕ → (ℕ → Disk) → (disk id : ℕ) → ℕ
get_disk_loop zero disk_at disk id = 0
get_disk_loop (suc fuel) disk_at disk id =
    let rest : ℕ = get_disk_loop fuel disk_at (disk_at disk).next id in
    if disk == 0 then 0 else if (disk_at disk).id == id then disk else rest

unfoldable pub get_disk : Disks → ℕ → ℕ
get_disk d id = get_disk_loop (suc d.new_id) d.disk_at d.header id

-- The loop of `get_disk_id`.
unfoldable pub get_disk_id_loop : (ℕ → Disk) → (disk left : ℕ) → Option ℕ
get_disk_id_loop disk_at disk zero = if disk == 0 then none else some (disk_at disk).id
get_disk_id_loop disk_at disk (suc left) =
    let rest = get_disk_id_loop disk_at (disk_at disk).next left in if disk == 0 then none else rest

unfoldable pub get_disk_id : Disks → ℕ → Option ℕ
get_disk_id d n = get_disk_id_loop d.disk_at d.header n

unfoldable pub get_disk_sector_size : Disks → ℕ → Option ℕ
get_disk_sector_size d id =
    let disk : ℕ = get_disk d id in
    if disk == 0 then none else elim (d.disk_at disk).dev_type [ disk_ata ↦ some ata_sector_size ]

unfoldable pub get_disk_sectors : Disks → ℕ → Option ℕ
get_disk_sectors d id =
    let disk : ℕ = get_disk d id in
    if disk == 0 then none else some ((d.disk_at disk).sector_count % 2 ^ 32)

-- The count of a request that is limited to the disk's end.
abbrev pub limited : Disk → (count offect : ℕ) → ℕ
limited disk count offect =
    let size : ℕ = mul64 disk.sector_count ata_sector_size in
    if ltb size (add64 count offect) then sub64 size offect % 2 ^ 32 else count

-- The structure of a new partition of the disk at `p`; `at` is where `kmalloc` puts it, which leaves `fs`
-- as it was there.
abbrev pub part_of : Disks → (at p start_sector sector_count : ℕ) → Disk
part_of d at p start_sector sector_count =
    let pdisk : Disk = d.disk_at p in
    record {
      id = d.new_id;
      dev_type = pdisk.dev_type;
      dev_id = pdisk.dev_id;
      start_sector = add64 pdisk.start_sector start_sector;
      sector_count = sector_count;
      fs = (d.disk_at at).fs;
      part_id = pdisk.part_count;
      part_count = 0;
      pdisk = p;
      last = d.pos;
      next = 0;
    }

-- The new structure in its place behind the last one, before its file system is known.
unfoldable pub link_part : Disks → (at p start_sector sector_count : ℕ) → Disks
unfolding update
link_part d at p start_sector sector_count =
    let counted : ℕ → Disk =
      update d.disk_at p (record (d.disk_at p) { part_count = add32 (d.disk_at p).part_count 1 }) in
    let made : ℕ → Disk = update counted at (part_of d at p start_sector sector_count) in
    let linked : ℕ → Disk =
      if d.pos == 0 then made else update made d.pos (record (made d.pos) { next = at }) in
    record d { new_id = add32 d.new_id 1; pos = at; disk_at = linked }

-- The drives, by the number that `ata_read` has for each.
module _ (ata : Ata) (drives : ℕ → Drive) where
  unfoldable pub disk_read : Disks → Reader
  disk_read d id buf count offect =
      let p : ℕ = get_disk d id in
      let disk : Disk = d.disk_at p in
      if p == 0 then (none, buf) else elim disk.dev_type [
        | disk_ata ↦
            ata_read ata (drives disk.dev_id) disk.dev_id buf (limited disk count offect)
              (add64 (mul64 disk.start_sector ata_sector_size) offect)
      ]

  -- `at` is the result of `kmalloc`; `boot`, `fat` and `full` are what `fat_init` takes.
  unfoldable pub disk_mmap :
      (boot : Buffer)
      → Fat
      → (full : Bool) → Disks
      → (at id start_sector sector_count : ℕ) → Option ℕ × Disks
  unfolding update
  disk_mmap boot fat full d at id start_sector sector_count =
      let p : ℕ = get_disk d id in
      let t : Disks = link_part d at p start_sector sector_count in
      let fs : Fs = disk_fs_init (disk_read t) d.new_id boot fat full in
      if p == 0
      then (none, d)
      else if ltb (d.disk_at p).sector_count (add64 start_sector sector_count)
      then (none, d)
      else if at == 0
      then (none, d)
      else (
        some d.new_id,
        record t { disk_at = update t.disk_at at (record (t.disk_at at) { fs = fs }) },
      )

  unfoldable pub disk_readdir :
      ℕ → Disks → (id : ℕ) → (stack : Buffer) → File → (path : ℕ → ℕ) → (n : ℕ) → Option File
  disk_readdir fuel d id stack file path n =
      let p : ℕ = get_disk d id in
      if p == 0
      then some (record file { name_len = 0 })
      else fs_readdir fuel (disk_read d) (d.disk_at p).fs stack file path n

  unfoldable pub disk_fread :
      ℕ
      → Disks
      → (id : ℕ) → (stack : Buffer) → (path : ℕ → ℕ) → (buf : Buffer) → (count offect : ℕ)
      → Option (Option ℕ × Buffer)
  disk_fread fuel d id stack path buf count offect =
      let p : ℕ = get_disk d id in
      if p == 0
      then some (none, buf)
      else fs_read fuel (disk_read d) (d.disk_at p).fs stack path buf count offect

unfoldable pub disk_fwrite : Disks → (id : ℕ) → (buf : Buffer) → Option ℕ × Buffer
disk_fwrite d id buf =
    let p : ℕ = get_disk d id in if p == 0 then (none, buf) else fs_write (d.disk_at p).fs buf
